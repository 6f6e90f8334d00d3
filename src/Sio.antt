-- ===== src/Sio.antt =====
-- driver/sio.c: the serial interface that lwIP expects, over the buffers of driver/uart.c.
pub mod Read
pub mod Write
mod Tests
use esp_slip_router.Prelude.{
  ℕ, zero, suc, ◌+◌, ◌^◌, ◌%◌, Bool, true, false, ◌&&◌, Option, none, some, List, [], ◌∷◌, length,
  take, leb, ◌==◌, if◌then◌else◌, u16,
}
use esp_slip_router.Uart.{Uart, UartBuffer, tx_buff_enq, uart_rx_buff_enq, rx_buff_deq}

-- The driver with its receive buffer, the counter `Bytes_in` and the flag `uart_poll`.
pub record Sio : Type 0 where
  pub uart : Uart
  pub rx : UartBuffer
  pub bytes_in : ℕ  -- uint64
  pub uart_poll : Bool

-- Both answer as in `uart_buf_init`.
module _ (heap : ℕ) (storage : ℕ → List ℕ) where
  unfoldable pub sio_send : ℕ → Sio → Sio
  sio_send c s = record s {
    bytes_in = (s.bytes_in + 1) % 18446744073709551616;
    uart = tx_buff_enq heap storage s.uart (c ∷ []);
  }

  -- The length is passed on as a uint16. It returns no value.
  unfoldable pub sio_write : List ℕ → Sio → Sio
  sio_write bytes s = record s {
    uart = tx_buff_enq heap storage s.uart (take (u16 (length bytes)) bytes);
  }

-- the driver with its new receive buffer, and the interrupt that `rx_buff_deq` may enable
abbrev pub with_rx : Sio → UartBuffer → Bool → Sio
with_rx s rx enables = record s {
  rx = rx;
  uart = record s.uart { uart_int = if enables then true else s.uart.uart_int };
}

-- The bytes read; their number is what the C function returns. The length is passed on as a uint16.
unfoldable pub sio_tryread : ℕ → Sio → List ℕ × Sio
sio_tryread len s =
    let (bytes, rx, enables) = rx_buff_deq s.rx (u16 len) in (bytes, with_rx s rx enables)

unfoldable pub sio_read_abort : Sio → Sio
sio_read_abort s = record s { uart_poll = false }

-- What may happen while a call waits: the FIFO's bytes arrive, or the call is aborted.
pub data Event : Type 0 where
  arrives : List ℕ → Event
  aborts : Event

unfoldable pub happens : Event → Sio → Sio
happens (arrives fifo) s = record s { rx = uart_rx_buff_enq s.rx fifo }
happens aborts s = sio_read_abort s

-- a byte was read, or the loop goes on
abbrev received : List ℕ × Sio → Option (ℕ × Sio) → Option (ℕ × Sio)
received ([], s) rest = rest
received (c ∷ _, s) rest = some (c, s)

-- The loop of `sio_recv`, with one event between two rounds; `none` means that it still waits.
unfoldable pub sio_recv : List Event → Sio → Option (ℕ × Sio)
sio_recv [] s = received (sio_tryread 1 s) none
sio_recv (e ∷ es) s =
    let tried = sio_tryread 1 s in received tried (sio_recv es (happens e tried.1))

-- `r_len = rx_buff_deq(data, len) == 0 && uart_poll`
unfoldable pub read_len : List ℕ × Sio → ℕ
read_len (bytes, s) = if length bytes == 0 && s.uart_poll then 1 else 0

-- The loop of `sio_read`: the value that it returns, the bytes in `data`, and the state.
unfoldable pub read_loop : List Event → ℕ → Sio → Option (ℕ × List ℕ × Sio)
read_loop [] len s =
    let tried = sio_tryread len s in
    if read_len tried == 0 then some (read_len tried, tried.0, tried.1) else none
read_loop (e ∷ es) len s =
    let tried = sio_tryread len s in
    let rest = read_loop es len (happens e tried.1) in
    if read_len tried == 0 then some (read_len tried, tried.0, tried.1) else rest

unfoldable pub sio_read : List Event → ℕ → Sio → Option (ℕ × List ℕ × Sio)
sio_read es len s = read_loop es len (record s { uart_poll = true })
