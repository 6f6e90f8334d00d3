-- ===== src/Uart.antt =====
-- driver/uart.c: the software buffers between the SLIP interface and the hardware FIFOs of UART0,
-- and the interrupt handler. A pointer into `uart_buff` is its offset. The hardware enters through
-- what its registers answer.
pub mod Inv
pub mod Tx
pub mod Rx
pub mod Stream
pub mod Unload
mod Tests
use esp_slip_router.Prelude.{
  ℕ, zero, suc, ◌+◌, ◌-◌, ◌%◌, Bool, true, false, Option, none, some, List, [], ◌∷◌, ◌++◌, length,
  take, drop, set, blit, get_or, ltb, leb, ◌==◌, if◌then◌else◌, u8, u16,
}

abbrev pub uart_tx_buffer_size : ℕ
uart_tx_buffer_size = 4096

abbrev pub uart_fifo_len : ℕ
uart_fifo_len = 128

-- `struct UartBuffer`, without the fields that are written once and never read.
pub record UartBuffer : Type 0 where
  pub uart_buff_size : ℕ  -- uint32
  pub uart_buff : List ℕ
  pub in_pos : ℕ
  pub out_pos : ℕ
  pub space : ℕ  -- uint16

-- The driver's state: the two buffers, the hardware FIFOs of UART0 (what was written to the transmit
-- FIFO since the start, and what waits in the receive FIFO), the interrupt masks, and how often
-- UART0_SIGNAL was posted.
pub record Uart : Type 0 where
  pub tx_buffer : Option UartBuffer
  pub sent : List ℕ
  pub rx_fifo : List ℕ
  pub tx_empty_int : Bool
  pub uart_int : Bool
  pub signals : ℕ

-- `heap` is the answer of system_get_free_heap_size, `storage n` the block that os_malloc returns.
unfoldable pub uart_buf_init : ℕ → (ℕ → List ℕ) → ℕ → Option UartBuffer
uart_buf_init heap storage buf_size =
    if leb heap buf_size
    then none
    else some (record {
      uart_buff_size = buf_size;
      uart_buff = storage buf_size;
      in_pos = 0;
      out_pos = 0;
      space = u16 buf_size;
    })

-- the part of `Uart_Buf_Cpy` that copies one block and moves the input position
unfoldable pub put_block : UartBuffer → List ℕ → UartBuffer
put_block cur block = record cur {
  uart_buff = blit cur.uart_buff cur.in_pos block;
  in_pos = (cur.in_pos + length block) % cur.uart_buff_size;
  space = u16 (cur.space + 65536 - length block);
}

-- `pdata` has `data_len` bytes, a uint16.
unfoldable pub uart_buf_cpy : UartBuffer → List ℕ → UartBuffer
unfolding put_block
uart_buf_cpy cur [] = cur
uart_buf_cpy cur (x ∷ xs) =
    let tail_len = u16 (cur.uart_buff_size - cur.in_pos) in
    if leb (length (x ∷ xs)) tail_len
    then put_block cur (x ∷ xs)
    else put_block (put_block cur (take tail_len (x ∷ xs))) (drop tail_len (x ∷ xs))

abbrev enq_fresh : Option UartBuffer → List ℕ → Option UartBuffer
unfolding uart_buf_cpy
enq_fresh none pdata = none
enq_fresh (some fresh) pdata = some (uart_buf_cpy fresh pdata)

-- The three branches of `tx_buff_enq`: no buffer yet, room for the data, or the data dropped.
unfoldable pub enq_buffer : ℕ → (ℕ → List ℕ) → Option UartBuffer → List ℕ → Option UartBuffer
unfolding uart_buf_init uart_buf_cpy enq_fresh
enq_buffer heap storage none pdata =
    enq_fresh (uart_buf_init heap storage uart_tx_buffer_size) pdata
enq_buffer heap storage (some b) pdata =
    some (if leb (length pdata) b.space then uart_buf_cpy b pdata else b)

-- The transmitter's empty interrupt is masked meanwhile, and enabled at the end. Left out is that the
-- threshold of this interrupt is set in UART_CONF1 once more, to what uart_config wrote there.
unfoldable pub tx_buff_enq : ℕ → (ℕ → List ℕ) → Uart → List ℕ → Uart
unfolding enq_buffer
tx_buff_enq heap storage u pdata = record u {
  tx_buffer = enq_buffer heap storage u.tx_buffer pdata;
  tx_empty_int = true;
}

-- The loop of `tx_fifo_insert`: `i` rounds left, the bytes written to the FIFO appended to `sent`.
unfoldable pub insert_loop : ℕ → UartBuffer → List ℕ → UartBuffer × List ℕ
insert_loop zero b sent = (b, sent)
insert_loop (suc i) b sent =
    insert_loop i
      (record b { out_pos = if b.out_pos + 1 == b.uart_buff_size then 0 else b.out_pos + 1 })
      (sent ++ (get_or b.uart_buff b.out_pos 0 ∷ []))

unfoldable pub tx_fifo_insert : UartBuffer → ℕ → List ℕ → UartBuffer × List ℕ
unfolding insert_loop
tx_fifo_insert b data_len sent =
    let (b', sent') = insert_loop data_len b sent in
    (
      record b' { out_pos = b'.out_pos % b'.uart_buff_size; space = u16 (b'.space + data_len) },
      sent',
    )

-- How much `tx_start_uart_buffer` moves, at a FIFO that holds `fifo_cnt` bytes.
unfoldable pub tx_len : UartBuffer → ℕ → ℕ
tx_len b fifo_cnt =
    let fifo_remain = u8 (uart_fifo_len + 256 - fifo_cnt) in
    let data_len = u16 (b.uart_buff_size - b.space) in
    if ltb fifo_remain data_len then fifo_remain else u8 data_len

-- `tx_start_uart_buffer` without and with a buffer.
unfoldable pub start : Option UartBuffer → Uart → ℕ → Uart
unfolding tx_fifo_insert tx_len
start none u fifo_cnt = u
start (some b) u fifo_cnt =
    let (b', sent') = tx_fifo_insert b (tx_len b fifo_cnt) u.sent in
    record u {
      tx_buffer = some b';
      sent = sent';
      tx_empty_int =
          if ltb (u8 (uart_fifo_len + 256 - fifo_cnt)) (u16 (b.uart_buff_size - b.space))
          then true
          else u.tx_empty_int;
    }

unfoldable pub tx_start_uart_buffer : Uart → ℕ → Uart
unfolding start
tx_start_uart_buffer u fifo_cnt = start u.tx_buffer u fifo_cnt

-- How many bytes `rx_buff_deq` hands out.
unfoldable pub deq_len : UartBuffer → ℕ → ℕ
deq_len rx data_len =
    let buf_len = u16 (rx.uart_buff_size - rx.space) in
    if ltb buf_len data_len then buf_len else data_len

-- The cases of `rx_buff_deq` that copy one block, without and with the modulus on the position.
-- (A block that ran past the storage would be cut short here.)
unfoldable pub deq_straight : UartBuffer → ℕ → List ℕ × UartBuffer
deq_straight rx n = (
  take n (drop rx.out_pos rx.uart_buff),
  record rx { out_pos = rx.out_pos + n; space = u16 (rx.space + n) },
)

unfoldable pub deq_round : UartBuffer → ℕ → List ℕ × UartBuffer
deq_round rx n = (
  take n (drop rx.out_pos rx.uart_buff),
  record rx { out_pos = (rx.out_pos + n) % rx.uart_buff_size; space = u16 (rx.space + n) },
)

-- The case that copies two blocks, the first up to the end of the storage.
unfoldable pub deq_two : UartBuffer → ℕ → ℕ → List ℕ × UartBuffer
unfolding deq_round
deq_two rx tail_len n =
    let (first, rx') = deq_round rx tail_len in
    let (second, rx'') = deq_round rx' (n - tail_len) in (first ++ second, rx'')

-- The bytes for `pdata` and the buffer.
unfoldable pub deq_bytes : UartBuffer → ℕ → List ℕ × UartBuffer
unfolding deq_straight deq_round deq_two
deq_bytes rx len_tmp =
    let tail_len = u16 (rx.uart_buff_size - rx.out_pos) in
    if leb rx.out_pos rx.in_pos
    then deq_straight rx len_tmp
    else if ltb tail_len len_tmp
    then deq_two rx tail_len len_tmp
    else deq_round rx len_tmp

-- The bytes, the buffer, and whether the receive interrupt is enabled again.
unfoldable pub rx_buff_deq : UartBuffer → ℕ → List ℕ × UartBuffer × Bool
unfolding deq_len deq_bytes
rx_buff_deq rx data_len =
    let (bytes, rx') = deq_bytes rx (deq_len rx data_len) in
    (bytes, rx', leb uart_fifo_len rx'.space)

-- the loop of `Uart_rx_buff_enq` over the bytes read from the FIFO
unfoldable pub rx_enq_loop : UartBuffer → List ℕ → UartBuffer
rx_enq_loop rx [] = rx
rx_enq_loop rx (x ∷ xs) =
    rx_enq_loop
      (record rx {
        uart_buff = set rx.uart_buff rx.in_pos x;
        in_pos = if rx.in_pos + 1 == rx.uart_buff_size then 0 else rx.in_pos + 1;
      })
      xs

-- `fifo` is what the receive FIFO holds; its count is read as a uint8.
unfoldable pub uart_rx_buff_enq : UartBuffer → List ℕ → UartBuffer
unfolding rx_enq_loop
uart_rx_buff_enq rx fifo =
    let fifo_len = u8 (length fifo) in
    if leb rx.space fifo_len
    then rx
    else (let rx' = rx_enq_loop rx (take fifo_len fifo) in
        record rx' { space = u16 (rx'.space + 65536 - fifo_len) })

-- The callback `uart0_unload_fn`, a function on the state that it changes, or NULL.
abbrev pub UnloadFn : Type 0 → Type 0
UnloadFn S = Option (S → ℕ → S)

module _ {S : Type 0} where
  -- the loop of `external_unload` over the bytes read from the FIFO
  unfoldable pub unload_loop : UnloadFn S → List ℕ → S → S
  unload_loop fn [] s = s
  unload_loop none (x ∷ xs) s = unload_loop none xs s
  unload_loop (some fn) (x ∷ xs) s = unload_loop (some fn) xs (fn s x)

  unfoldable pub external_unload : UnloadFn S → Uart → S → Uart × S
  unfolding unload_loop
  external_unload fn u s =
      let fifo_len = u8 (length u.rx_fifo) in
      (
        record u { rx_fifo = drop fifo_len u.rx_fifo; uart_int = true; signals = u.signals + 1 },
        unload_loop fn (take fifo_len u.rx_fifo) s,
      )

-- the bits of the interrupt status register that the handler tests
pub record IntStatus : Type 0 where
  pub frm_err : Bool
  pub rxfifo_full : Bool
  pub rxfifo_tout : Bool
  pub txfifo_empty : Bool
  pub rxfifo_ovf : Bool

module _ {S : Type 0} where
  -- `uart0_rx_intr_handler`; `fifo_cnt` is the transmit FIFO's count if it is read. A framing error
  -- and an overflow are only acknowledged, and reported on UART1.
  unfoldable pub uart0_rx_intr_handler : UnloadFn S → IntStatus → ℕ → Uart → S → Uart × S
  unfolding external_unload tx_start_uart_buffer
  uart0_rx_intr_handler fn st fifo_cnt u s =
      if st.frm_err
      then (u, s)
      else if st.rxfifo_full
      then external_unload fn (record u { uart_int = false }) s
      else if st.rxfifo_tout
      then external_unload fn (record u { uart_int = false }) s
      else if st.txfifo_empty
      then (tx_start_uart_buffer (record u { tx_empty_int = false }) fifo_cnt, s)
      else (u, s)
