-- ===== src/Setup/Open.antt =====
-- sio_open of driver/sio.c and uart_init of driver/uart.c: the state in which the port is opened.
use esp_slip_router.Setup.{
  UartDevice, Opened, Heap, uart_init, sio_open, uart_config, uart_rx_buffer_size,
}
use esp_slip_router.Setup.Format.{format, format_of_bits}
use esp_slip_router.Setup.Config.{device_format}
use esp_slip_router.Setup.Frame.{uart_config-format}
use esp_slip_router.Setup.Rate.{IsRated, uart_config-divisor}
use esp_slip_router.Registers.{Peripherals, IsHolding, conf0, uart_conf0, ets_uart_intr_enable}
use esp_slip_router.Uart.{Uart, UartBuffer, uart_buf_init, uart_rx_buff_enq, uart_tx_buffer_size}
use esp_slip_router.Uart.Inv.{uart_buf_init-IsValid}
use esp_slip_router.Uart.Stream.{Implements}
use esp_slip_router.Window.{window}
use esp_slip_router.Prelude.{
  ℕ, ◌<◌, ◌/◌, ◌≡◌, refl, ◌∙◌, ap, some, List, [], length, arith, Option-cases, inl, inr, true,
}

-- `Uart_Buf_Init` succeeds when the heap has more than is asked for.
made :
    (heap : ℕ) (storage : ℕ → List ℕ) (n : ℕ)
    → n < heap
    → (b : UartBuffer) × (uart_buf_init heap storage n ≡ some b) × (b.uart_buff_size ≡ n)
unfolding uart_buf_init
made heap storage n h = elim (Option-cases (uart_buf_init heap storage n)) [
  | inl e ↦ absurd (ground arith)
  | inr (b, e) ↦ (b, e, ground arith)
]

-- A receive buffer of no bytes takes nothing, whatever the FIFO holds.
rx_takes_nothing :
    (heap : ℕ) (storage : ℕ → List ℕ) (rx : UartBuffer)
    → uart_buf_init heap storage uart_rx_buffer_size ≡ some rx
    → (fifo : List ℕ) → uart_rx_buff_enq rx fifo ≡ rx
unfolding uart_buf_init uart_rx_buff_enq
rx_takes_nothing heap storage rx e fifo = ground arith

-- The state in which sio_open leaves the port, where the clock `clk` is divided by `divisor`.
pub record Ready {S : Type 0} (p : Peripherals S) (divisor : S → ℕ → ℕ) (u : Uart)
    (dev : UartDevice) (clk rate : ℕ) (o : Opened S) : Type 0 where
  pub transmits : Implements uart_tx_buffer_size o.driver (record { pending = []; sent = u.sent })
  pub listens : o.driver.uart_int ≡ true
  pub rx : UartBuffer
  pub rx_made : o.rx_buffer ≡ some rx
  pub takes_nothing : (fifo : List ℕ) → uart_rx_buff_enq rx fifo ≡ rx
  pub rate_set : o.dev.baut_rate ≡ rate
  pub programmed : divisor o.hw 0 ≡ clk / rate
  pub formatted : format p 0 o.hw ≡ device_format dev

module _ {S : Type 0} (p : Peripherals S) (hold : IsHolding p) {divisor : S → ℕ → ℕ}
    (rated : IsRated p divisor) where
  -- Whatever number it is given, sio_open opens UART0, if there is enough memory: an empty transmit
  -- queue of 4096 bytes, interrupts on, the format of the device, the rate asked for stored and the
  -- clock divided for it, and a receive buffer that never takes a byte. The rate is not 0.
  pub sio_open-Ready :
      (clk : ℕ) (heap : Heap) (u : Uart) (dev : UartDevice) (rate devnum : ℕ) (s : S)
      → 0 < rate
      → uart_tx_buffer_size < heap.for_tx
      → 0 < heap.for_rx
      → length (heap.storage uart_tx_buffer_size) ≡ uart_tx_buffer_size
      → (o : Opened S) × (sio_open p clk heap u dev rate devnum s ≡ some o)
        × Ready p divisor u dev clk rate o
  unfolding sio_open uart_init
  sio_open-Ready clk heap u dev rate devnum s nz h k l =
      let (b, b_made, size) = made heap.for_tx heap.storage uart_tx_buffer_size h in
      let (rx, rx_made, _) = made heap.for_rx heap.storage uart_rx_buffer_size k in
      let (valid, empty, room) =
        uart_buf_init-IsValid heap.for_tx heap.storage uart_tx_buffer_size (omega arith)
          (omega arith) l b_made in
      let t = uart_config p clk (record dev { baut_rate = rate }) 0 s in
      (
        _,
        refl,
        record {
          transmits = record {
            b = b;
            buffer = b_made;
            valid = valid;
            size = size;
            waiting = ap (window b.uart_buff b.uart_buff_size b.out_pos) empty;
            sent = refl;
            live = λ h. absurd (omega arith);
          };
          listens = refl;
          rx = rx;
          rx_made = rx_made;
          takes_nothing = rx_takes_nothing heap.for_rx heap.storage rx rx_made;
          rate_set = refl;
          programmed =
              rated.divisor-call t ets_uart_intr_enable 0
              ∙ uart_config-divisor p rated clk (record dev { baut_rate = rate }) s;
          formatted =
              format_of_bits (λ b. p.bit (p.call t ets_uart_intr_enable) (uart_conf0 0) b)
                (λ b. p.bit t (uart_conf0 0) b)
                (λ b hb. hold.bit-call t ets_uart_intr_enable conf0 0 b (omega arith) hb)
              ∙ (uart_config-format p hold clk (record dev { baut_rate = rate }) 0 s
                  (omega arith)).0;
        },
      )
