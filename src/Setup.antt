-- ===== src/Setup.antt =====
-- driver/uart.c and driver/sio.c: the functions that configure a UART, by its registers.
pub mod Config
pub mod Format
pub mod Rate
pub mod Open
mod Tests
pub mod Flow
pub mod Frame
use esp_slip_router.Uart.{Uart, UartBuffer, uart_buf_init, uart_tx_buffer_size}
use esp_slip_router.Registers.{
  reg_uart_base, uart_int_ena, uart_int_clr, uart_conf0, uart_conf1, uart_rxfifo_tout_int_ena,
  uart_rxfifo_ovf_int_ena, uart_frm_err_int_ena, uart_rxfifo_full_int_ena, uart_rts_inv,
  uart_txd_inv, uart_cts_inv, uart_rxd_inv, uart_txfifo_rst, uart_rxfifo_rst, uart_tx_flow_en,
  uart_stop_bit_num, uart_stop_bit_num_s, uart_bit_num, uart_bit_num_s, uart_parity_en,
  uart_parity_en_m, uart_parity_en_s, uart_parity, uart_parity_m, uart_parity_s, uart_rx_tout_en,
  uart_rx_tout_thrhd, uart_rx_tout_thrhd_s, uart_rx_flow_en, uart_rx_flow_thrhd,
  uart_rx_flow_thrhd_s, uart_txfifo_empty_thrhd, uart_txfifo_empty_thrhd_s, uart_rxfifo_full_thrhd,
  uart_rxfifo_full_thrhd_s, mux_gpio2, mux_u0txd, mux_mtdo, mux_mtck, func_u1txd_bk, func_u0txd,
  func_u0rts, func_uart0_cts, pin_func_select, pin_pullup_dis, ets_uart_intr_attach,
  ets_uart_intr_enable, ets_uart_intr_disable, uart_div_modify, Peripherals,
}
use Prim.Native.Nat.{bit_and, bit_or}
use esp_slip_router.Prelude.{
  ℕ, ◌+◌, ◌*◌, ◌/◌, ◌^◌, Bool, true, false, not, Option, none, some, List, ◌==◌, if◌then◌else◌,
}

-- the enumerations of include/driver/uart.h, with their values
pub data UartBitsNum4Char : Type 0 where
  five_bits : UartBitsNum4Char
  six_bits : UartBitsNum4Char
  seven_bits : UartBitsNum4Char
  eight_bits : UartBitsNum4Char

abbrev pub bits_num : UartBitsNum4Char → ℕ
bits_num five_bits = 0
bits_num six_bits = 1
bits_num seven_bits = 2
bits_num eight_bits = 3

pub data UartStopBitsNum : Type 0 where
  one_stop_bit : UartStopBitsNum
  one_half_stop_bit : UartStopBitsNum
  two_stop_bit : UartStopBitsNum

abbrev pub stop_num : UartStopBitsNum → ℕ
stop_num one_stop_bit = 1
stop_num one_half_stop_bit = 2
stop_num two_stop_bit = 3

pub data UartParityMode : Type 0 where
  none_bits : UartParityMode
  odd_bits : UartParityMode
  even_bits : UartParityMode

abbrev pub parity_num : UartParityMode → ℕ
parity_num none_bits = 2
parity_num odd_bits = 1
parity_num even_bits = 0

pub data UartExistParity : Type 0 where
  stick_parity_dis : UartExistParity
  stick_parity_en : UartExistParity

abbrev pub exist_num : UartExistParity → ℕ
exist_num stick_parity_dis = 0
exist_num stick_parity_en = 1

pub data UartLineLevelInverse : Type 0 where
  none_inverse : UartLineLevelInverse
  rxd_inverse : UartLineLevelInverse
  cts_inverse : UartLineLevelInverse
  txd_inverse : UartLineLevelInverse
  rts_inverse : UartLineLevelInverse

abbrev pub inverse_num : UartLineLevelInverse → ℕ
inverse_num none_inverse = 0
inverse_num rxd_inverse = uart_rxd_inv
inverse_num cts_inverse = uart_cts_inv
inverse_num txd_inverse = uart_txd_inv
inverse_num rts_inverse = uart_rts_inv

pub data UartHwFlowCtrl : Type 0 where
  flow_none : UartHwFlowCtrl
  flow_rts : UartHwFlowCtrl
  flow_cts : UartHwFlowCtrl
  flow_cts_rts : UartHwFlowCtrl

abbrev pub flow_num : UartHwFlowCtrl → ℕ
flow_num flow_none = 0
flow_num flow_rts = 1
flow_num flow_cts = 2
flow_num flow_cts_rts = 3

-- The fields of `UartDevice` that are used; `trig_lvl` is that of its `rcv_buff`.
pub record UartDevice : Type 0 where
  pub baut_rate : ℕ
  pub data_bits : UartBitsNum4Char
  pub exist_parity : UartExistParity
  pub parity : UartParityMode
  pub stop_bits : UartStopBitsNum
  pub trig_lvl : ℕ

abbrev pub uart_rx_buffer_size : ℕ
uart_rx_buffer_size = 0

abbrev pub uart_line_inv_mask : ℕ
uart_line_inv_mask = 0x3f * 2 ^ 19

abbrev pub fifo_rst : ℕ
fifo_rst = bit_or uart_rxfifo_rst uart_txfifo_rst

-- the word that `uart_config` writes to UART_CONF0
abbrev pub conf0_word : UartDevice → ℕ
conf0_word dev =
    bit_or
      (bit_or
        (bit_or (bit_and (exist_num dev.exist_parity) uart_parity_en_m * 2 ^ uart_parity_en_s)
          (bit_and (parity_num dev.parity) uart_parity_m * 2 ^ uart_parity_s))
        (bit_and (stop_num dev.stop_bits) uart_stop_bit_num * 2 ^ uart_stop_bit_num_s))
      (bit_and (bits_num dev.data_bits) uart_bit_num * 2 ^ uart_bit_num_s)

-- and those to UART_CONF1, of UART0 and of UART1; flow control is not built in
abbrev pub conf1_word : ℕ
conf1_word =
    bit_or
      (bit_or
        (bit_or (bit_and 100 uart_rxfifo_full_thrhd * 2 ^ uart_rxfifo_full_thrhd_s)
          (bit_and 0x02 uart_rx_tout_thrhd * 2 ^ uart_rx_tout_thrhd_s))
        uart_rx_tout_en)
      (bit_and 0x10 uart_txfifo_empty_thrhd * 2 ^ uart_txfifo_empty_thrhd_s)

abbrev pub conf1_word_of_level : ℕ → ℕ
conf1_word_of_level trig_lvl =
    bit_and trig_lvl uart_rxfifo_full_thrhd * 2 ^ uart_rxfifo_full_thrhd_s

-- `p` is the chip's library.
module _ {S : Type 0} (p : Peripherals S) where
  unfoldable pub uart_set_word_length : ℕ → UartBitsNum4Char → S → S
  uart_set_word_length uart_no len s =
      p.set_bits s (uart_conf0 uart_no) uart_bit_num (bits_num len) uart_bit_num_s

  unfoldable pub uart_set_stop_bits : ℕ → UartStopBitsNum → S → S
  uart_set_stop_bits uart_no bit_num s =
      p.set_bits s (uart_conf0 uart_no) uart_stop_bit_num (stop_num bit_num) uart_stop_bit_num_s

  unfoldable pub uart_set_line_inverse : ℕ → UartLineLevelInverse → S → S
  uart_set_line_inverse uart_no inverse_mask s =
      let s = p.clear_mask s (uart_conf0 uart_no) uart_line_inv_mask in
      p.set_mask s (uart_conf0 uart_no) (inverse_num inverse_mask)

  unfoldable pub uart_set_parity : ℕ → UartParityMode → S → S
  uart_set_parity uart_no parity_mode s =
      let s = p.clear_mask s (uart_conf0 uart_no) (bit_or uart_parity uart_parity_en) in
      if parity_num parity_mode == parity_num none_bits
      then s
      else p.set_mask s (uart_conf0 uart_no) (bit_or (parity_num parity_mode) uart_parity_en)

  unfoldable pub uart_reset_fifo : ℕ → S → S
  uart_reset_fifo uart_no s =
      let s = p.set_mask s (uart_conf0 uart_no) fifo_rst in
      p.clear_mask s (uart_conf0 uart_no) fifo_rst

  unfoldable pub uart_clear_intr_status : ℕ → ℕ → S → S
  uart_clear_intr_status uart_no clr_mask s = p.write s (uart_int_clr uart_no) clr_mask

  unfoldable pub uart_set_intr_ena : ℕ → ℕ → S → S
  uart_set_intr_ena uart_no ena_mask s = p.set_mask s (uart_int_ena uart_no) ena_mask

  -- `clk` is UART_CLK_FREQ; a division by 0 gives 0 here.
  unfoldable pub uart_set_baudrate : ℕ → ℕ → ℕ → S → S
  uart_set_baudrate clk uart_no baud_rate s = p.call s (uart_div_modify uart_no (clk / baud_rate))

  -- the two halves of `UART_SetFlowCtrl`
  unfoldable pub set_rts_flow : ℕ → Bool → ℕ → S → S
  set_rts_flow uart_no true rx_thresh s =
      let s = p.call s (pin_func_select mux_mtdo func_u0rts) in
      let s = p.set_bits s (uart_conf1 uart_no) uart_rx_flow_thrhd rx_thresh uart_rx_flow_thrhd_s in
      p.set_mask s (uart_conf1 uart_no) uart_rx_flow_en
  set_rts_flow uart_no false rx_thresh s = p.clear_mask s (uart_conf1 uart_no) uart_rx_flow_en

  unfoldable pub set_cts_flow : ℕ → Bool → S → S
  set_cts_flow uart_no true s =
      let s = p.call s (pin_func_select mux_mtck func_uart0_cts) in
      p.set_mask s (uart_conf0 uart_no) uart_tx_flow_en
  set_cts_flow uart_no false s = p.clear_mask s (uart_conf0 uart_no) uart_tx_flow_en

  unfoldable pub uart_set_flow_ctrl : ℕ → UartHwFlowCtrl → ℕ → S → S
  unfolding set_rts_flow set_cts_flow
  uart_set_flow_ctrl uart_no flow_ctrl rx_thresh s =
      let s =
        set_rts_flow uart_no (not (bit_and (flow_num flow_ctrl) (flow_num flow_rts) == 0)) rx_thresh
          s in
      set_cts_flow uart_no (not (bit_and (flow_num flow_ctrl) (flow_num flow_cts) == 0)) s

  unfoldable pub uart_rx_intr_disable : S → S
  uart_rx_intr_disable s = p.call s ets_uart_intr_disable

  unfoldable pub uart_rx_intr_enable : S → S
  uart_rx_intr_enable s = p.call s ets_uart_intr_enable

  -- the parts of `uart_config`: the pins, the line, and the interrupts' thresholds
  unfoldable pub config_pins : ℕ → S → S
  config_pins uart_no s =
      if uart_no == 1
      then p.call s (pin_func_select mux_gpio2 func_u1txd_bk)
      else (let s = p.call s ets_uart_intr_attach in
          let s = p.call s (pin_pullup_dis mux_u0txd) in
          p.call s (pin_func_select mux_u0txd func_u0txd))

  unfoldable pub config_line : ℕ → UartDevice → ℕ → S → S
  config_line clk dev uart_no s =
      let s = p.call s (uart_div_modify uart_no (clk / dev.baut_rate)) in
      let s = p.write s (uart_conf0 uart_no) (conf0_word dev) in
      let s = p.set_mask s (uart_conf0 uart_no) fifo_rst in
      p.clear_mask s (uart_conf0 uart_no) fifo_rst

  unfoldable pub config_trigger : UartDevice → ℕ → S → S
  config_trigger dev uart_no s =
      if uart_no == 0
      then (let s = p.write s (uart_conf1 uart_no) conf1_word in
          p.set_mask s (uart_int_ena uart_no)
            (bit_or uart_rxfifo_tout_int_ena uart_frm_err_int_ena))
      else p.write s (uart_conf1 uart_no) (conf1_word_of_level dev.trig_lvl)

  unfoldable pub uart_config : ℕ → UartDevice → ℕ → S → S
  unfolding config_pins config_line config_trigger
  uart_config clk dev uart_no s =
      let s = config_trigger dev uart_no (config_line clk dev uart_no (config_pins uart_no s)) in
      let s = p.write s (uart_int_clr uart_no) 0xffff in
      p.set_mask s (uart_int_ena uart_no) (bit_or uart_rxfifo_full_int_ena uart_rxfifo_ovf_int_ena)

-- What `uart_init` leaves: the driver, `pRxBuffer`, UartDev, and the hardware.
pub record Opened (S : Type 0) : Type 0 where
  pub driver : Uart
  pub rx_buffer : Option UartBuffer
  pub dev : UartDevice
  pub hw : S

-- Where the code asks for memory: the free heap that the two calls of `Uart_Buf_Init` see, and
-- the blocks that os_malloc returns.
pub record Heap : Type 0 where
  pub for_tx : ℕ
  pub for_rx : ℕ
  pub storage : ℕ → List ℕ

module _ {S : Type 0} (p : Peripherals S) where
  unfoldable pub uart_init : ℕ → Heap → Uart → UartDevice → ℕ → S → Opened S
  unfolding uart_config
  uart_init clk heap u dev uart0_br s =
      let dev = record dev { baut_rate = uart0_br } in
      record {
        driver = record u {
          tx_buffer = uart_buf_init heap.for_tx heap.storage uart_tx_buffer_size;
          uart_int = true;
        };
        rx_buffer = uart_buf_init heap.for_rx heap.storage uart_rx_buffer_size;
        dev = dev;
        hw = p.call (uart_config p clk dev 0 s) ets_uart_intr_enable;
      }

  -- The test of the device's number assigns 2 to it. `none` is NULL.
  unfoldable pub sio_open : ℕ → Heap → Uart → UartDevice → ℕ → ℕ → S → Option (Opened S)
  unfolding uart_init
  sio_open clk heap u dev g_bit_rate devnum s =
      let devnum : ℕ = 2 in
      if not (devnum == 0) then some (uart_init clk heap u dev g_bit_rate s) else none
