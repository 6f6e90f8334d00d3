-- ===== src/Registers.antt =====
-- include/driver/uart_register.h: where the registers of a UART are and what their bits mean; and
-- what driver/uart.c uses of the chip's own library to write them.
pub mod Bits
pub mod Access
pub mod Kept
use esp_slip_router.Registers.Bits.{test_bit}
use esp_slip_router.Prelude.{ℕ, ◌+◌, ◌*◌, ◌^◌, ◌<◌, Bool, ◌&&◌, ◌||◌, not, ◌==◌, if◌then◌else◌, ◌≡◌}

-- UART0 and UART1
abbrev pub reg_uart_base : ℕ → ℕ
reg_uart_base i = 0x60000000 + i * 0xf00

abbrev pub uart_int_ena : ℕ → ℕ
uart_int_ena i = reg_uart_base i + 0xc

abbrev pub uart_int_clr : ℕ → ℕ
uart_int_clr i = reg_uart_base i + 0x10

abbrev pub uart_conf0 : ℕ → ℕ
uart_conf0 i = reg_uart_base i + 0x20

abbrev pub uart_conf1 : ℕ → ℕ
uart_conf1 i = reg_uart_base i + 0x24

-- UART_INT_ENA: a bit for each interrupt
abbrev pub uart_rxfifo_tout_int_ena : ℕ
uart_rxfifo_tout_int_ena = 2 ^ 8

abbrev pub uart_rxfifo_ovf_int_ena : ℕ
uart_rxfifo_ovf_int_ena = 2 ^ 4

abbrev pub uart_frm_err_int_ena : ℕ
uart_frm_err_int_ena = 2 ^ 3

abbrev pub uart_rxfifo_full_int_ena : ℕ
uart_rxfifo_full_int_ena = 2 ^ 0

-- UART_CONF0: bits, and fields with their shift
abbrev pub uart_rts_inv : ℕ
uart_rts_inv = 2 ^ 23

abbrev pub uart_txd_inv : ℕ
uart_txd_inv = 2 ^ 22

abbrev pub uart_cts_inv : ℕ
uart_cts_inv = 2 ^ 20

abbrev pub uart_rxd_inv : ℕ
uart_rxd_inv = 2 ^ 19

abbrev pub uart_txfifo_rst : ℕ
uart_txfifo_rst = 2 ^ 18

abbrev pub uart_rxfifo_rst : ℕ
uart_rxfifo_rst = 2 ^ 17

abbrev pub uart_tx_flow_en : ℕ
uart_tx_flow_en = 2 ^ 15

abbrev pub uart_stop_bit_num : ℕ
uart_stop_bit_num = 3

abbrev pub uart_stop_bit_num_s : ℕ
uart_stop_bit_num_s = 4

abbrev pub uart_bit_num : ℕ
uart_bit_num = 3

abbrev pub uart_bit_num_s : ℕ
uart_bit_num_s = 2

abbrev pub uart_parity_en : ℕ
uart_parity_en = 2 ^ 1

abbrev pub uart_parity_en_m : ℕ
uart_parity_en_m = 1

abbrev pub uart_parity_en_s : ℕ
uart_parity_en_s = 1

abbrev pub uart_parity : ℕ
uart_parity = 2 ^ 0

abbrev pub uart_parity_m : ℕ
uart_parity_m = 1

abbrev pub uart_parity_s : ℕ
uart_parity_s = 0

-- UART_CONF1
abbrev pub uart_rx_tout_en : ℕ
uart_rx_tout_en = 2 ^ 31

abbrev pub uart_rx_tout_thrhd : ℕ
uart_rx_tout_thrhd = 0x7f

abbrev pub uart_rx_tout_thrhd_s : ℕ
uart_rx_tout_thrhd_s = 24

abbrev pub uart_rx_flow_en : ℕ
uart_rx_flow_en = 2 ^ 23

abbrev pub uart_rx_flow_thrhd : ℕ
uart_rx_flow_thrhd = 0x7f

abbrev pub uart_rx_flow_thrhd_s : ℕ
uart_rx_flow_thrhd_s = 16

abbrev pub uart_txfifo_empty_thrhd : ℕ
uart_txfifo_empty_thrhd = 0x7f

abbrev pub uart_txfifo_empty_thrhd_s : ℕ
uart_txfifo_empty_thrhd_s = 8

abbrev pub uart_rxfifo_full_thrhd : ℕ
uart_rxfifo_full_thrhd = 0x7f

abbrev pub uart_rxfifo_full_thrhd_s : ℕ
uart_rxfifo_full_thrhd_s = 0

-- The pins that driver/uart.c gives a function, and the functions.
pub data MuxPin : Type 0 where
  mux_gpio2 : MuxPin
  mux_u0txd : MuxPin
  mux_mtdo : MuxPin
  mux_mtck : MuxPin

pub data PinFunc : Type 0 where
  func_u1txd_bk : PinFunc
  func_u0txd : PinFunc
  func_u0rts : PinFunc
  func_uart0_cts : PinFunc

-- The calls of the chip's library that do not name a register.
pub data Call : Type 0 where
  pin_func_select : MuxPin → PinFunc → Call
  pin_pullup_dis : MuxPin → Call
  ets_uart_intr_attach : Call
  ets_uart_intr_enable : Call
  ets_uart_intr_disable : Call
  uart_div_modify : ℕ → ℕ → Call

-- The chip's library, which is not in the repository, on a state `S` of the hardware: `bit s a b` is
-- bit `b` of what the register at `a` holds, the others are WRITE_PERI_REG, SET_PERI_REG_MASK,
-- CLEAR_PERI_REG_MASK and SET_PERI_REG_BITS (address, mask of the field, value, shift), and a call.
pub record Peripherals (S : Type 0) : Type 0 where
  pub bit : S → ℕ → ℕ → Bool
  pub write : S → ℕ → ℕ → S
  pub set_mask : S → ℕ → ℕ → S
  pub clear_mask : S → ℕ → ℕ → S
  pub set_bits : S → ℕ → ℕ → ℕ → ℕ → S
  pub call : S → Call → S

-- The registers of a UART that hold what is written to them.
pub data Conf : Type 0 where
  conf0 : Conf
  conf1 : Conf
  int_ena : Conf

abbrev pub address : Conf → ℕ → ℕ
address conf0 n = uart_conf0 n
address conf1 n = uart_conf1 n
address int_ena n = uart_int_ena n

-- What the chip's library says of them: each macro changes the bits of its mask at its address, and
-- nothing else changes a bit of these registers. SET_PERI_REG_BITS clears the field's bits and then
-- sets those of the shifted value, which it does not cut to the field.
pub record IsHolding {S : Type 0} (p : Peripherals S) : Type 0 where
  pub bit-write :
      (s : S) (a v : ℕ) (r : Conf) (n b : ℕ)
      → n < 2
      → b < 32
      → p.bit (p.write s a v) (address r n) b
        ≡ (if a == address r n then test_bit v b else p.bit s (address r n) b)
  pub bit-set_mask :
      (s : S) (a m : ℕ) (r : Conf) (n b : ℕ)
      → n < 2
      → b < 32
      → p.bit (p.set_mask s a m) (address r n) b ≡ (
          if a == address r n
          then p.bit s (address r n) b || test_bit m b
          else p.bit s (address r n) b)
  pub bit-clear_mask :
      (s : S) (a m : ℕ) (r : Conf) (n b : ℕ)
      → n < 2
      → b < 32
      → p.bit (p.clear_mask s a m) (address r n) b ≡ (
          if a == address r n
          then p.bit s (address r n) b && not (test_bit m b)
          else p.bit s (address r n) b)
  pub bit-set_bits :
      (s : S) (a m v k : ℕ) (r : Conf) (n b : ℕ)
      → n < 2
      → b < 32
      → p.bit (p.set_bits s a m v k) (address r n) b ≡ (
          if a == address r n
          then p.bit s (address r n) b && not (test_bit (m * 2 ^ k) b) || test_bit (v * 2 ^ k) b
          else p.bit s (address r n) b)
  pub bit-call :
      (s : S) (c : Call) (r : Conf) (n b : ℕ)
      → n < 2
      → b < 32
      → p.bit (p.call s c) (address r n) b ≡ p.bit s (address r n) b
