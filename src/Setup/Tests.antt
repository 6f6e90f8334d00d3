-- ===== src/Setup/Tests.antt =====
-- The properties of Setup at concrete inputs, on a memory of bits.
use esp_slip_router.Setup.{
  UartDevice, Opened, Heap, uart_config, uart_set_flow_ctrl, sio_open, five_bits, eight_bits,
  odd_bits, one_stop_bit, two_stop_bit, stick_parity_en, txd_inverse, flow_cts_rts,
}
use esp_slip_router.Setup.Format.{
  word_length, stop_bits, line_inverse, parity, apply_all, format, format-apply_all, set_formats,
  format_mask, Setting,
}
use esp_slip_router.Setup.Config.{device_format}
use esp_slip_router.Setup.Frame.{uart_config-format, uart_config-Kept, apply_all_frame}
use esp_slip_router.Setup.Flow.{uart_set_flow_ctrl_lem, flow_conf1}
use esp_slip_router.Setup.Open.{sio_open-Ready, Ready}
use esp_slip_router.Setup.Rate.{IsRated, divisor_after}
use esp_slip_router.Registers.{
  Conf, conf1, int_ena, Peripherals, IsHolding, uart_conf0, uart_conf1, uart_tx_flow_en,
}
use esp_slip_router.Registers.Bits.{test_bit}
use esp_slip_router.Registers.Kept.{Kept}
use esp_slip_router.Uart.{Uart}
use esp_slip_router.Prelude.{
  ℕ, ◌*◌, ◌^◌, ◌<◌, Bool, true, false, ◌&&◌, ◌||◌, not, none, some, List, [], ◌∷◌, ◌≡◌, ◌≢◌, ◌==◌,
  refl, arith, if◌then◌else◌, replicate, length-replicate,
}

abbrev Memory : Type 0
Memory = ℕ → ℕ → Bool

abbrev change : Memory → ℕ → (Bool → ℕ → Bool) → Memory
change s a f x b = if a == x then f (s x b) b else s x b

abbrev board : Peripherals Memory
board = record {
  bit = λ s a b. s a b;
  write = λ s a v. change s a (λ old b. test_bit v b);
  set_mask = λ s a m. change s a (λ old b. old || test_bit m b);
  clear_mask = λ s a m. change s a (λ old b. old && not (test_bit m b));
  set_bits = λ s a m v k.
      change s a (λ old b. old && not (test_bit (m * 2 ^ k) b) || test_bit (v * 2 ^ k) b);
  call = λ s c. s;
}

holding : IsHolding board
holding = record {
  bit-write = λ s a v r n b hn hb. refl;
  bit-set_mask = λ s a m r n b hn hb. refl;
  bit-clear_mask = λ s a m r n b hn hb. refl;
  bit-set_bits = λ s a m v k r n b hn hb. refl;
  bit-call = λ s c r n b hn hb. refl;
}

abbrev blank : Memory
blank a b = false

abbrev terminal : UartDevice
terminal = record {
  baut_rate = 9600;
  data_bits = eight_bits;
  exist_parity = stick_parity_en;
  parity = odd_bits;
  stop_bits = two_stop_bit;
  trig_lvl = 1;
}

abbrev changes : List Setting
changes =
    word_length five_bits ∷ parity odd_bits ∷ line_inverse txd_inverse ∷ stop_bits one_stop_bit ∷ []

abbrev heap : Heap
heap = record { for_tx = 40000; for_rx = 30000; storage = λ n. replicate n 0 }

abbrev driver : Uart
driver = record {
  tx_buffer = none;
  sent = [];
  rx_fifo = [];
  tx_empty_int = false;
  uart_int = false;
  signals = 0;
}

format-apply_all_example :
    format board 0 (apply_all board 0 changes blank) ≡ set_formats (format board 0 blank) changes
format-apply_all_example = format-apply_all board holding 0 changes blank (omega arith)

uart_config-format_example :
    (format board 0 (uart_config board 80000000 terminal 0 blank) ≡ device_format terminal)
    × ((b : ℕ)
        → b < 32
        → test_bit 0x3f b ≡ false
        → board.bit (uart_config board 80000000 terminal 0 blank) (uart_conf0 0) b ≡ false)
uart_config-format_example =
    uart_config-format board holding 80000000 terminal 0 blank (omega arith)

uart_config-Kept_example : Kept board int_ena 0 blank (uart_config board 80000000 terminal 1 blank)
uart_config-Kept_example =
    uart_config-Kept board holding 80000000 terminal int_ena 1 0 blank (omega arith)
      (λ e. omega arith)

apply_all_frame_example :
    ((r : Conf) (m : ℕ) → m < 2 → 0 ≢ m → Kept board r m blank (apply_all board 0 changes blank))
    × Kept board conf1 0 blank (apply_all board 0 changes blank)
    × Kept board int_ena 0 blank (apply_all board 0 changes blank)
    × ((b : ℕ)
        → b < 32
        → test_bit format_mask b ≡ false
        → board.bit (apply_all board 0 changes blank) (uart_conf0 0) b ≡ false)
apply_all_frame_example = apply_all_frame board holding 0 changes blank (omega arith)

uart_set_flow_ctrl_lem_example :
    ((b : ℕ)
      → b < 32
      → board.bit (uart_set_flow_ctrl board 0 flow_cts_rts 200 blank) (uart_conf1 0) b
        ≡ flow_conf1 true 200 b false)
    × ((b : ℕ)
        → b < 32
        → board.bit (uart_set_flow_ctrl board 0 flow_cts_rts 200 blank) (uart_conf0 0) b
          ≡ (if test_bit uart_tx_flow_en b then true else false))
uart_set_flow_ctrl_lem_example =
    uart_set_flow_ctrl_lem board holding 0 flow_cts_rts 200 blank (omega arith) (omega arith)

-- the memory, and the divisors of both ports
abbrev clocked : Peripherals (Memory × (ℕ → ℕ))
clocked = record {
  bit = λ s. board.bit s.0;
  write = λ s a v. (board.write s.0 a v, s.1);
  set_mask = λ s a m. (board.set_mask s.0 a m, s.1);
  clear_mask = λ s a m. (board.clear_mask s.0 a m, s.1);
  set_bits = λ s a m v k. (board.set_bits s.0 a m v k, s.1);
  call = λ s c. (s.0, λ n. divisor_after c n (s.1 n));
}

clocked-IsHolding : IsHolding clocked
clocked-IsHolding = record {
  bit-write = λ s a v r n b hn hb. refl;
  bit-set_mask = λ s a m r n b hn hb. refl;
  bit-clear_mask = λ s a m r n b hn hb. refl;
  bit-set_bits = λ s a m v k r n b hn hb. refl;
  bit-call = λ s c r n b hn hb. refl;
}

clocked-IsRated : IsRated clocked (λ s. s.1)
clocked-IsRated = record {
  divisor-call = λ s c n. refl;
  divisor-write = λ s a v n h. refl;
  divisor-set_mask = λ s a m n h. refl;
  divisor-clear_mask = λ s a m n h. refl;
}

sio_open-Ready_example :
    (o : Opened (Memory × (ℕ → ℕ))) × (sio_open clocked 80000000 heap driver terminal 115200 7
        (blank, λ n. 0)
      ≡ some o)
    × Ready clocked (λ s. s.1) driver terminal 80000000 115200 o
sio_open-Ready_example =
    sio_open-Ready clocked clocked-IsHolding clocked-IsRated 80000000 heap driver terminal 115200 7
      (blank, λ n. 0) (omega arith) (omega arith) (omega arith) (length-replicate {A = ℕ} 4096 0)
