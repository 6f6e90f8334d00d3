-- ===== src/Setup/Config.antt =====
-- uart_config: the line format that it sets up.
use esp_slip_router.Setup.{
  UartDevice, UartBitsNum4Char, UartStopBitsNum, UartParityMode, UartExistParity, none_bits,
  odd_bits, even_bits, bits_num, stop_num, exist_num, parity_num, five_bits, six_bits, seven_bits,
  eight_bits, one_stop_bit, one_half_stop_bit, two_stop_bit, stick_parity_dis, stick_parity_en,
  conf0_word, fifo_rst,
}
use esp_slip_router.Setup.Format.{LineFormat, format_of}
use esp_slip_router.Registers.Access.{inside, inside_bit, outside}
use esp_slip_router.Registers.Bits.{test_bit, for_bits}
use esp_slip_router.Prelude.{
  eqb, eqb_sound, ℕ, ◌%◌, ◌<◌, Bool, true, false, ◌&&◌, ◌≡◌, refl, arith, if◌then◌else◌, ◌==◌,
  on_if,
}

-- the format that a device asks for
abbrev pub device_format : UartDevice → LineFormat
device_format dev = record {
  data_code = bits_num dev.data_bits;
  stop_code = stop_num dev.stop_bits;
  has_parity = exist_num dev.exist_parity == 1;
  is_odd = parity_num dev.parity % 2 == 1;
  inverted = 0;
}

-- Formats are compared, and all of the enumerations' values tried.
same_format : LineFormat → LineFormat → Bool
same_format f g =
    f.data_code == g.data_code
    && (f.stop_code == g.stop_code
        && (eqb f.has_parity g.has_parity && (eqb f.is_odd g.is_odd && f.inverted == g.inverted)))

same_format_sound : (f g : LineFormat) → same_format f g ≡ true → f ≡ g
unfolding same_format
same_format_sound f g h =
    ground (arith, eqb_sound f.has_parity g.has_parity, eqb_sound f.is_odd g.is_odd)

-- A test that holds of every value of an enumeration holds of each.
bits : (UartBitsNum4Char → Bool) → Bool
bits g = g five_bits && (g six_bits && (g seven_bits && g eight_bits))

bits_sound : (g : UartBitsNum4Char → Bool) → bits g ≡ true → (d : UartBitsNum4Char) → g d ≡ true
unfolding bits
bits_sound g h five_bits = ground arith
bits_sound g h six_bits = ground arith
bits_sound g h seven_bits = ground arith
bits_sound g h eight_bits = ground arith

stops : (UartStopBitsNum → Bool) → Bool
stops g = g one_stop_bit && (g one_half_stop_bit && g two_stop_bit)

stops_sound : (g : UartStopBitsNum → Bool) → stops g ≡ true → (t : UartStopBitsNum) → g t ≡ true
unfolding stops
stops_sound g h one_stop_bit = ground arith
stops_sound g h one_half_stop_bit = ground arith
stops_sound g h two_stop_bit = ground arith

modes : (UartParityMode → Bool) → Bool
modes g = g none_bits && (g odd_bits && g even_bits)

modes_sound : (g : UartParityMode → Bool) → modes g ≡ true → (m : UartParityMode) → g m ≡ true
unfolding modes
modes_sound g h none_bits = ground arith
modes_sound g h odd_bits = ground arith
modes_sound g h even_bits = ground arith

exists : (UartExistParity → Bool) → Bool
exists g = g stick_parity_dis && g stick_parity_en

exists_sound : (g : UartExistParity → Bool) → exists g ≡ true → (e : UartExistParity) → g e ≡ true
unfolding exists
exists_sound g h stick_parity_dis = ground arith
exists_sound g h stick_parity_en = ground arith

-- a device with these four fields; the others are not in the word
with_format : UartBitsNum4Char → UartStopBitsNum → UartParityMode → UartExistParity → UartDevice
with_format d t m e = record {
  baut_rate = 0;
  data_bits = d;
  exist_parity = e;
  parity = m;
  stop_bits = t;
  trig_lvl = 0;
}

word_format : UartDevice → LineFormat
word_format dev =
    format_of (λ b. if test_bit fifo_rst b then false else test_bit (conf0_word dev) b)

right_format : UartBitsNum4Char → UartStopBitsNum → UartParityMode → UartExistParity → Bool
unfolding with_format word_format same_format
right_format d t m e =
    let dev = with_format d t m e in same_format (word_format dev) (device_format dev)

-- no bit above the parity, the data bits and the stop bits
no_high_bit : UartBitsNum4Char → UartStopBitsNum → UartParityMode → UartExistParity → Bool
unfolding with_format inside
no_high_bit d t m e = inside 0x3f (conf0_word (with_format d t m e))

every : (UartBitsNum4Char → UartStopBitsNum → UartParityMode → UartExistParity → Bool) → Bool
unfolding bits stops modes exists
every f = bits (λ d. stops (λ t. modes (λ m. exists (f d t m))))

every_sound :
    (f : UartBitsNum4Char → UartStopBitsNum → UartParityMode → UartExistParity → Bool)
    → every f ≡ true
    → (d : UartBitsNum4Char) (t : UartStopBitsNum) (m : UartParityMode) (e : UartExistParity)
    → f d t m e ≡ true
unfolding every
every_sound f h d t m e =
    exists_sound (f d t m)
      (modes_sound (λ m. exists (f d t m))
        (stops_sound (λ t. modes (λ m. exists (f d t m)))
          (bits_sound (λ d. stops (λ t. modes (λ m. exists (f d t m)))) h d) t)
        m)
      e

formats_table : every right_format ≡ true
unfolding every bits stops modes exists right_format with_format word_format same_format
formats_table = refl

high_table : every no_high_bit ≡ true
unfolding every bits stops modes exists no_high_bit with_format inside for_bits
high_table = refl

pub format_of_word :
    (dev : UartDevice)
    → format_of (λ b. if test_bit fifo_rst b then false else test_bit (conf0_word dev) b)
      ≡ device_format dev
unfolding right_format word_format with_format
format_of_word dev =
    same_format_sound
      (word_format (with_format dev.data_bits dev.stop_bits dev.parity dev.exist_parity))
      (device_format dev)
      (every_sound right_format formats_table dev.data_bits dev.stop_bits dev.parity
        dev.exist_parity)

pub conf0_word-bit :
    (dev : UartDevice) (b : ℕ)
    → b < 32
    → test_bit 0x3f b ≡ false
    → (if test_bit fifo_rst b then false else test_bit (conf0_word dev) b) ≡ false
unfolding no_high_bit with_format
conf0_word-bit dev b hb out =
    on_if (λ x. x ≡ false) (test_bit fifo_rst b) refl
      (outside (test_bit (conf0_word dev) b) (test_bit 0x3f b)
        (inside_bit 0x3f (conf0_word dev) b
          (every_sound no_high_bit high_table dev.data_bits dev.stop_bits dev.parity
            dev.exist_parity)
          hb)
        out)
