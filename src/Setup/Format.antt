-- ===== src/Setup/Format.antt =====
-- The line format of a UART: what the functions that set it do to UART_CONF0, and what the register
-- then says.
use esp_slip_router.Setup.{
  UartBitsNum4Char, UartStopBitsNum, UartLineLevelInverse, UartParityMode, none_bits, odd_bits,
  even_bits, bits_num, stop_num, inverse_num, uart_set_word_length, uart_set_stop_bits,
  uart_set_line_inverse, uart_set_parity, uart_line_inv_mask, five_bits, six_bits, seven_bits,
  eight_bits, one_stop_bit, one_half_stop_bit, two_stop_bit, none_inverse, rxd_inverse, cts_inverse,
  txd_inverse, rts_inverse,
}
use esp_slip_router.Registers.{Peripherals, IsHolding, uart_conf0, conf0}
use esp_slip_router.Registers.Access.{
  inside, inside_bit, outside, bit-set_bits_same, bit-clear-set, bit-clear_mask_same, cleared,
  test_bit-zero,
}
use esp_slip_router.Registers.Bits.{test_bit, for_bits}
use esp_slip_router.Prelude.{
  ℕ, ◌*◌, ◌+◌, ◌/◌, ◌^◌, ◌<◌, Bool, true, false, ◌≡◌, refl, sym, ◌∙◌, arith, if◌then◌else◌, List,
  [], ◌∷◌,
}

-- one call of a function that sets the format
pub data Setting : Type 0 where
  word_length : UartBitsNum4Char → Setting
  stop_bits : UartStopBitsNum → Setting
  line_inverse : UartLineLevelInverse → Setting
  parity : UartParityMode → Setting

-- The format as numbers: the codes of the data bits and of the stop bits, whether there is a parity
-- and whether it is odd, and which lines are inverted, a bit for each.
pub record LineFormat : Type 0 where
  pub data_code : ℕ
  pub stop_code : ℕ
  pub has_parity : Bool
  pub is_odd : Bool
  pub inverted : ℕ

-- what a setting means for the format
abbrev pub set_format : LineFormat → Setting → LineFormat
set_format f (word_length len) = record f { data_code = bits_num len }
set_format f (stop_bits num) = record f { stop_code = stop_num num }
set_format f (line_inverse inv) = record f { inverted = inverse_num inv / 2 ^ 19 }
set_format f (parity none_bits) = record f { has_parity = false; is_odd = false }
set_format f (parity odd_bits) = record f { has_parity = true; is_odd = true }
set_format f (parity even_bits) = record f { has_parity = true; is_odd = false }

unfoldable pub set_formats : LineFormat → List Setting → LineFormat
set_formats f [] = f
set_formats f (x ∷ xs) = set_formats (set_format f x) xs

abbrev one : Bool → ℕ
one true = 1
one false = 0

-- the format that the bits of UART_CONF0 say
abbrev pub format_of : (ℕ → Bool) → LineFormat
format_of w = record {
  data_code = one (w 2) + 2 * one (w 3);
  stop_code = one (w 4) + 2 * one (w 5);
  has_parity = w 1;
  is_odd = w 0;
  inverted =
      one (w 19)
      + 2 * one (w 20)
      + 4 * one (w 21)
      + 8 * one (w 22)
      + 16 * one (w 23)
      + 32 * one (w 24);
}

pub format_of_bits : (v w : ℕ → Bool) → ((b : ℕ) → b < 32 → v b ≡ w b) → format_of v ≡ format_of w
format_of_bits v w h =
    rw
      (
        h 0 (omega arith),
        h 1 (omega arith),
        h 2 (omega arith),
        h 3 (omega arith),
        h 4 (omega arith),
        h 5 (omega arith),
        h 19 (omega arith),
        h 20 (omega arith),
        h 21 (omega arith),
        h 22 (omega arith),
        h 23 (omega arith),
        h 24 (omega arith),
      )
      refl

-- the bits that a setting writes, and what it writes there
abbrev pub written : Setting → ℕ
written (word_length len) = 3 * 2 ^ 2
written (stop_bits num) = 3 * 2 ^ 4
written (line_inverse inv) = uart_line_inv_mask
written (parity mode) = 3

abbrev pub value : Setting → ℕ
value (word_length len) = bits_num len * 2 ^ 2
value (stop_bits num) = stop_num num * 2 ^ 4
value (line_inverse inv) = inverse_num inv
value (parity none_bits) = 0
value (parity odd_bits) = 3
value (parity even_bits) = 2

value-inside : (x : Setting) → inside (written x) (value x) ≡ true
unfolding inside for_bits
value-inside (word_length five_bits) = refl
value-inside (word_length six_bits) = refl
value-inside (word_length seven_bits) = refl
value-inside (word_length eight_bits) = refl
value-inside (stop_bits one_stop_bit) = refl
value-inside (stop_bits one_half_stop_bit) = refl
value-inside (stop_bits two_stop_bit) = refl
value-inside (line_inverse none_inverse) = refl
value-inside (line_inverse rxd_inverse) = refl
value-inside (line_inverse cts_inverse) = refl
value-inside (line_inverse txd_inverse) = refl
value-inside (line_inverse rts_inverse) = refl
value-inside (parity none_bits) = refl
value-inside (parity odd_bits) = refl
value-inside (parity even_bits) = refl

-- `w` after the setting, as the format sees it
format_of_set :
    (w : ℕ → Bool) (x : Setting)
    → format_of (λ b. if test_bit (written x) b then test_bit (value x) b else w b)
      ≡ set_format (format_of w) x
format_of_set w (word_length five_bits) = refl
format_of_set w (word_length six_bits) = refl
format_of_set w (word_length seven_bits) = refl
format_of_set w (word_length eight_bits) = refl
format_of_set w (stop_bits one_stop_bit) = refl
format_of_set w (stop_bits one_half_stop_bit) = refl
format_of_set w (stop_bits two_stop_bit) = refl
format_of_set w (line_inverse none_inverse) = refl
format_of_set w (line_inverse rxd_inverse) = refl
format_of_set w (line_inverse cts_inverse) = refl
format_of_set w (line_inverse txd_inverse) = refl
format_of_set w (line_inverse rts_inverse) = refl
format_of_set w (parity none_bits) = refl
format_of_set w (parity odd_bits) = refl
format_of_set w (parity even_bits) = refl

-- the bits of the format: 0 to 5 and 19 to 24
abbrev pub format_mask : ℕ
format_mask = 0x1f8003f

written-inside : (x : Setting) → inside format_mask (written x) ≡ true
unfolding inside for_bits
written-inside (word_length len) = refl
written-inside (stop_bits num) = refl
written-inside (line_inverse inv) = refl
written-inside (parity mode) = refl

pub unwritten :
    (x : Setting) (b : ℕ) (v w : Bool)
    → b < 32
    → test_bit format_mask b ≡ false
    → (if test_bit (written x) b then v else w) ≡ w
unwritten x b v w hb out =
    rw (outside _ _ (inside_bit format_mask (written x) b (written-inside x) hb) out) refl

module _ {S : Type 0} (p : Peripherals S) where
  unfoldable pub apply : ℕ → Setting → S → S
  unfolding uart_set_word_length uart_set_stop_bits uart_set_line_inverse uart_set_parity
  apply n (word_length len) s = uart_set_word_length p n len s
  apply n (stop_bits num) s = uart_set_stop_bits p n num s
  apply n (line_inverse inv) s = uart_set_line_inverse p n inv s
  apply n (parity mode) s = uart_set_parity p n mode s

  unfoldable pub apply_all : ℕ → List Setting → S → S
  apply_all n [] s = s
  apply_all n (x ∷ xs) s = apply_all n xs (apply n x s)

  -- the format that the register of a UART holds
  abbrev pub format : ℕ → S → LineFormat
  format n s = format_of (λ b. p.bit s (uart_conf0 n) b)

module _ {S : Type 0} (p : Peripherals S) (hold : IsHolding p) where
  -- each setting writes its bits and keeps the others
  pub apply-bit :
      (n : ℕ) (x : Setting) (s : S) (b : ℕ)
      → n < 2
      → b < 32
      → p.bit (apply p n x s) (uart_conf0 n) b
        ≡ (if test_bit (written x) b then test_bit (value x) b else p.bit s (uart_conf0 n) b)
  unfolding apply uart_set_word_length uart_set_stop_bits uart_set_line_inverse uart_set_parity
  apply-bit n (word_length len) s b hn hb =
      bit-set_bits_same p hold s 3 (bits_num len) 2 conf0 n b (value-inside (word_length len)) hn hb
  apply-bit n (stop_bits num) s b hn hb =
      bit-set_bits_same p hold s 3 (stop_num num) 4 conf0 n b (value-inside (stop_bits num)) hn hb
  apply-bit n (line_inverse inv) s b hn hb =
      bit-clear-set p hold s uart_line_inv_mask (inverse_num inv) conf0 n b
        (value-inside (line_inverse inv)) hn hb
  apply-bit n (parity none_bits) s b hn hb =
      rw (test_bit-zero b) (bit-clear_mask_same p hold s 3 conf0 n b hn hb ∙ cleared _ _)
  apply-bit n (parity odd_bits) s b hn hb =
      bit-clear-set p hold s 3 3 conf0 n b (value-inside (parity odd_bits)) hn hb
  apply-bit n (parity even_bits) s b hn hb =
      bit-clear-set p hold s 3 2 conf0 n b (value-inside (parity even_bits)) hn hb

  format-apply :
      (n : ℕ) (x : Setting) (s : S)
      → n < 2
      → format p n (apply p n x s) ≡ set_format (format p n s) x
  format-apply n x s hn =
      format_of_bits _ _ (λ b hb. apply-bit n x s b hn hb)
      ∙ format_of_set (λ b. p.bit s (uart_conf0 n) b) x

  pub format-apply_all :
      (n : ℕ) (xs : List Setting) (s : S)
      → n < 2
      → format p n (apply_all p n xs s) ≡ set_formats (format p n s) xs
  unfolding apply_all set_formats
  format-apply_all n [] s hn = refl
  format-apply_all n (x ∷ xs) s hn =
      rw (sym (format-apply n x s hn)) (format-apply_all n xs (apply p n x s) hn)
