-- ===== src/Registers/Bits.antt =====
-- The bits of a word, and a check of all 32 of them.
use esp_slip_router.Prelude.{
  ℕ, zero, suc, ◌/◌, ◌%◌, ◌<◌, Bool, true, false, if◌then◌else◌, ◌==◌, ◌≡◌, arith,
}

abbrev pub test_bit : ℕ → ℕ → Bool
test_bit w zero = w % 2 == 1
test_bit w (suc b) = test_bit (w / 2) b

-- Whether `p` holds of the numbers from 0, up to the `width` of a word or another bound.
unfoldable pub for_bits : (ℕ → Bool) → ℕ → Bool
for_bits p zero = true
for_bits p (suc width) = let below = for_bits p width in if p width then below else false

pub for_bits-bit : (p : ℕ → Bool) (width b : ℕ) → for_bits p width ≡ true → b < width → p b ≡ true
unfolding for_bits
for_bits-bit p zero b tried in_word = absurd (omega arith)
for_bits-bit p (suc width) b tried in_word = ground (arith, for_bits-bit p width b)
