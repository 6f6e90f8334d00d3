-- ===== src/Registers/Access.antt =====
-- The laws of the register writes, at the address that is written and elsewhere.
use esp_slip_router.Registers.{address, Conf, Peripherals, IsHolding}
use esp_slip_router.Registers.Bits.{test_bit, for_bits, for_bits-bit}
use esp_slip_router.Prelude.{
  ℕ, zero, suc, ◌*◌, ◌^◌, ◌<◌, Bool, true, false, ◌&&◌, ◌||◌, not, ◌≡◌, ◌==◌, refl, if◌then◌else◌,
  ==_iff,
}

pub same : (a : ℕ) → (a == a) ≡ true
same a = (==_iff a a).1 refl

-- A masked write: the bits of the mask are those of the value, and the others are kept.
merge : (x m v : Bool) → (v && not m) ≡ false → (x && not m || v) ≡ (if m then v else x)
merge true true v h = refl
merge true false true h = absurd cc
merge true false false h = refl
merge false true v h = refl
merge false false true h = absurd cc
merge false false false h = refl

-- No bit of `v` stands outside the mask `m`.
unfoldable pub inside : ℕ → ℕ → Bool
unfolding for_bits
inside m v = for_bits (λ b. not (test_bit v b && not (test_bit m b))) 32

unnot : (x : Bool) → not x ≡ true → x ≡ false
unnot true h = absurd cc
unnot false h = refl

pub inside_bit :
    (m v b : ℕ) → inside m v ≡ true → b < 32 → (test_bit v b && not (test_bit m b)) ≡ false
unfolding inside
inside_bit m v b h lt =
    unnot _ (for_bits-bit (λ b. not (test_bit v b && not (test_bit m b))) 32 b h lt)

pub outside : (v m : Bool) → (v && not m) ≡ false → m ≡ false → v ≡ false
outside true true h e = absurd cc
outside true false h e = absurd cc
outside false m h e = refl

pub cleared : (x m : Bool) → (x && not m) ≡ (if m then false else x)
cleared true true = refl
cleared true false = refl
cleared false true = refl
cleared false false = refl

pub test_bit-zero : (b : ℕ) → test_bit 0 b ≡ false
test_bit-zero zero = refl
test_bit-zero (suc b) = test_bit-zero b

kept : (x m : Bool) → ((x || m) && not m) ≡ (if m then false else x)
kept true true = refl
kept true false = refl
kept false true = refl
kept false false = refl

module _ {S : Type 0} (p : Peripherals S) (hold : IsHolding p) where
  pub bit-write_same :
      (s : S) (v : ℕ) (r : Conf) (n b : ℕ)
      → n < 2
      → b < 32
      → p.bit (p.write s (address r n) v) (address r n) b ≡ test_bit v b
  bit-write_same s v r n b hn hb =
      rw (hold.bit-write s (address r n) v r n b hn hb, same (address r n)) refl

  pub bit-set_mask_same :
      (s : S) (m : ℕ) (r : Conf) (n b : ℕ)
      → n < 2
      → b < 32
      → p.bit (p.set_mask s (address r n) m) (address r n) b
        ≡ (p.bit s (address r n) b || test_bit m b)
  bit-set_mask_same s m r n b hn hb =
      rw (hold.bit-set_mask s (address r n) m r n b hn hb, same (address r n)) refl

  pub bit-clear_mask_same :
      (s : S) (m : ℕ) (r : Conf) (n b : ℕ)
      → n < 2
      → b < 32
      → p.bit (p.clear_mask s (address r n) m) (address r n) b
        ≡ (p.bit s (address r n) b && not (test_bit m b))
  bit-clear_mask_same s m r n b hn hb =
      rw (hold.bit-clear_mask s (address r n) m r n b hn hb, same (address r n)) refl

  -- the field that SET_PERI_REG_BITS writes, if the value fits it
  pub bit-set_bits_same :
      (s : S) (m v k : ℕ) (r : Conf) (n b : ℕ)
      → inside (m * 2 ^ k) (v * 2 ^ k) ≡ true
      → n < 2
      → b < 32
      → p.bit (p.set_bits s (address r n) m v k) (address r n) b
        ≡ (if test_bit (m * 2 ^ k) b then test_bit (v * 2 ^ k) b else p.bit s (address r n) b)
  bit-set_bits_same s m v k r n b fits hn hb =
      rw (hold.bit-set_bits s (address r n) m v k r n b hn hb, same (address r n))
        (merge _ _ _ (inside_bit (m * 2 ^ k) (v * 2 ^ k) b fits hb))

  -- a field cleared, and a value set in it
  pub bit-clear-set :
      (s : S) (m v : ℕ) (r : Conf) (n b : ℕ)
      → inside m v ≡ true
      → n < 2
      → b < 32
      → p.bit (p.set_mask (p.clear_mask s (address r n) m) (address r n) v) (address r n) b
        ≡ (if test_bit m b then test_bit v b else p.bit s (address r n) b)
  bit-clear-set s m v r n b fits hn hb =
      rw
        (
          bit-set_mask_same (p.clear_mask s (address r n) m) v r n b hn hb,
          bit-clear_mask_same s m r n b hn hb,
        )
        (merge _ _ _ (inside_bit m v b fits hb))

  -- bits set, and cleared again
  pub bit-set-clear :
      (s : S) (m : ℕ) (r : Conf) (n b : ℕ)
      → n < 2
      → b < 32
      → p.bit (p.clear_mask (p.set_mask s (address r n) m) (address r n) m) (address r n) b
        ≡ (if test_bit m b then false else p.bit s (address r n) b)
  bit-set-clear s m r n b hn hb =
      rw
        (
          bit-clear_mask_same (p.set_mask s (address r n) m) m r n b hn hb,
          bit-set_mask_same s m r n b hn hb,
        )
        (kept (p.bit s (address r n) b) (test_bit m b))
