-- ===== src/Softuart/Clock.antt =====
-- The loops of driver/softuart.c that wait for the clock between two bits. A reading is what
-- system_get_time answers; its top bit is masked off.
use esp_slip_router.Prelude.{
  ℕ, zero, suc, ◌+◌, ◌*◌, ◌%◌, ◌≤◌, ◌<◌, ◌≡◌, refl, ◌∙◌, true, false, Option, none, some, List, [],
  ◌∷◌, ◌++◌, ltb, if◌then◌else◌, arith,
}

abbrev pub masked : ℕ → ℕ
masked t = t % 2147483648

-- One loop, on the readings to come, of which it looks at one and, before the time, at another. `none` means
-- that it has not ended when they do.
unfoldable pub wait : ℕ → ℕ → List ℕ → Option (List ℕ)
wait start target [] = none
wait start target (t ∷ []) = if ltb (masked t) target then none else some []
wait start target (t ∷ u ∷ readings) =
    let again = wait start target readings in
    if ltb (masked t) target
    then (if ltb (masked u) start then some readings else again)
    else some (u ∷ readings)

-- The loops before the bits from `i` on, `n` of them.
unfoldable pub wait_bits : ℕ → ℕ → ℕ → ℕ → List ℕ → Option (List ℕ)
unfolding wait
wait_bits zero i start bit_time readings = some readings
wait_bits (suc n) i start bit_time readings =
    elim (wait start (start + bit_time * (i + 1)) readings) [
      | some later ↦ wait_bits n (i + 1) start bit_time later
      | none ↦ none
    ]

-- readings from the start on but before the target, in pairs
pub data Early (start target : ℕ) : List ℕ → Type 0 where
  no_more : Early start target []
  two_more :
      {t u : ℕ} {readings : List ℕ}
      → masked t < target
      → start ≤ masked u
      → Early start target readings
      → Early start target (t ∷ u ∷ readings)

-- While the clock does not overflow, the loop ends with the first look that finds the target reached, and not
-- before it.
pub wait_lem :
    {start target : ℕ} {early : List ℕ} (t : ℕ) (rest : List ℕ)
    → Early start target early
    → target ≤ masked t
    → wait start target (early ++ t ∷ rest) ≡ some rest
unfolding wait
wait_lem {target = target} t [] no_more h =
    let e : ltb (masked t) target ≡ false = ground arith in rw e refl
wait_lem {target = target} t (u ∷ rest) no_more h =
    let e : ltb (masked t) target ≡ false = ground arith in rw e refl
wait_lem {start = start} {target = target} t rest (two_more {t = a} {u = b} l l' early) h =
    let e : ltb (masked a) target ≡ true = ground arith in
    let e' : ltb (masked b) start ≡ false = ground arith in rw e (rw e' (wait_lem t rest early h))

-- two readings for each of `n` bits, of a clock that has overflowed since the start
pub data Overflowed (start : ℕ) : ℕ → List ℕ → Type 0 where
  no_bits : Overflowed start 0 []
  one_bit :
      {n t u : ℕ} {readings : List ℕ}
      → masked t < start
      → masked u < start
      → Overflowed start n readings
      → Overflowed start (suc n) (t ∷ u ∷ readings)

wait-over :
    (start bit_time i t u : ℕ) (rest : List ℕ)
    → masked t < start
    → masked u < start
    → wait start (start + bit_time * (i + 1)) (t ∷ u ∷ rest) ≡ some rest
unfolding wait
wait-over start bit_time i t u rest h h' =
    let e : ltb (masked t) (start + bit_time * (i + 1)) ≡ true = ground arith in
    let e' : ltb (masked u) start ≡ true = ground arith in rw e (rw e' refl)

next_bits :
    (n i start bit_time : ℕ) (readings : List ℕ) {later : List ℕ}
    → wait start (start + bit_time * (i + 1)) readings ≡ some later
    → wait_bits (suc n) i start bit_time readings ≡ wait_bits n (i + 1) start bit_time later
unfolding wait_bits
next_bits n i start bit_time readings e = rw (e, wait_bits) refl

-- Once the clock has overflowed in a frame, none of the bits left is waited for: each loop ends after two
-- readings, whatever the bit time.
pub wait_bits_lem :
    (n i start bit_time : ℕ) {readings : List ℕ} (rest : List ℕ)
    → Overflowed start n readings
    → wait_bits n i start bit_time (readings ++ rest) ≡ some rest
unfolding wait_bits
wait_bits_lem zero i start bit_time rest no_bits = refl
wait_bits_lem (suc n) i start bit_time rest (one_bit {t = t} {u = u} {readings = r} h h' o) =
    next_bits n i start bit_time (t ∷ u ∷ (r ++ rest))
      (wait-over start bit_time i t u (r ++ rest) h h')
    ∙ wait_bits_lem n (i + 1) start bit_time rest o
