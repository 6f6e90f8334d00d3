-- ===== src/Prelude/Blits.antt =====
-- A block of elements written into a list.
use Prim.Native.Nat.{ℕ, zero, suc, ◌+◌, ◌-◌, ◌≤◌, ◌<◌}
use mathlib.Core.Path.{◌≡◌, refl, sym, ap, ◌∙◌}
use mathlib.Core.List.{List, [], ◌∷◌, ◌++◌}
use native.Mathlib.Omega.{arith}
use esp_slip_router.Prelude.Lists.{
  length, set, take, drop, blit, length-set, append-drop, drop-drop, drop-length,
}

module _ {ℓ} {A : Type ℓ} where
  set_in_range :
      (xs : List A) (i : ℕ) (v : A) → i < length xs → set xs i v ≡ take i xs ++ v ∷ drop (i + 1) xs
  set_in_range [] i v h = absurd (omega arith)
  set_in_range (x ∷ xs) zero v h = refl
  set_in_range (x ∷ xs) (suc i) v h =
      let e : suc i + 1 ≡ suc (i + 1) = omega arith in
      rw e (ap (λ l. x ∷ l) (set_in_range xs i v (omega arith)))

  blit-cons :
      (x : A) (buf : List A) (at : ℕ) (xs : List A)
      → blit (x ∷ buf) (suc at) xs ≡ x ∷ blit buf at xs
  blit-cons x buf at [] = refl
  blit-cons x buf at (y ∷ ys) =
      let e : suc at + 1 ≡ suc (at + 1) = omega arith in
      rw e (blit-cons x (set buf at y) (at + 1) ys)

  pub blit_zero :
      (xs buf : List A) → length xs ≤ length buf → blit buf 0 xs ≡ xs ++ drop (length xs) buf
  blit_zero [] buf h = refl
  blit_zero (x ∷ xs) [] h = absurd (omega arith)
  blit_zero (x ∷ xs) (b ∷ buf) h =
      blit-cons x buf 0 xs ∙ ap (λ l. x ∷ l) (blit_zero xs buf (omega arith))

  -- where the block goes
  pub blit_in_range :
      (at : ℕ) (buf xs : List A)
      → at + length xs ≤ length buf
      → blit buf at xs ≡ take at buf ++ xs ++ drop (at + length xs) buf
  blit_in_range zero buf xs h =
      let e : 0 + length xs ≡ length xs = omega arith in rw e (blit_zero xs buf (omega arith))
  blit_in_range (suc at) [] xs h = absurd (omega arith)
  blit_in_range (suc at) (b ∷ buf) xs h =
      let e : suc at + length xs ≡ suc (at + length xs) = omega arith in
      rw e (blit-cons b buf at xs ∙ ap (λ l. b ∷ l) (blit_in_range at buf xs (omega arith)))

  -- from a place in the block or right after it on
  pub drop-blit :
      (at k : ℕ) (buf xs : List A)
      → at + length xs ≤ length buf
      → k ≤ length xs
      → drop (at + k) (blit buf at xs) ≡ drop k xs ++ drop (at + length xs) buf
  drop-blit zero k buf xs h r =
      let e : 0 + k ≡ k = omega arith in
      let e' : 0 + length xs ≡ length xs = omega arith in
      rw e (
        rw e' (
          ap (drop k) (blit_zero xs buf (omega arith)) ∙ append-drop k xs (drop (length xs) buf) r))
  drop-blit (suc at) k [] xs h r = absurd (omega arith)
  drop-blit (suc at) k (b ∷ buf) xs h r =
      let e : suc at + k ≡ suc (at + k) = omega arith in
      let e' : suc at + length xs ≡ suc (at + length xs) = omega arith in
      rw e (
        rw e' (
          ap (drop (suc (at + k))) (blit-cons b buf at xs) ∙ drop-blit at k buf xs (omega arith) r))

  -- after the block
  pub drop-blit_after :
      (at n : ℕ) (buf xs : List A)
      → at + length xs ≤ length buf
      → at + length xs ≤ n
      → drop n (blit buf at xs) ≡ drop n buf
  drop-blit_after at n buf xs h r =
      let k = n - (at + length xs) in
      let e : n ≡ at + length xs + k = omega arith in
      let e' : drop (length xs) xs ≡ [] = drop-length (length xs) xs refl in
      ap (λ i. drop i (blit buf at xs)) e
      ∙ sym (drop-drop k (at + length xs) (blit buf at xs))
      ∙ ap (drop k) (
          drop-blit at (length xs) buf xs h (omega arith)
          ∙ ap (λ l. l ++ drop (at + length xs) buf) e')
      ∙ drop-drop k (at + length xs) buf
      ∙ ap (λ i. drop i buf) (sym e)

  pub take-append : (xs ys : List A) (n : ℕ) → length xs ≡ n → take n (xs ++ ys) ≡ xs
  take-append [] ys zero h = refl
  take-append [] ys (suc n) h = absurd (omega arith)
  take-append (x ∷ xs) ys zero h = absurd (omega arith)
  take-append (x ∷ xs) ys (suc n) h = ap (λ l. x ∷ l) (take-append xs ys n (omega arith))

  -- past the first part
  pub drop-append : (xs ys : List A) (n k : ℕ) → length xs ≡ n → drop (n + k) (xs ++ ys) ≡ drop k ys
  drop-append [] ys n k h = ap (λ i. drop i ys) (omega arith)
  drop-append (x ∷ xs) ys zero k h = absurd (omega arith)
  drop-append (x ∷ xs) ys (suc n) k h =
      let e : suc n + k ≡ suc (n + k) = omega arith in rw e (drop-append xs ys n k (omega arith))

  set-append : (a b : List A) (at : ℕ) (x : A) → at < length a → set (a ++ b) at x ≡ set a at x ++ b
  set-append [] b at x h = absurd (omega arith)
  set-append (y ∷ a) b zero x h = refl
  set-append (y ∷ a) b (suc at) x h = ap (λ l. y ∷ l) (set-append a b at x (omega arith))

  pub blit-append :
      (xs a b : List A) (at : ℕ)
      → at + length xs ≤ length a
      → blit (a ++ b) at xs ≡ blit a at xs ++ b
  blit-append [] a b at h = refl
  blit-append (x ∷ xs) a b at h =
      ap (λ l. blit l (at + 1) xs) (set-append a b at x (omega arith))
      ∙ blit-append xs (set a at x) b (at + 1) (omega (arith, length-set a at x))
