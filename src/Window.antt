-- ===== src/Window.antt =====
-- What stands in the storage of a ring (user/ringbuf.c, driver/uart.c, driver/softuart.c), read
-- round from a given place.
use esp_slip_router.Prelude.{
  if◌then◌else◌, ◌==◌, blit, append-nil, append_assoc, length-set, ℕ, zero, suc, ◌+◌, ◌-◌, ◌%◌, ◌≤◌,
  ◌<◌, ◌≡◌, refl, sym, ap, ap₂, ◌∙◌, ◌≢◌, List, [], ◌∷◌, ◌++◌, arith, length, take, drop,
  take-append-drop, set, get_or, get_or-set_self, get_or-set_ne, mod-add-mod, mod-eq_of_lt,
  mod-eq-sub-mod, add-zero, drop-eq-cons, dec_lt,
}

module _ (buf : List ℕ) (size : ℕ) where
  -- the `n` bytes from offset `at` on, going round at `size`
  abbrev pub window : ℕ → ℕ → List ℕ
  window at zero = []
  window at (suc n) = get_or buf at 0 ∷ window ((at + 1) % size) n

  pub length-window : (at n : ℕ) → length (window at n) ≡ n
  length-window at zero = refl
  length-window at (suc n) = ap suc (length-window ((at + 1) % size) n)

  pub drop-window :
      (k at n m : ℕ) → at < size → n ≡ k + m → drop k (window at n) ≡ window ((at + k) % size) m
  drop-window zero at n m h e = let e' : n ≡ m = omega arith in rw (e', add-zero, mod-eq_of_lt h)
  drop-window (suc k) at zero m h e = absurd (omega arith)
  drop-window (suc k) at (suc n) m h e =
      drop-window k ((at + 1) % size) n m (omega arith) (omega arith)
      ∙ ap (λ i. window i m) (mod-add-mod (at + 1) size k ∙ ap (λ i. i % size) (omega arith))

  pub take-window : (k at n m : ℕ) → n ≡ k + m → take k (window at n) ≡ window at k
  take-window zero at n m e = refl
  take-window (suc k) at zero m e = absurd (omega arith)
  take-window (suc k) at (suc n) m e =
      ap (λ l. get_or buf at 0 ∷ l) (take-window k ((at + 1) % size) n m (omega arith))

  pub window-append :
      (k at m : ℕ) → at < size → window at (k + m) ≡ window at k ++ window ((at + k) % size) m
  window-append k at m h =
      sym (take-append-drop k (window at (k + m)))
      ∙ ap₂ ◌++◌ (take-window k at (k + m) m refl) (drop-window k at (k + m) m h refl)

  -- Short of the end, the window is a piece of the storage.
  pub window-eq-take :
      (n at : ℕ) → size ≡ length buf → at + n ≤ size → window at n ≡ take n (drop at buf)
  window-eq-take zero at e h = refl
  window-eq-take (suc zero) at e h = rw (drop-eq-cons at buf 0 (omega arith))
  window-eq-take (suc (suc n)) at e h =
      rw (drop-eq-cons at buf 0 (omega arith), mod-eq_of_lt {n = at + 1} {m = size} (omega arith))
        (ap (λ l. get_or buf at 0 ∷ l) (window-eq-take (suc n) (at + 1) e (omega arith)))

-- Fewer than `size` steps round do not come back to the start.
step_ne : (size at k : ℕ) → at < size → suc k < size → (at + suc k) % size ≢ at
step_ne size at k h hk = elim (dec_lt (at + suc k) size) [
  | yes p ↦ omega (arith, mod-eq_of_lt p)
  | no p ↦ omega (
    arith,
    mod-eq-sub-mod {n = at + suc k} {m = size} (omega arith),
    mod-eq_of_lt {n = at + suc k - size} {m = size} (omega arith),
  )
]

-- A byte written just past a window extends it.
pub window-set :
    (buf : List ℕ) (size x n at i : ℕ)
    → size ≡ length buf
    → at < size
    → n < size
    → i ≡ (at + n) % size
    → window (set buf i x) size at (suc n) ≡ window buf size at n ++ (x ∷ [])
window-set buf size x zero at i hs h hn e =
    rw (e, add-zero, mod-eq_of_lt h, get_or-set_self buf at x 0 (omega arith))
window-set buf size x (suc n) at i hs h hn e =
    ap₂ ◌∷◌ (get_or-set_ne buf x 0 (rw e (step_ne size at n h hn)))
      (window-set buf size x n ((at + 1) % size) i hs (omega arith) (omega arith) (e ∙ sym later))
  where
    later : ((at + 1) % size + n) % size ≡ (at + suc n) % size
    later = mod-add-mod (at + 1) size n ∙ ap (λ j. j % size) (omega arith)

-- A block written past a window, short of the end of the storage, extends it.
pub window-blit :
    (xs buf : List ℕ) (size at n i : ℕ)
    → size ≡ length buf
    → at < size
    → n + length xs ≤ size
    → i ≡ (at + n) % size
    → i + length xs ≤ size
    → window (blit buf i xs) size at (n + length xs) ≡ window buf size at n ++ xs
window-blit [] buf size at n i hs h hn e hi = rw (add-zero, append-nil)
window-blit (x ∷ []) buf size at n i hs h hn e hi =
    ap (window (set buf i x) size at) {x = n + 1} {y = suc n} (omega arith)
    ∙ window-set buf size x n at i hs h (omega arith) e
window-blit (x ∷ y ∷ xs) buf size at n i hs h hn e hi =
    ap (window (blit (set buf i x) (i + 1) (y ∷ xs)) size at) {x = n + length (x ∷ y ∷ xs)}
      {y = suc n + length (y ∷ xs)} (omega arith)
    ∙ window-blit (y ∷ xs) (set buf i x) size at (suc n) (i + 1) (omega (arith, length-set buf i x))
        h (omega arith) next (omega arith)
    ∙ ap (λ l. l ++ (y ∷ xs)) (window-set buf size x n at i hs h (omega arith) e)
    ∙ append_assoc (window buf size at n) (x ∷ []) (y ∷ xs)
  where
    next : i + 1 ≡ (at + suc n) % size
    next =
        sym (mod-eq_of_lt {n = i + 1} {m = size} (omega arith))
        ∙ ap (λ j. (j + 1) % size) e
        ∙ mod-add-mod (at + n) size 1
        ∙ ap (λ j. j % size) (omega arith)

-- Positions are moved on by a test or by a remainder, with the same result.
pub next-mod : (size p : ℕ) → p < size → (if p + 1 == size then 0 else p + 1) ≡ (p + 1) % size
next-mod size p h = ground (
  arith,
  mod-eq_of_lt {n = p + 1} {m = size},
  mod-eq-sub-mod {n = p + 1} {m = size},
  mod-eq_of_lt {n = p + 1 - size} {m = size},
)

-- Bytes stored one by one, going round at `size`.
unfoldable pub fill : List ℕ → ℕ → ℕ → List ℕ → List ℕ
fill buf size i [] = buf
fill buf size i (x ∷ xs) = fill (set buf i x) size ((i + 1) % size) xs

pub length-fill : (xs buf : List ℕ) (size i : ℕ) → length (fill buf size i xs) ≡ length buf
unfolding fill
length-fill [] buf size i = refl
length-fill (x ∷ xs) buf size i =
    length-fill xs (set buf i x) size ((i + 1) % size) ∙ length-set buf i x

pub window-fill :
    (xs buf : List ℕ) (size at n i : ℕ)
    → size ≡ length buf
    → at < size
    → n + length xs ≤ size
    → i ≡ (at + n) % size
    → window (fill buf size i xs) size at (n + length xs) ≡ window buf size at n ++ xs
unfolding fill
window-fill [] buf size at n i hs h hn e = rw (add-zero, append-nil)
window-fill (x ∷ xs) buf size at n i hs h hn e =
    ap (window (fill (set buf i x) size ((i + 1) % size) xs) size at) {x = n + length (x ∷ xs)}
      {y = suc n + length xs} (omega arith)
    ∙ window-fill xs (set buf i x) size at (suc n) ((i + 1) % size)
        (omega (arith, length-set buf i x)) h (omega arith)
        (ap (λ j. (j + 1) % size) e
          ∙ mod-add-mod (at + n) size 1
          ∙ ap (λ j. j % size) (omega arith))
    ∙ ap (λ l. l ++ xs) (window-set buf size x n at i hs h (omega arith) e)
    ∙ append_assoc (window buf size at n) (x ∷ []) xs
