-- ===== src/Ringbuf/Bytes.antt =====
-- The copy loops of user/ringbuf.c move blocks; here is the same one byte at a time.
use esp_slip_router.Prelude.{
  blit, ℕ, ◌+◌, ◌-◌, ◌%◌, ◌≤◌, ◌≡◌, refl, sym, ◌∙◌, ap, List, [], ◌∷◌, ◌++◌, append_assoc,
  append-nil, ap₂, add-zero, arith, length, length-append, length-set, drop, append-drop, drop-drop,
  length-eq_zero, mod-add-mod, mod-eq_of_lt, mod-lt, mod-eq-sub-mod, dec_lt, set,
}
use esp_slip_router.Ringbuf.{Ringbuf, nextp, wrap}
use esp_slip_router.Window.{window-set}
use esp_slip_router.Ringbuf.Inv.{IsValid, history}

-- one byte stored at the head
unfoldable pub put : Ringbuf → ℕ → Ringbuf
unfolding nextp
put rb x = record rb { buf = set rb.buf rb.head x; head = nextp rb rb.head }

unfoldable pub puts : Ringbuf → List ℕ → Ringbuf
puts rb [] = rb
puts rb (x ∷ xs) = puts (put rb x) xs

put-IsValid : {rb : Ringbuf} (x : ℕ) → IsValid rb → IsValid (put rb x)
unfolding put
put-IsValid {rb} x v =
    ground (arith, length-set rb.buf rb.head x, mod-lt (rb.head + 1) {m = rb.size})

pub puts-IsValid : (xs : List ℕ) {rb : Ringbuf} → IsValid rb → IsValid (puts rb xs)
unfolding puts
puts-IsValid [] v = v
puts-IsValid (x ∷ xs) v = puts-IsValid xs (put-IsValid x v)

pub puts_frame :
    (rb : Ringbuf) (xs : List ℕ) → ((puts rb xs).size ≡ rb.size) × ((puts rb xs).tail ≡ rb.tail)
unfolding puts put
puts_frame rb [] = (refl, refl)
puts_frame rb (x ∷ xs) = puts_frame (put rb x) xs

pub puts-append : (rb : Ringbuf) (xs ys : List ℕ) → puts rb (xs ++ ys) ≡ puts (puts rb xs) ys
unfolding puts
puts-append rb [] ys = refl
puts-append rb (x ∷ xs) ys = puts-append (put rb x) xs ys

pub head-puts :
    (xs : List ℕ) {rb : Ringbuf} → IsValid rb → (puts rb xs).head ≡ (rb.head + length xs) % rb.size
unfolding puts put nextp
head-puts [] {rb} v = rw (add-zero, mod-eq_of_lt v.head_in)
head-puts (x ∷ xs) {rb} v =
    head-puts xs (put-IsValid x v)
    ∙ mod-add-mod (rb.head + 1) rb.size (length xs)
    ∙ ap (λ i. i % rb.size) (omega arith)

-- Each byte stored pushes the oldest one out of the history.
history-put :
    {rb : Ringbuf} (x : ℕ) → IsValid rb → history (put rb x) ≡ drop 1 (history rb ++ (x ∷ []))
unfolding put nextp
history-put {rb} x v = ap (drop 1) (
    window-set rb.buf rb.size x (rb.size - 1) ((rb.head + 1) % rb.size) rb.head v.storage
      (mod-lt (rb.head + 1) (omega arith)) (omega arith)
      (sym (
        mod-add-mod (rb.head + 1) rb.size (rb.size - 1)
        ∙ mod-eq-sub-mod {n = rb.head + 1 + (rb.size - 1)} {m = rb.size} (omega arith)
        ∙ mod-eq_of_lt {n = rb.head + 1 + (rb.size - 1) - rb.size} {m = rb.size} (omega arith)
        ∙ omega arith)))

pub history-puts :
    (xs : List ℕ) {rb : Ringbuf}
    → IsValid rb
    → history (puts rb xs) ≡ drop (length xs) (history rb ++ xs)
unfolding puts
history-puts [] {rb} v = sym (append-nil (history rb))
history-puts (x ∷ xs) {rb} v =
    history-puts xs (put-IsValid x v)
    ∙ ap (λ l. drop (length xs) (l ++ xs)) (history-put x v)
    ∙ ap (drop (length xs)) (sym (append-drop 1 (history rb ++ (x ∷ [])) xs longer))
    ∙ drop-drop (length xs) 1 ((history rb ++ (x ∷ [])) ++ xs)
    ∙ ap₂ drop {y = length (x ∷ xs)} (omega arith) (append_assoc (history rb) (x ∷ []) xs)
  where
    longer : 1 ≤ length (history rb ++ (x ∷ []))
    longer = omega (arith, length-append (history rb) (x ∷ []))

-- A block that fits before the end of the storage is stored at once.
pub puts-blit :
    (xs : List ℕ) {rb : Ringbuf}
    → IsValid rb
    → rb.head + length xs ≤ rb.size
    → puts rb xs
      ≡ record rb { buf = blit rb.buf rb.head xs; head = wrap rb.size (rb.head + length xs) }
unfolding puts put wrap nextp
puts-blit [] {rb} v h = ground arith
puts-blit (x ∷ xs) {rb} v h = elim (dec_lt (rb.head + 1) rb.size) [
  | yes p ↦
      let next : (rb.head + 1) % rb.size ≡ rb.head + 1 = mod-eq_of_lt p in
      puts-blit xs (put-IsValid x v) (rw next (omega arith)) ∙ ground (arith, next)
  | no p ↦ ground (
    arith,
    length-eq_zero xs (omega arith),
    mod-eq-sub-mod {n = rb.head + 1} {m = rb.size} (omega arith),
    mod-eq_of_lt {n = rb.head + 1 - rb.size} {m = rb.size} (omega arith),
  )
]
