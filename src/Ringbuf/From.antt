-- ===== src/Ringbuf/From.antt =====
-- `ringbuf_memcpy_from` of user/ringbuf.c.
use esp_slip_router.Prelude.{
  ℕ, zero, suc, ◌+◌, ◌-◌, ◌%◌, ◌≤◌, ◌<◌, ◌≡◌, refl, sym, ◌∙◌, ap, ap₂, false, some, List, [], ◌++◌,
  append_assoc, append-nil, arith, take, drop, mod-add-mod, mod-eq_of_lt, mod-lt, mod-eq-sub-mod,
  min, ltb, lt→ltb,
}
use esp_slip_router.Ringbuf.{
  Ringbuf, wrap, end, from_loop, memcpy_from, bytes_used, capacity, underflow, moved,
}
use esp_slip_router.Window.{window, window-eq-take, window-append, take-window, drop-window}
use esp_slip_router.Ringbuf.Inv.{IsValid, contents, used-le, used_unique, head-eq}

-- the ring with its `n` oldest bytes taken
abbrev pub advance : Ringbuf → ℕ → Ringbuf
advance rb n = record rb { tail = (rb.tail + n) % rb.size }

pub advance-IsValid : {rb : Ringbuf} (n : ℕ) → IsValid rb → IsValid (advance rb n)
advance-IsValid {rb} n v = ground (arith, mod-lt (rb.tail + n) {m = rb.size})

pub advance-advance :
    (rb : Ringbuf) (n m k : ℕ) → n + m ≡ k → advance (advance rb n) m ≡ advance rb k
advance-advance rb n m k e =
    ap (λ t. record rb { tail = t })
      (mod-add-mod (rb.tail + n) rb.size m ∙ ap (λ i. i % rb.size) (omega arith))

pub wrap-mod : (size p : ℕ) → p ≤ size → 0 < size → wrap size p ≡ p % size
unfolding wrap
wrap-mod size p h k =
    ground (arith, mod-eq_of_lt {n = p} {m = size}, mod-eq-sub-mod {n = p} {m = size})

-- A block read before the end of the storage.
pub block-window :
    {rb : Ringbuf} (n : ℕ)
    → IsValid rb
    → rb.tail + n ≤ rb.size
    → take n (drop rb.tail rb.buf) ≡ window rb.buf rb.size rb.tail n
block-window {rb} n v h = sym (window-eq-take rb.buf rb.size n rb.tail v.storage h)

from_loop_lem :
    (fuel left : ℕ) (out : List ℕ) {rb : Ringbuf}
    → IsValid rb
    → left ≤ fuel
    → from_loop fuel rb left out ≡ some (advance rb left, out ++ window rb.buf rb.size rb.tail left)
unfolding from_loop
from_loop_lem fuel zero out {rb} v h =
    ap₂ (λ t l. some (record rb { tail = t }, l))
      (sym (mod-eq_of_lt v.tail_in) ∙ ap (λ i. i % rb.size) (omega arith)) (sym (append-nil out))
from_loop_lem zero (suc left) out v h = absurd (omega arith)
from_loop_lem (suc fuel) (suc left) out {rb} v h =
    ap₂ (λ t l. from_loop fuel (record rb { tail = t }) (suc left - n) (out ++ l)) round
      (block-window n v fits)
    ∙ from_loop_lem fuel (suc left - n) (out ++ window rb.buf rb.size rb.tail n)
        (advance-IsValid n v) (omega arith)
    ∙ ap₂ (λ r l. some (r, l)) (advance-advance rb n (suc left - n) (suc left) sum)
        (append_assoc out (window rb.buf rb.size rb.tail n) _
          ∙ ap (λ l. out ++ l)
              (sym (window-append rb.buf rb.size n rb.tail (suc left - n) v.tail_in)
                ∙ ap (window rb.buf rb.size rb.tail) sum))
  where
    n : ℕ
    n = min (end rb - rb.tail) (suc left)

    sum : n + (suc left - n) ≡ suc left
    sum = omega arith

    fits : rb.tail + n ≤ rb.size
    fits = omega arith

    round : wrap (end rb) (rb.tail + n) ≡ (rb.tail + n) % rb.size
    round = wrap-mod rb.size (rb.tail + n) fits (omega arith)

-- Taking bytes from the tail leaves the others.
pub advance-contents :
    (n : ℕ) {rb : Ringbuf}
    → IsValid rb
    → n ≤ bytes_used rb
    → (bytes_used (advance rb n) ≡ bytes_used rb - n)
      × (contents (advance rb n) ≡ drop n (contents rb))
advance-contents n {rb} v h =
    (fewer, ap (window rb.buf rb.size ((rb.tail + n) % rb.size)) fewer ∙ rest)
  where
    fewer : bytes_used (advance rb n) ≡ bytes_used rb - n
    fewer = used_unique (bytes_used rb - n) (advance-IsValid n v) (omega (arith, used-le v)) (
        mod-add-mod (rb.tail + n) rb.size (bytes_used rb - n)
        ∙ ap (λ i. i % rb.size) {y = rb.tail + bytes_used rb} (omega arith)
        ∙ head-eq v)

    rest :
        window rb.buf rb.size ((rb.tail + n) % rb.size) (bytes_used rb - n) ≡ drop n (contents rb)
    rest = sym (
        drop-window rb.buf rb.size n rb.tail (bytes_used rb) (bytes_used rb - n) v.tail_in
          (omega arith))

pub first_bytes :
    (n : ℕ) (rb : Ringbuf)
    → n ≤ bytes_used rb
    → window rb.buf rb.size rb.tail n ≡ take n (contents rb)
first_bytes n rb h =
    sym (take-window rb.buf rb.size n rb.tail (bytes_used rb) (bytes_used rb - n) (omega arith))

-- Asked for more bytes than it holds, `ringbuf_memcpy_from` returns 0 and changes nothing.
pub memcpy_from-underflow :
    (n : ℕ) (rb : Ringbuf) → bytes_used rb < n → memcpy_from rb n ≡ underflow
unfolding memcpy_from
memcpy_from-underflow n rb h = rw (lt→ltb _ _ h)

-- Asked for at most the bytes held, `ringbuf_memcpy_from` ends, hands out the oldest bytes in order,
-- and leaves a valid ring with the others.
pub memcpy_from_lem :
    (n : ℕ) {rb : Ringbuf}
    → IsValid rb
    → n ≤ bytes_used rb
    → (rb' : Ringbuf) × (memcpy_from rb n ≡ moved (rb', take n (contents rb)))
      × IsValid rb'
      × (capacity rb' ≡ capacity rb)
      × (bytes_used rb' ≡ bytes_used rb - n)
      × (contents rb' ≡ drop n (contents rb))
unfolding memcpy_from capacity
memcpy_from_lem n {rb} v h = (
  advance rb n,
  rw (not_less, from_loop_lem n n [] v (omega arith))
      (ap (λ l. moved (advance rb n, l)) (first_bytes n rb h)),
  advance-IsValid n v,
  refl,
  (advance-contents n v h).0,
  (advance-contents n v h).1,
)
  where
    not_less : ltb (bytes_used rb) n ≡ false
    not_less = ground arith
