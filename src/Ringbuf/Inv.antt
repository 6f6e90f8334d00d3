-- ===== src/Ringbuf/Inv.antt =====
-- The representation invariant of user/ringbuf.c, and the counts of bytes under it.
use esp_slip_router.Prelude.{
  ℕ, ◌+◌, ◌-◌, ◌%◌, ◌≤◌, ◌<◌, ◌≡◌, sym, ◌∙◌, ◌↔◌, ap, true, Option, some, List, arith, length, drop,
  u32, mod-add-mod, mod-eq_of_lt, mod-eq-sub-mod, dec_lt, dec_le,
}
use esp_slip_router.Ringbuf.{
  Ringbuf, new, reset, capacity, bytes_free, bytes_used, is_full, is_empty, nextp,
}
use esp_slip_router.Window.{window, drop-window}

-- Both positions lie in the storage, whose size a `size_t` holds.
pub record IsValid (rb : Ringbuf) : Type 0 where
  pub storage : rb.size ≡ length rb.buf
  pub head_in : rb.head < rb.size
  pub tail_in : rb.tail < rb.size
  pub small : rb.size < 4294967296

-- The bytes held, oldest first.
abbrev pub contents : Ringbuf → List ℕ
contents rb = window rb.buf rb.size rb.tail (bytes_used rb)

-- Every slot but the one at the head, the slot written longest ago first.
abbrev pub history : Ringbuf → List ℕ
history rb = window rb.buf rb.size (nextp rb rb.head) (rb.size - 1)

pub capacity-size : {rb : Ringbuf} → IsValid rb → capacity rb + 1 ≡ rb.size
unfolding capacity
capacity-size v = omega arith

-- The bytes held and the bytes free make up the capacity, which is one less than the storage.
pub used-add-free :
    {rb : Ringbuf}
    → IsValid rb
    → (bytes_used rb + bytes_free rb ≡ capacity rb) × (capacity rb + 1 ≡ length rb.buf)
unfolding bytes_used bytes_free capacity
used-add-free v = (ground arith, ground arith)

pub used-le : {rb : Ringbuf} → IsValid rb → bytes_used rb + bytes_free rb + 1 ≡ rb.size
used-le v = omega (arith, used-add-free v, capacity-size v)

pub used-eq : {rb : Ringbuf} → IsValid rb → rb.tail ≤ rb.head → rb.tail + bytes_used rb ≡ rb.head
unfolding bytes_used bytes_free capacity
used-eq v h = ground arith

pub used-eq_wrapped :
    {rb : Ringbuf} → IsValid rb → rb.head < rb.tail → rb.tail + bytes_used rb ≡ rb.head + rb.size
unfolding bytes_used bytes_free capacity
used-eq_wrapped v h = ground arith

-- `ringbuf_is_empty` and `ringbuf_is_full` say what their names say.
pub is_empty-is_full_lem :
    {rb : Ringbuf}
    → IsValid rb
    → ((is_empty rb ≡ true) ↔ (bytes_used rb ≡ 0))
      × ((is_full rb ≡ true) ↔ (bytes_used rb ≡ capacity rb))
unfolding is_empty is_full
is_empty-is_full_lem v =
    let e = used-add-free v in
    ((λ h. ground arith, λ h. ground arith), (λ h. ground arith, λ h. ground arith))

-- The head is the place just past the bytes held.
pub head-eq : {rb : Ringbuf} → IsValid rb → (rb.tail + bytes_used rb) % rb.size ≡ rb.head
head-eq {rb} v = elim (dec_le rb.tail rb.head) [
  | yes p ↦ rw (used-eq v p) (mod-eq_of_lt v.head_in)
  | no p ↦ omega (
    arith,
    used-eq_wrapped v (omega arith),
    mod-eq-sub-mod {n = rb.tail + bytes_used rb} {m = rb.size}
        (omega (arith, used-eq_wrapped v (omega arith))),
    mod-eq_of_lt {n = rb.tail + bytes_used rb - rb.size} {m = rb.size}
        (omega (arith, used-eq_wrapped v (omega arith))),
  )
]

-- The free slots, one of which is never used, lead from the head to the tail.
tail-eq : {rb : Ringbuf} → IsValid rb → (nextp rb rb.head + bytes_free rb) % rb.size ≡ rb.tail
unfolding nextp
tail-eq {rb} v = mod-add-mod (rb.head + 1) rb.size (bytes_free rb) ∙ elim (dec_le rb.tail rb.head) [
  | yes p ↦ omega (
    arith,
    used-eq v p,
    used-le v,
    mod-eq-sub-mod {n = rb.head + 1 + bytes_free rb} {m = rb.size}
        (omega (arith, used-eq v p, used-le v)),
    mod-eq_of_lt {n = rb.head + 1 + bytes_free rb - rb.size} {m = rb.size}
        (omega (arith, used-eq v p, used-le v)),
  )
  | no p ↦ omega (
    arith,
    used-eq_wrapped v (omega arith),
    used-le v,
    mod-eq_of_lt {n = rb.head + 1 + bytes_free rb} {m = rb.size}
        (omega (arith, used-eq_wrapped v (omega arith), used-le v)),
  )
]

pub contents-history : {rb : Ringbuf} → IsValid rb → contents rb ≡ drop (bytes_free rb) (history rb)
unfolding nextp
contents-history {rb} v =
    ap (λ i. window rb.buf rb.size i (bytes_used rb)) (sym (tail-eq v))
    ∙ sym (
        drop-window rb.buf rb.size (bytes_free rb) (nextp rb rb.head) (rb.size - 1) (bytes_used rb)
          (omega arith) (omega (arith, used-le v)))

-- A fresh ring is valid, empty, and has the capacity asked for.
pub new-IsValid :
    (storage : ℕ → Option (List ℕ)) (n : ℕ) {block : List ℕ} {rb : Ringbuf}
    → n + 1 < 4294967296
    → storage (n + 1) ≡ some block
    → length block ≡ n + 1
    → new true storage n ≡ some rb
    → IsValid rb × (bytes_used rb ≡ 0) × (capacity rb ≡ n)
unfolding new bytes_used bytes_free capacity
new-IsValid storage n h b l e =
    let w : u32 (n + 1) ≡ n + 1 = omega arith in ground (arith, ap storage w)

-- `ringbuf_reset` empties a ring and keeps its capacity.
pub reset_lem :
    {rb : Ringbuf}
    → IsValid rb
    → IsValid (reset rb) × (bytes_used (reset rb) ≡ 0) × (capacity (reset rb) ≡ capacity rb)
unfolding reset bytes_used bytes_free capacity
reset_lem v = ground arith

-- The number of bytes held is the distance from the tail to the head.
pub used_unique :
    {rb : Ringbuf} (k : ℕ)
    → IsValid rb
    → k < rb.size
    → (rb.tail + k) % rb.size ≡ rb.head
    → bytes_used rb ≡ k
used_unique {rb} k v h e = elim (dec_lt (rb.tail + k) rb.size) [
  | yes p ↦ omega (arith, used-eq v (rw (← e) (rw (mod-eq_of_lt p) (omega arith))), mod-eq_of_lt p)
  | no p ↦
      let e' : rb.tail + k - rb.size ≡ rb.head =
        sym (mod-eq_of_lt {n = rb.tail + k - rb.size} {m = rb.size} (omega arith))
        ∙ sym (mod-eq-sub-mod {n = rb.tail + k} {m = rb.size} (omega arith))
        ∙ e in
      omega (arith, used-eq_wrapped v (omega arith))
]
