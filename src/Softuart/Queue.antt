-- ===== src/Softuart/Queue.antt =====
-- The receive ring of driver/softuart.c as a queue of 63 bytes, and the lines read from it.
use esp_slip_router.Prelude.{
  ℕ, zero, suc, ◌+◌, ◌%◌, ◌<◌, ◌≡◌, refl, sym, subst, ==_iff, ◌∙◌, ap, true, false, List, [], ◌∷◌,
  ◌++◌, length, length-set, get_or, set, arith, mod-lt, ◌==◌, if◌then◌else◌, Bool-cases, inl, inr,
  u8,
}
use esp_slip_router.Window.{window, window-set, length-window}
use esp_slip_router.Softuart.{Softuart, max_rx_buff, store_byte, read, available}

pub record IsValid (s : Softuart) : Type 0 where
  pub storage : 64 ≡ length s.receive_buffer
  pub tail_in : s.receive_buffer_tail < 64
  pub head_in : s.receive_buffer_head < 64

-- the bytes held, oldest first
abbrev pub queue : Softuart → List ℕ
queue s = window s.receive_buffer 64 s.receive_buffer_head (available s)

pub queue-few : (s : Softuart) → length (queue s) < 64
unfolding available
queue-few s = omega (arith, length-window s.receive_buffer 64 s.receive_buffer_head (available s))

tail-eq :
    {s : Softuart} → IsValid s → s.receive_buffer_tail ≡ (s.receive_buffer_head + available s) % 64
unfolding available
tail-eq v = ground arith

-- the place after the tail
abbrev next : Softuart → ℕ
next s = u8 ((s.receive_buffer_tail + 1) % max_rx_buff)

next-full :
    {s : Softuart} → IsValid s → (next s == s.receive_buffer_head) ≡ true → length (queue s) ≡ 63
unfolding available
next-full {s} v e = omega (
  arith,
  length-window s.receive_buffer 64 s.receive_buffer_head (available s),
  (==_iff (next s) s.receive_buffer_head).0 e,
)

next-free :
    {s : Softuart}
    → IsValid s
    → (next s == s.receive_buffer_head) ≡ false
    → (available (record s { receive_buffer_tail = next s }) ≡ suc (available s))
      × (available s < 63)
unfolding available
next-free {s} v e = ground arith

store-full :
    (d : ℕ) (s : Softuart)
    → (next s == s.receive_buffer_head) ≡ true
    → store_byte d s ≡ record s { buffer_overflow = true }
unfolding store_byte
store-full d s e = rw e refl

abbrev stored : ℕ → Softuart → Softuart
stored d s = record s {
  receive_buffer = set s.receive_buffer s.receive_buffer_tail d;
  receive_buffer_tail = next s;
}

store-free :
    (d : ℕ) (s : Softuart) → (next s == s.receive_buffer_head) ≡ false → store_byte d s ≡ stored d s
unfolding store_byte
store-free d s e = rw e refl

pub record Stored (d : ℕ) (s s' : Softuart) : Type 0 where
  pub valid : IsValid s'
  pub bytes : queue s' ≡ (if length (queue s) == 63 then queue s else queue s ++ d ∷ [])
  pub lost : s'.buffer_overflow ≡ (if length (queue s) == 63 then true else s.buffer_overflow)

-- A stored byte is the last one of the queue; when 63 bytes wait it is lost and the overflow flag is set.
pub store_byte_lem : (d : ℕ) {s : Softuart} → IsValid s → Stored d s (store_byte d s)
unfolding available
store_byte_lem d {s} v = elim (Bool-cases (next s == s.receive_buffer_head)) [
  | inl e ↦
      let full : (length (queue s) == 63) ≡ true =
        (==_iff (length (queue s)) 63).1 (next-full v e) in
      subst (Stored d s) (sym (store-full d s e)) (record {
        valid = record { storage = v.storage; tail_in = v.tail_in; head_in = v.head_in };
        bytes = rw full refl;
        lost = rw full refl;
      })
  | inr e ↦
      let (n, room) = next-free v e in
      let free : (length (queue s) == 63) ≡ false =
        ground (arith, length-window s.receive_buffer 64 s.receive_buffer_head (available s)) in
      subst (Stored d s) (sym (store-free d s e)) (record {
        valid = record {
          storage = v.storage ∙ sym (length-set s.receive_buffer s.receive_buffer_tail d);
          tail_in = omega arith;
          head_in = v.head_in;
        };
        bytes = rw free (
            ap (window (stored d s).receive_buffer 64 s.receive_buffer_head) n
            ∙ window-set s.receive_buffer 64 d (available s) s.receive_buffer_head
                s.receive_buffer_tail v.storage v.head_in (omega arith) (tail-eq v));
        lost = rw free refl;
      })
]

read-empty : {s : Softuart} → IsValid s → available s ≡ 0 → read s ≡ (0, s)
unfolding read available
read-empty {s} v h =
    let e : (s.receive_buffer_head == s.receive_buffer_tail) ≡ true = ground arith in rw e refl

-- the port without its oldest byte
abbrev taken : Softuart → Softuart
taken s = record s { receive_buffer_head = (s.receive_buffer_head + 1) % max_rx_buff }

read-some :
    {s : Softuart} {n : ℕ}
    → IsValid s
    → available s ≡ suc n
    → (read s ≡ (get_or s.receive_buffer s.receive_buffer_head 0, taken s))
      × (available (taken s) ≡ n)
unfolding read available
read-some {s} {n} v h =
    let e : (s.receive_buffer_head == s.receive_buffer_tail) ≡ false = ground arith in
    (rw e refl, omega arith)

pub record Read (s : Softuart) (c : ℕ) (rest : List ℕ) (r : ℕ × Softuart) : Type 0 where
  pub byte : r.0 ≡ c
  pub valid : IsValid r.1
  pub bytes : queue r.1 ≡ rest

-- Softuart_Read takes the oldest byte.
pub read_lem :
    {s : Softuart} {c : ℕ} {rest : List ℕ} → IsValid s → queue s ≡ c ∷ rest → Read s c rest (read s)
read_lem {s} {c} {rest} v h = go (available s) refl h
  where
    go :
        (n : ℕ)
        → available s ≡ n
        → window s.receive_buffer 64 s.receive_buffer_head n ≡ c ∷ rest
        → Read s c rest (read s)
    go zero e h = absurd cc
    go (suc n) e h =
        let (r, m) = read-some v e in
        subst (Read s c rest) (sym r) (record {
          byte = cc;
          valid = record {
            storage = v.storage;
            tail_in = v.tail_in;
            head_in = mod-lt (s.receive_buffer_head + 1) (omega arith);
          };
          bytes = ap (window s.receive_buffer 64 ((s.receive_buffer_head + 1) % 64)) m ∙ cc;
        })
