-- ===== src/Ringbuf/Into.antt =====
-- `ringbuf_memcpy_into` of user/ringbuf.c.
use esp_slip_router.Prelude.{
  blit, ℕ, zero, suc, ◌+◌, ◌-◌, ◌%◌, ◌≤◌, ◌<◌, ◌≡◌, refl, sym, ◌∙◌, ap, Bool, true, false, some,
  List, [], ◌∷◌, ◌++◌, arith, length, length-append, length-take, length-drop, take-append-drop,
  take, drop, append-drop, drop-drop, mod-add-mod, mod-eq_of_lt, mod-lt, mod-eq-sub-mod, min, ltb,
  Bool-cases, ltb→lt, inl, inr,
}
use esp_slip_router.Ringbuf.{
  Ringbuf, nextp, wrap, end, into_loop, memcpy_into, drop_oldest, bytes_free, bytes_used, capacity,
}
use esp_slip_router.Window.{length-window}
use esp_slip_router.Ringbuf.Inv.{
  IsValid, history, contents, contents-history, used-le, used_unique, head-eq, capacity-size,
}
use esp_slip_router.Ringbuf.Bytes.{
  puts, puts-IsValid, puts_frame, puts-append, head-puts, history-puts, puts-blit,
}

-- The block loop ends within as many rounds as there are bytes, and does what the byte loop does.
pub into_loop-puts :
    (fuel : ℕ) (rest : List ℕ) {rb : Ringbuf}
    → IsValid rb
    → length rest ≤ fuel
    → into_loop fuel rb rest ≡ some (puts rb rest)
unfolding into_loop puts
into_loop-puts fuel [] v h = refl
into_loop-puts zero (x ∷ rest) v h = absurd (omega arith)
into_loop-puts (suc fuel) (x ∷ rest) {rb} v h =
    ap (λ r. into_loop fuel r (drop n all)) (sym block)
    ∙ into_loop-puts fuel (drop n all) (puts-IsValid (take n all) v)
        (omega (arith, length-drop n all))
    ∙ ap some
        (sym (puts-append rb (take n all) (drop n all)) ∙ ap (puts rb) (take-append-drop n all))
  where
    all : List ℕ
    all = x ∷ rest

    n : ℕ
    n = min (end rb - rb.head) (length all)

    count : length (take n all) ≡ n
    count = omega (arith, length-take n all)

    block :
        puts rb (take n all)
        ≡ record rb { buf = blit rb.buf rb.head (take n all); head = wrap (end rb) (rb.head + n) }
    block =
        puts-blit (take n all) v (omega (arith, count))
        ∙ ap
            (λ (k : ℕ). record rb {
              buf = blit rb.buf rb.head (take n all);
              head = wrap rb.size (rb.head + k);
            })
            count

overflow-IsValid : {rb : Ringbuf} → IsValid rb → IsValid (drop_oldest true rb)
unfolding drop_oldest nextp
overflow-IsValid {rb} v = ground (arith, mod-lt (rb.head + 1) {m = rb.size})

-- After an overflow the ring is full.
overflow-used : {rb : Ringbuf} → IsValid rb → bytes_used (drop_oldest true rb) + 1 ≡ rb.size
unfolding drop_oldest nextp
overflow-used {rb} v = omega (
  arith,
  used_unique (rb.size - 1) (overflow-IsValid v) (omega arith) (
      mod-add-mod (rb.head + 1) rb.size (rb.size - 1)
      ∙ mod-eq-sub-mod {n = rb.head + 1 + (rb.size - 1)} {m = rb.size} (omega arith)
      ∙ mod-eq_of_lt {n = rb.head + 1 + (rb.size - 1) - rb.size} {m = rb.size} (omega arith)
      ∙ omega arith),
)

-- Short of an overflow the bytes are added.
puts-used :
    (src : List ℕ) {rb : Ringbuf}
    → IsValid rb
    → length src ≤ bytes_free rb
    → bytes_used (puts rb src) ≡ bytes_used rb + length src
puts-used src {rb} v h =
    used_unique (bytes_used rb + length src) (puts-IsValid src v)
      (rw (puts_frame rb src).0 (omega (arith, used-le v)))
      (rw ((puts_frame rb src).0, (puts_frame rb src).1)
        (ap (λ i. i % rb.size) {x = rb.tail + (bytes_used rb + length src)} (omega arith)
          ∙ sym (mod-add-mod (rb.tail + bytes_used rb) rb.size (length src))
          ∙ ap (λ i. (i + length src) % rb.size) (head-eq v)
          ∙ sym (head-puts src v)))

-- The newest `cap` elements.
abbrev pub keep : ℕ → List ℕ → List ℕ
keep cap xs = drop (length xs - cap) xs

length-history : {rb : Ringbuf} → IsValid rb → length (history rb) ≡ rb.size - 1
length-history {rb} v = length-window rb.buf rb.size (nextp rb rb.head) (rb.size - 1)

-- Both sides as pieces of what was stored since the buffer went round.
keep-history :
    (src : List ℕ) {rb : Ringbuf}
    → IsValid rb
    → keep (rb.size - 1) (contents rb ++ src)
      ≡ drop (bytes_free rb + (bytes_used rb + length src - (rb.size - 1))) (history rb ++ src)
keep-history src {rb} v =
    ap (λ i. drop i (contents rb ++ src)) excess
    ∙ ap (drop over) (
        ap (λ l. l ++ src) (contents-history v)
        ∙ sym (
            append-drop (bytes_free rb) (history rb) src
              (omega (arith, length-history v, used-le v))))
    ∙ drop-drop over (bytes_free rb) (history rb ++ src)
  where
    over : ℕ
    over = bytes_used rb + length src - (rb.size - 1)

    excess : length (contents rb ++ src) - (rb.size - 1) ≡ over
    excess = omega (
      arith,
      length-append (contents rb) src,
      length-window rb.buf rb.size rb.tail (bytes_used rb),
    )

history-drop_oldest : (b : Bool) (rb : Ringbuf) → history (drop_oldest b rb) ≡ history rb
unfolding drop_oldest nextp
history-drop_oldest true rb = refl
history-drop_oldest false rb = refl

-- What is left of the history once `src` is stored.
contents-puts :
    (b : Bool) (src : List ℕ) {rb : Ringbuf}
    → IsValid rb
    → IsValid (drop_oldest b (puts rb src))
    → bytes_free (drop_oldest b (puts rb src)) + length src
      ≡ bytes_free rb + (bytes_used rb + length src - (rb.size - 1))
    → contents (drop_oldest b (puts rb src)) ≡ keep (rb.size - 1) (contents rb ++ src)
contents-puts b src {rb} v v' e =
    contents-history v'
    ∙ ap (drop free) (history-drop_oldest b (puts rb src) ∙ history-puts src v)
    ∙ drop-drop free (length src) (history rb ++ src)
    ∙ ap (λ i. drop i (history rb ++ src)) (omega arith)
    ∙ sym (keep-history src v)
  where
    free : ℕ
    free = bytes_free (drop_oldest b (puts rb src))

record Stored (rb : Ringbuf) (src : List ℕ) (rb' : Ringbuf) : Type 0 where
  pub valid : IsValid rb'
  pub size : rb'.size ≡ rb.size
  pub held : contents rb' ≡ keep (rb.size - 1) (contents rb ++ src)

Stored-all :
    (src : List ℕ) {rb : Ringbuf}
    → IsValid rb
    → length src ≤ bytes_free rb
    → Stored rb src (drop_oldest false (puts rb src))
unfolding drop_oldest
Stored-all src {rb} v h = record {
  valid = puts-IsValid src v;
  size = (puts_frame rb src).0;
  held = contents-puts false src v (puts-IsValid src v) (
      omega
        (arith, puts-used src v h, used-le v, used-le (puts-IsValid src v), (puts_frame rb src).0));
}

Stored-newest :
    (src : List ℕ) {rb : Ringbuf}
    → IsValid rb
    → bytes_free rb < length src
    → Stored rb src (drop_oldest true (puts rb src))
unfolding drop_oldest
Stored-newest src {rb} v h = record {
  valid = overflow-IsValid (puts-IsValid src v);
  size = (puts_frame rb src).0;
  held = contents-puts true src v (overflow-IsValid (puts-IsValid src v)) (
      omega (
        arith,
        overflow-used (puts-IsValid src v),
        used-le v,
        used-le (overflow-IsValid (puts-IsValid src v)),
        (puts_frame rb src).0,
      ));
}

pub memcpy_into-puts :
    (src : List ℕ) {rb : Ringbuf}
    → IsValid rb
    → memcpy_into rb src ≡ some (drop_oldest (ltb (bytes_free rb) (length src)) (puts rb src))
unfolding memcpy_into
memcpy_into-puts src {rb} v = rw (into_loop-puts (length src) src v (omega arith), memcpy_into)

-- `ringbuf_memcpy_into` always ends. The ring is valid and as large as before, and holds the newest
-- bytes, as many as its capacity allows, of those it held followed by `src`: all of them if
-- they fit, and otherwise the oldest ones are gone.
pub memcpy_into_lem :
    (src : List ℕ) {rb : Ringbuf}
    → IsValid rb
    → (rb' : Ringbuf) × (memcpy_into rb src ≡ some rb')
      × IsValid rb'
      × (capacity rb' ≡ capacity rb)
      × (contents rb' ≡ keep (capacity rb) (contents rb ++ src))
memcpy_into_lem src {rb} v = elim (Bool-cases (ltb (bytes_free rb) (length src))) [
  | inl e ↦ done true e (Stored-newest src v (ltb→lt _ _ e))
  | inr e ↦ done false e (Stored-all src v (ground arith))
]
  where
    done :
        (b : Bool)
        → ltb (bytes_free rb) (length src) ≡ b
        → Stored rb src (drop_oldest b (puts rb src))
        → (rb' : Ringbuf) × (memcpy_into rb src ≡ some rb')
          × IsValid rb'
          × (capacity rb' ≡ capacity rb)
          × (contents rb' ≡ keep (capacity rb) (contents rb ++ src))
    done b e s =
        let c : capacity rb ≡ rb.size - 1 = omega (arith, capacity-size v) in
        (
          drop_oldest b (puts rb src),
          memcpy_into-puts src v ∙ ap (λ t. some (drop_oldest t (puts rb src))) e,
          s.valid,
          omega (arith, capacity-size v, capacity-size s.valid, s.size),
          rw c s.held,
        )
