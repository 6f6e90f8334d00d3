-- ===== src/Uart/Tx.antt =====
-- The transmit path of driver/uart.c as a queue.
use esp_slip_router.Prelude.{
  ℕ, zero, suc, ◌+◌, ◌-◌, ◌%◌, ◌≤◌, ◌<◌, ◌≡◌, refl, sym, ◌∙◌, ap, ap₂, List, [], ◌∷◌, ◌++◌,
  append_assoc, append-nil, arith, length, length-append, length-take, length-drop, length-blit,
  take-append-drop, take, drop, mod-add-mod, mod-eq_of_lt, mod-lt, add-zero, mod-eq-sub-mod, min,
  leb, Bool-cases, leb→le, inl, inr, blit, get_or, u16, subst,
}
use esp_slip_router.Window.{window, window-blit, next-mod, drop-window, take-window}
use esp_slip_router.Uart.{
  UartBuffer, put_block, uart_fifo_len, uart_buf_cpy, insert_loop, tx_fifo_insert, tx_len,
}
use esp_slip_router.Uart.Inv.{IsValid, used, queue}

-- `b'` is `b` with `xs` appended.
pub record Appended (b : UartBuffer) (xs : List ℕ) (b' : UartBuffer) : Type 0 where
  pub valid : IsValid b'
  pub size : b'.uart_buff_size ≡ b.uart_buff_size
  pub room : b'.space + length xs ≡ b.space
  pub bytes : queue b' ≡ queue b ++ xs

put_block-Appended :
    (xs : List ℕ) {b : UartBuffer}
    → IsValid b
    → length xs ≤ b.space
    → b.in_pos + length xs ≤ b.uart_buff_size
    → Appended b xs (put_block b xs)
unfolding put_block
put_block-Appended xs {b} v h k = record {
  valid = record {
    storage = omega (arith, length-blit xs b.uart_buff b.in_pos);
    some_room = v.some_room;
    small = v.small;
    out_in = v.out_in;
    space_in = omega arith;
    in_eq =
        (ap (λ i. (i + length xs) % b.uart_buff_size) v.in_eq
          ∙ mod-add-mod (b.out_pos + used b) b.uart_buff_size (length xs)
          ∙ ap (λ i. i % b.uart_buff_size) (omega arith));
  };
  size = refl;
  room = omega arith;
  bytes =
      (ap (window (blit b.uart_buff b.in_pos xs) b.uart_buff_size b.out_pos) (omega arith)
        ∙ window-blit xs b.uart_buff b.uart_buff_size b.out_pos (used b) b.in_pos v.storage v.out_in
            (omega arith) v.in_eq k);
}

Appended-trans :
    (xs ys : List ℕ) {b c d : UartBuffer}
    → Appended b xs c
    → Appended c ys d
    → Appended b (xs ++ ys) d
Appended-trans xs ys {b} {c} {d} p q = record {
  valid = q.valid;
  size = q.size ∙ p.size;
  room = omega (arith, p.room, q.room, length-append xs ys);
  bytes = q.bytes ∙ ap (λ l. l ++ ys) p.bytes ∙ append_assoc (queue b) xs ys;
}

in_lt : {b : UartBuffer} → IsValid b → b.in_pos < b.uart_buff_size
in_lt {b} v = omega (arith, v.in_eq, mod-lt (b.out_pos + used b) v.some_room)

two_blocks-Appended :
    (t : ℕ) (xs : List ℕ) {b : UartBuffer}
    → IsValid b
    → length xs ≤ b.space
    → b.in_pos + t ≡ b.uart_buff_size
    → t < length xs
    → Appended b xs (put_block (put_block b (take t xs)) (drop t xs))
unfolding put_block
two_blocks-Appended t xs {b} v h e k =
    subst (λ l. Appended b l (put_block (put_block b (take t xs)) (drop t xs)))
      (take-append-drop t xs) (Appended-trans (take t xs) (drop t xs) step rest)
  where
    count : length (take t xs) ≡ t
    count = omega (arith, length-take t xs)

    step : Appended b (take t xs) (put_block b (take t xs))
    step = put_block-Appended (take t xs) v (omega (arith, count)) (omega (arith, count))

    round : (b.in_pos + length (take t xs)) % b.uart_buff_size ≡ 0
    round =
        ap (λ i. i % b.uart_buff_size) {y = b.uart_buff_size} (omega (arith, count))
        ∙ mod-eq-sub-mod {n = b.uart_buff_size} {m = b.uart_buff_size} (omega arith)
        ∙ ap (λ i. i % b.uart_buff_size) {y = 0} (omega arith)
        ∙ mod-eq_of_lt v.some_room

    rest :
        Appended
          (put_block b (take t xs))
          (drop t xs)
          (put_block (put_block b (take t xs)) (drop t xs))
    rest =
        put_block-Appended (drop t xs) step.valid
          (omega (arith, step.room, length-drop t xs, count))
          (omega (arith, round, length-drop t xs))

-- `Uart_Buf_Cpy` appends data that fits, round the end of the storage too.
pub uart_buf_cpy-Appended :
    (xs : List ℕ) {b : UartBuffer}
    → IsValid b
    → length xs ≤ b.space
    → Appended b xs (uart_buf_cpy b xs)
unfolding uart_buf_cpy
uart_buf_cpy-Appended [] {b} v h = record {
  valid = v;
  size = refl;
  room = omega arith;
  bytes = sym (append-nil (queue b));
}
uart_buf_cpy-Appended (x ∷ xs) {b} v h = elim (Bool-cases (leb (length all) tail_len)) [
  | inl e ↦ rw e (put_block-Appended all v h (omega (arith, leb→le _ _ e, exact, in_lt v)))
  | inr e ↦
      rw e (two_blocks-Appended tail_len all v h (omega (arith, exact, in_lt v)) (ground arith))
]
  where
    all : List ℕ
    all = x ∷ xs

    tail_len : ℕ
    tail_len = u16 (b.uart_buff_size - b.in_pos)

    exact : tail_len ≡ b.uart_buff_size - b.in_pos
    exact = omega arith

-- `b'` is `b` with the `n` oldest bytes taken.
pub record Taken (b : UartBuffer) (n : ℕ) (b' : UartBuffer) : Type 0 where
  pub valid : IsValid b'
  pub size : b'.uart_buff_size ≡ b.uart_buff_size
  pub room : b'.space ≡ b.space + n
  pub bytes : queue b' ≡ drop n (queue b)

-- the buffer with its `n` oldest bytes taken
abbrev pub advance : UartBuffer → ℕ → UartBuffer
advance b n = record b { out_pos = (b.out_pos + n) % b.uart_buff_size; space = u16 (b.space + n) }

pub advance-Taken : (n : ℕ) {b : UartBuffer} → IsValid b → n ≤ used b → Taken b n (advance b n)
advance-Taken n {b} v h = record {
  valid = record {
    storage = v.storage;
    some_room = v.some_room;
    small = v.small;
    out_in = mod-lt (b.out_pos + n) v.some_room;
    space_in = omega arith;
    in_eq =
        v.in_eq
        ∙ ap (λ i. i % b.uart_buff_size)
            {y = b.out_pos + n + (b.uart_buff_size - u16 (b.space + n))} (omega arith)
        ∙ sym (mod-add-mod (b.out_pos + n) b.uart_buff_size (b.uart_buff_size - u16 (b.space + n)));
  };
  size = refl;
  room = omega arith;
  bytes = sym (
      drop-window b.uart_buff b.uart_buff_size n b.out_pos (used b)
        (b.uart_buff_size - u16 (b.space + n)) v.out_in (omega arith));
}

insert_loop_lem :
    (n : ℕ) (sent : List ℕ) {b : UartBuffer}
    → b.out_pos < b.uart_buff_size
    → insert_loop n b sent ≡ (
      record b { out_pos = (b.out_pos + n) % b.uart_buff_size },
      sent ++ window b.uart_buff b.uart_buff_size b.out_pos n,
    )
unfolding insert_loop
insert_loop_lem zero sent {b} h =
    ap₂ (λ o s. (record b { out_pos = o }, s)) (sym (rw (add-zero, mod-eq_of_lt h)))
      (sym (append-nil sent))
insert_loop_lem (suc n) sent {b} h =
    ap (λ o. insert_loop n (record b { out_pos = o }) (sent ++ (x ∷ [])))
      (next-mod size b.out_pos h)
    ∙ insert_loop_lem n (sent ++ (x ∷ [])) (mod-lt (b.out_pos + 1) (omega arith))
    ∙ ap₂ (λ o s. (record b { out_pos = o }, s))
        (mod-add-mod (b.out_pos + 1) size n ∙ ap (λ i. i % size) (omega arith))
        (append_assoc sent (x ∷ []) (window b.uart_buff size ((b.out_pos + 1) % size) n))
  where
    x : ℕ
    x = get_or b.uart_buff b.out_pos 0

    size : ℕ
    size = b.uart_buff_size

-- `tx_fifo_insert` moves the oldest bytes to the FIFO in order.
pub tx_fifo_insert_lem :
    (n : ℕ) (sent : List ℕ) {b : UartBuffer}
    → IsValid b
    → n ≤ used b
    → (b' : UartBuffer) × (tx_fifo_insert b n sent ≡ (b', sent ++ take n (queue b))) × Taken b n b'
unfolding tx_fifo_insert
tx_fifo_insert_lem n sent {b} v h = (
  advance b n,
  rw (insert_loop_lem n sent {b = b} v.out_in) (
      ap₂ (λ o l. (record b { out_pos = o; space = u16 (b.space + n) }, sent ++ l))
        (mod-eq_of_lt (mod-lt (b.out_pos + n) v.some_room))
        (sym (
          take-window b.uart_buff b.uart_buff_size n b.out_pos (used b) (used b - n)
            (omega arith)))),
  advance-Taken n v h,
)

-- `tx_start_uart_buffer` moves all that waits, or as much as the FIFO has room for.
pub tx_len_lem :
    (cnt : ℕ) {b : UartBuffer}
    → IsValid b
    → cnt ≤ uart_fifo_len
    → tx_len b cnt ≡ min (used b) (uart_fifo_len - cnt)
unfolding tx_len
tx_len_lem cnt {b} v h = ground arith
