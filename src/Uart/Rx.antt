-- ===== src/Uart/Rx.antt =====
-- The receive buffer of driver/uart.c as a queue.
use esp_slip_router.Prelude.{
  ℕ, ◌+◌, ◌-◌, ◌%◌, ◌≤◌, ◌<◌, ◌≡◌, refl, sym, ◌∙◌, ap, ap₂, false, List, [], ◌∷◌, ◌++◌, arith,
  length, take-length, take, set, mod-add-mod, mod-eq_of_lt, mod-lt, add-zero, mod-eq-sub-mod,
  dec_lt, min, ltb, leb, Bool-cases, leb→le, inl, inr, ltb→lt, u8, u16,
}
use esp_slip_router.Window.{
  window, fill, length-fill, window-fill, window-append, take-window, window-eq-take, next-mod,
}
use esp_slip_router.Uart.{
  UartBuffer, rx_enq_loop, uart_rx_buff_enq, deq_len, deq_straight, deq_round, deq_two, deq_bytes,
  rx_buff_deq, uart_fifo_len,
}
use esp_slip_router.Uart.Inv.{IsValid, used, queue}
use esp_slip_router.Uart.Tx.{Appended, Taken, advance, advance-Taken}

-- The receive buffer never fills up: one byte stays free.
pub record RxValid (rx : UartBuffer) : Type 0 where
  pub valid : IsValid rx
  pub not_full : 0 < rx.space

rx_enq_loop_lem :
    (xs : List ℕ) (rx : UartBuffer)
    → rx.in_pos < rx.uart_buff_size
    → rx_enq_loop rx xs ≡ record rx {
      uart_buff = fill rx.uart_buff rx.uart_buff_size rx.in_pos xs;
      in_pos = (rx.in_pos + length xs) % rx.uart_buff_size;
    }
unfolding rx_enq_loop fill
rx_enq_loop_lem [] rx h = ap (λ i. record rx { in_pos = i }) (sym (rw (add-zero, mod-eq_of_lt h)))
rx_enq_loop_lem (x ∷ xs) rx h =
    ap (λ i. rx_enq_loop (record rx { uart_buff = set rx.uart_buff rx.in_pos x; in_pos = i }) xs)
      (next-mod rx.uart_buff_size rx.in_pos h)
    ∙ rx_enq_loop_lem xs _ (mod-lt (rx.in_pos + 1) (omega arith))
    ∙ ap
        (λ i. record rx {
          uart_buff =
              fill (set rx.uart_buff rx.in_pos x) rx.uart_buff_size
                ((rx.in_pos + 1) % rx.uart_buff_size) xs;
          in_pos = i;
        })
        (mod-add-mod (rx.in_pos + 1) rx.uart_buff_size (length xs)
          ∙ ap (λ i. i % rx.uart_buff_size) (omega arith))

in_lt : {b : UartBuffer} → IsValid b → b.in_pos < b.uart_buff_size
in_lt {b} v = omega (arith, v.in_eq, mod-lt (b.out_pos + used b) v.some_room)

-- `Uart_rx_buff_enq` with room for what the FIFO holds, and a byte to spare: all of it is appended.
pub uart_rx_buff_enq-Appended :
    (fifo : List ℕ) {rx : UartBuffer}
    → RxValid rx
    → length fifo < 256
    → length fifo < rx.space
    → Appended rx fifo (uart_rx_buff_enq rx fifo) × RxValid (uart_rx_buff_enq rx fifo)
unfolding uart_rx_buff_enq
uart_rx_buff_enq-Appended fifo {rx} r h k =
    rw (room, all, rx_enq_loop_lem fifo rx (in_lt r.valid))
      (appended, record { valid = appended.valid; not_full = omega arith })
  where
    room : leb rx.space (u8 (length fifo)) ≡ false
    room = ground arith

    all : take (u8 (length fifo)) fifo ≡ fifo
    all = take-length (u8 (length fifo)) fifo (omega arith)

    appended : Appended rx fifo (record rx {
      uart_buff = fill rx.uart_buff rx.uart_buff_size rx.in_pos fifo;
      in_pos = (rx.in_pos + length fifo) % rx.uart_buff_size;
      space = u16 (rx.space + 65536 - u8 (length fifo));
    })
    appended = record {
      valid = record {
        storage = omega (arith, length-fill fifo rx.uart_buff rx.uart_buff_size rx.in_pos);
        some_room = r.valid.some_room;
        small = r.valid.small;
        out_in = r.valid.out_in;
        space_in = omega arith;
        in_eq =
            ap (λ i. (i + length fifo) % rx.uart_buff_size) r.valid.in_eq
            ∙ mod-add-mod (rx.out_pos + used rx) rx.uart_buff_size (length fifo)
            ∙ ap (λ i. i % rx.uart_buff_size) (omega arith);
      };
      size = refl;
      room = omega arith;
      bytes =
          ap (window _ rx.uart_buff_size rx.out_pos) (omega arith)
          ∙ window-fill fifo rx.uart_buff rx.uart_buff_size rx.out_pos (used rx) rx.in_pos
              r.valid.storage r.valid.out_in (omega arith) r.valid.in_eq;
    }

deq_round_lem :
    (n : ℕ) (rx : UartBuffer)
    → rx.uart_buff_size ≡ length rx.uart_buff
    → rx.out_pos + n ≤ rx.uart_buff_size
    → deq_round rx n ≡ (window rx.uart_buff rx.uart_buff_size rx.out_pos n, advance rx n)
unfolding deq_round
deq_round_lem n rx e h =
    ap (λ l. (l, advance rx n))
      (sym (window-eq-take rx.uart_buff rx.uart_buff_size n rx.out_pos e h))

-- While the output position is not past the input position, the bytes do not go round.
straight :
    {rx : UartBuffer}
    → RxValid rx
    → rx.out_pos ≤ rx.in_pos
    → rx.out_pos + used rx < rx.uart_buff_size
straight {rx} r h = elim (dec_lt (rx.out_pos + used rx) rx.uart_buff_size) [
  | yes p ↦ p
  | no p ↦ absurd (
      omega (
        arith,
        r.valid.in_eq,
        mod-eq-sub-mod {n = rx.out_pos + used rx} {m = rx.uart_buff_size} (omega arith),
        mod-eq_of_lt {n = rx.out_pos + used rx - rx.uart_buff_size} {m = rx.uart_buff_size}
            (omega arith),
      ))
]

deq_straight_lem :
    (n : ℕ) {rx : UartBuffer}
    → RxValid rx
    → rx.out_pos ≤ rx.in_pos
    → n ≤ used rx
    → deq_straight rx n ≡ (window rx.uart_buff rx.uart_buff_size rx.out_pos n, advance rx n)
unfolding deq_straight
deq_straight_lem n {rx} r h k =
    ap₂ (λ l o. (l, record rx { out_pos = o; space = u16 (rx.space + n) }))
      (sym (
        window-eq-take rx.uart_buff rx.uart_buff_size n rx.out_pos r.valid.storage
          (omega (arith, straight r h))))
      (sym
        (mod-eq_of_lt {n = rx.out_pos + n} {m = rx.uart_buff_size} (omega (arith, straight r h))))

advance-advance :
    (n m k : ℕ) (rx : UartBuffer) → n + m ≡ k → advance (advance rx n) m ≡ advance rx k
advance-advance n m k rx e =
    ap₂ (λ o s. record rx { out_pos = o; space = s })
      (mod-add-mod (rx.out_pos + n) rx.uart_buff_size m
        ∙ ap (λ i. i % rx.uart_buff_size) (omega arith))
      (omega arith)

two_rounds :
    (t n : ℕ) {rx : UartBuffer}
    → RxValid rx
    → rx.out_pos + t ≡ rx.uart_buff_size
    → t < n
    → n ≤ used rx
    → deq_two rx t n ≡ (window rx.uart_buff rx.uart_buff_size rx.out_pos n, advance rx n)
unfolding deq_two
two_rounds t n {rx} r e k h =
    ap (λ p. (p.0 ++ (deq_round p.1 (n - t)).0, (deq_round p.1 (n - t)).1))
      (deq_round_lem t rx r.valid.storage (omega arith))
    ∙ ap (λ p. (window rx.uart_buff rx.uart_buff_size rx.out_pos t ++ p.0, p.1))
        (deq_round_lem (n - t) (advance rx t) r.valid.storage (omega (arith, start_again)))
    ∙ ap₂ (λ l o. (l, o))
        (sym (window-append rx.uart_buff rx.uart_buff_size t rx.out_pos (n - t) r.valid.out_in)
          ∙ ap (window rx.uart_buff rx.uart_buff_size rx.out_pos) (omega arith))
        (advance-advance t (n - t) n rx (omega arith))
  where
    start_again : (rx.out_pos + t) % rx.uart_buff_size ≡ 0
    start_again = rw e (
        mod-eq-sub-mod {n = rx.uart_buff_size} {m = rx.uart_buff_size} (omega arith)
        ∙ ap (λ i. i % rx.uart_buff_size) {y = 0} (omega arith)
        ∙ mod-eq_of_lt r.valid.some_room)

deq_bytes_lem :
    (n : ℕ) {rx : UartBuffer}
    → RxValid rx
    → n ≤ used rx
    → deq_bytes rx n ≡ (window rx.uart_buff rx.uart_buff_size rx.out_pos n, advance rx n)
unfolding deq_bytes
deq_bytes_lem n {rx} r h = elim (Bool-cases (leb rx.out_pos rx.in_pos)) [
  | inl e ↦ rw e (deq_straight_lem n r (leb→le _ _ e) h)
  | inr e ↦ elim (Bool-cases (ltb (u16 (rx.uart_buff_size - rx.out_pos)) n)) [
    | inl f ↦
        rw (e, f)
          (two_rounds (u16 (rx.uart_buff_size - rx.out_pos)) n r (omega arith) (ltb→lt _ _ f) h)
    | inr f ↦ rw (e, f) (deq_round_lem n rx r.valid.storage (ground arith))
  ]
]

-- `rx_buff_deq` hands out the oldest bytes in order, as many as are asked for and wait, and leaves a
-- valid buffer with the others. It enables the interrupt when a full FIFO has room again.
pub rx_buff_deq_lem :
    (data_len : ℕ) {rx : UartBuffer}
    → RxValid rx
    → let n = min (used rx) data_len in
      (rx' : UartBuffer) × (rx_buff_deq rx data_len
        ≡ (take n (queue rx), rx', leb uart_fifo_len rx'.space))
      × Taken rx n rx'
      × RxValid rx'
unfolding rx_buff_deq
rx_buff_deq_lem data_len {rx} r =
    let t = advance-Taken n r.valid (omega arith) in
    (
      advance rx n,
      ap (λ (p : List ℕ × UartBuffer). (p.0, p.1, leb uart_fifo_len p.1.space)) ran,
      t,
      record { valid = t.valid; not_full = omega (arith, t.room) },
    )
  where
    n : ℕ
    n = min (used rx) data_len

    count : deq_len rx data_len ≡ n
    count = unfold deq_len in ground arith

    ran : deq_bytes rx (deq_len rx data_len) ≡ (take n (queue rx), advance rx n)
    ran =
        ap (deq_bytes rx) count
        ∙ deq_bytes_lem n r (omega arith)
        ∙ ap (λ l. (l, advance rx n))
            (sym (
              take-window rx.uart_buff rx.uart_buff_size n rx.out_pos (used rx) (used rx - n)
                (omega arith)))

-- What the FIFO held is read back unchanged through an empty buffer, which is empty again.
pub uart_rx_buff_enq-rx_buff_deq :
    (fifo : List ℕ) {rx : UartBuffer}
    → RxValid rx
    → used rx ≡ 0
    → length fifo < 256
    → length fifo < rx.space
    → (rx' : UartBuffer) × (rx_buff_deq (uart_rx_buff_enq rx fifo) (length fifo)
        ≡ (fifo, rx', leb uart_fifo_len rx'.space))
      × (used rx' ≡ 0)
uart_rx_buff_enq-rx_buff_deq fifo {rx} r e h k =
    let (a, r') = uart_rx_buff_enq-Appended fifo r h k in
    let (rx', ran, t, _) = rx_buff_deq_lem (length fifo) r' in
    let all : queue (uart_rx_buff_enq rx fifo) ≡ fifo =
      a.bytes ∙ ap (λ n. window rx.uart_buff rx.uart_buff_size rx.out_pos n ++ fifo) e in
    let n : min (used (uart_rx_buff_enq rx fifo)) (length fifo) ≡ length fifo =
      omega (arith, a.room, a.size, a.valid.space_in) in
    (
      rx',
      ran
          ∙ ap₂ (λ k l. (take k l, rx', leb uart_fifo_len rx'.space)) n all
          ∙ ap (λ l. (l, rx', leb uart_fifo_len rx'.space))
              (take-length (length fifo) fifo (omega arith)),
      omega (arith, a.room, a.size, t.room, t.size, a.valid.space_in),
    )
