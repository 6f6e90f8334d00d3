-- ===== src/Port/Sends.antt =====
-- The polling functions of driver/uart.c send what they are given, once the port is ready often enough.
use esp_slip_router.Prelude.{
  ℕ, ◌+◌, ◌≤◌, ◌<◌, ◌≡◌, refl, sym, ◌∙◌, ap, Bool, true, false, ◌&&◌, Option, some, List, [], ◌∷◌,
  ◌++◌, append-nil, append_assoc, arith, length, length-append, ltb, ◌==◌, Bool-cases, inl, inr,
  if◌then◌else◌, sub32,
}
use esp_slip_router.Port.{
  Port, Look, tx_loop, uart_tx_one_char, and_then, uart_write_char, uart0_tx_buffer, check_loop,
}

-- how often the port is ready
unfoldable pub ready : List ℕ → ℕ
ready [] = 0
ready (cnt ∷ counts) = let n = ready counts in if ltb cnt 126 then n + 1 else n

-- `bytes` are sent, each in a moment at which the port is ready
pub record Sends (bytes : List ℕ) (p : Port) (o : Option Port) : Type 0 where
  pub after : Port
  pub ends : o ≡ some after
  pub sent : after.sent ≡ p.sent ++ bytes
  pub left : ready after.counts + length bytes ≡ ready p.counts

ready_more :
    (cnt : ℕ) (counts : List ℕ) → ltb cnt 126 ≡ true → ready (cnt ∷ counts) ≡ ready counts + 1
unfolding ready
ready_more cnt counts e = rw e refl

ready_same : (cnt : ℕ) (counts : List ℕ) → ltb cnt 126 ≡ false → ready (cnt ∷ counts) ≡ ready counts
unfolding ready
ready_same cnt counts e = rw e refl

tx_loop-Sends :
    (c : ℕ) (counts sent : List ℕ)
    → 0 < ready counts
    → Sends (c ∷ []) (record { counts = counts; sent = sent }) (tx_loop c counts sent)
unfolding tx_loop
tx_loop-Sends c [] sent h = unfold ready in ground arith
tx_loop-Sends c (cnt ∷ counts) sent h = elim (Bool-cases (ltb cnt 126)) [
  | inl e ↦ record {
    after = record { counts = counts; sent = sent ++ c ∷ [] };
    ends = rw e refl;
    sent = refl;
    left = sym (ready_more cnt counts e);
  }
  | inr e ↦
      let s = tx_loop-Sends c counts sent (omega (arith, ready_same cnt counts e)) in
      record {
        after = s.after;
        ends = rw e s.ends;
        sent = s.sent;
        left = s.left ∙ sym (ready_same cnt counts e);
      }
]

one-Sends : (c : ℕ) (p : Port) → 0 < ready p.counts → Sends (c ∷ []) p (uart_tx_one_char c p)
unfolding uart_tx_one_char
one-Sends c p h = tx_loop-Sends c p.counts p.sent h

and_then-Sends :
    (f : Port → Option Port) (xs ys : List ℕ) (p : Port) {o : Option Port}
    → Sends xs p o
    → ((q : Port) → length ys ≤ ready q.counts → Sends ys q (f q))
    → length xs + length ys ≤ ready p.counts
    → Sends (xs ++ ys) p (and_then o f)
and_then-Sends f xs ys p s t h =
    let u = t s.after (omega (arith, s.left)) in
    record {
      after = u.after;
      ends = ap (λ o. and_then o f) s.ends ∙ u.ends;
      sent = u.sent ∙ ap (λ l. l ++ ys) s.sent ∙ append_assoc p.sent xs ys;
      left = omega (arith, s.left, u.left, length-append xs ys);
    }

-- `uart0_tx_buffer` sends its bytes in order and ends, if the port is ready once for each of them.
pub uart0_tx_buffer-Sends :
    (buf : List ℕ) (p : Port) → length buf ≤ ready p.counts → Sends buf p (uart0_tx_buffer buf p)
unfolding uart0_tx_buffer
uart0_tx_buffer-Sends [] p h = record {
  after = p;
  ends = refl;
  sent = sym (append-nil p.sent);
  left = omega arith;
}
uart0_tx_buffer-Sends (c ∷ buf) p h =
    and_then-Sends (uart0_tx_buffer buf) (c ∷ []) buf p (one-Sends c p (ground arith))
      (uart0_tx_buffer-Sends buf) (ground arith)

-- what is printed for a character: a line feed gets its carriage return, and others are dropped
unfoldable pub printed : ℕ → List ℕ
printed c = if c == b'\n' then b'\r' ∷ b'\n' ∷ [] else if c == b'\r' then [] else c ∷ []

-- `uart0_write_char` and `uart1_write_char` send a line feed as carriage return and line feed, drop a
-- carriage return, and send any other character, if the port is ready twice.
pub uart_write_char-Sends :
    (c : ℕ) (p : Port) → 2 ≤ ready p.counts → Sends (printed c) p (uart_write_char c p)
unfolding uart_write_char printed
uart_write_char-Sends c p h = elim (Bool-cases (c == b'\n')) [
  | inl e ↦ rw e (
      and_then-Sends (uart_tx_one_char b'\n') (b'\r' ∷ []) (b'\n' ∷ []) p
        (one-Sends b'\r' p (omega arith)) (λ q k. one-Sends b'\n' q (ground arith)) (ground arith))
  | inr e ↦ elim (Bool-cases (c == b'\r')) [
    | inl f ↦
        rw (e, f)
          (record { after = p; ends = refl; sent = sym (append-nil p.sent); left = omega arith })
    | inr f ↦ rw (e, f) (one-Sends c p (omega arith))
  ]
]

-- `UART_CheckOutputFinished` answers by the first look after the time-out, whatever it finds.
pub check_loop-answers :
    (t_start time_out_us : ℕ) (before : List Look) (l : Look) (later : List Look)
    → ltb time_out_us (sub32 l.time t_start) ≡ true
    → (b : Bool) × (check_loop t_start time_out_us (before ++ l ∷ later) ≡ some b)
unfolding check_loop
check_loop-answers t_start out [] l later e =
    elim (Bool-cases (l.tx_fifo_len == 0 && l.tx_buff_len == 0)) [
      | inl f ↦ (true, rw f refl)
      | inr f ↦ (false, rw (f, e) refl)
    ]
check_loop-answers t_start out (b ∷ before) l later e =
    elim (Bool-cases (b.tx_fifo_len == 0 && b.tx_buff_len == 0)) [
      | inl f ↦ (true, rw f refl)
      | inr f ↦ elim (Bool-cases (ltb out (sub32 b.time t_start))) [
        | inl g ↦ (false, rw (f, g) refl)
        | inr g ↦
            let (answer, ends) = check_loop-answers t_start out before l later e in
            (answer, rw (f, g) ends)
      ]
    ]
