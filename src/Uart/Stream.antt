-- ===== src/Uart/Stream.antt =====
-- The transmit path of driver/uart.c as a whole: `tx_buff_enq` and the transmitter's empty interrupt,
-- in any order, against a bounded queue.
use esp_slip_router.Prelude.{
  length-eq_zero, ℕ, zero, suc, ◌+◌, ◌-◌, ◌*◌, ◌≤◌, ◌<◌, ◌≡◌, refl, sym, ◌∙◌, ap, ap₂, Bool, true,
  false, some, none, List, [], ◌∷◌, ◌++◌, append_assoc, append-nil, arith, length, length-drop,
  take-append-drop, take, drop, min, ltb, leb, Bool-cases, leb→le, inl, inr, if◌then◌else◌, u8, u16,
  replicate,
}
use esp_slip_router.Window.{length-window}
use esp_slip_router.Uart.{
  Uart, UartBuffer, uart_fifo_len, tx_buff_enq, enq_buffer, uart_buf_cpy, tx_fifo_insert,
  tx_start_uart_buffer, start, uart0_rx_intr_handler, IntStatus,
}
use esp_slip_router.Uart.Inv.{IsValid, used, queue}
use esp_slip_router.Uart.Tx.{Taken, uart_buf_cpy-Appended, tx_fifo_insert_lem, tx_len_lem}

-- What happens to the transmitter: a write of some bytes, or an empty interrupt that finds
-- `cnt` bytes in the FIFO.
pub data TxEvent : Type 0 where
  write : List ℕ → TxEvent
  fifo_empty : ℕ → TxEvent

abbrev only_txfifo_empty : IntStatus
only_txfifo_empty = record {
  frm_err = false;
  rxfifo_full = false;
  rxfifo_tout = false;
  txfifo_empty = true;
  rxfifo_ovf = false;
}

module _ (heap : ℕ) (storage : ℕ → List ℕ) where
  unfoldable pub step : Uart → TxEvent → Uart
  unfolding tx_buff_enq uart0_rx_intr_handler
  step u (write xs) = tx_buff_enq heap storage u xs
  step u (fifo_empty cnt) = (uart0_rx_intr_handler {S = Unit {0}} none only_txfifo_empty cnt u tt).0

  unfoldable pub run : Uart → List TxEvent → Uart
  unfolding step
  run u [] = u
  run u (e ∷ es) = run (step u e) es

-- The specification: bytes that wait, and bytes handed to the FIFO. A write that does not
-- fit is dropped whole.
pub record TxQueue : Type 0 where
  pub pending : List ℕ
  pub sent : List ℕ

module _ (cap : ℕ) where
  unfoldable pub spec_step : TxQueue → TxEvent → TxQueue
  spec_step q (write xs) =
      if leb (length q.pending + length xs) cap then record q { pending = q.pending ++ xs } else q
  spec_step q (fifo_empty cnt) =
      let n = min (length q.pending) (uart_fifo_len - cnt) in
      record { pending = drop n q.pending; sent = q.sent ++ take n q.pending }

  unfoldable pub spec_run : TxQueue → List TxEvent → TxQueue
  spec_run q [] = q
  spec_run q (e ∷ es) = spec_run (spec_step q e) es

-- The driver holds the queue `q`; while bytes wait, the empty interrupt is enabled.
pub record Implements (cap : ℕ) (u : Uart) (q : TxQueue) : Type 0 where
  pub b : UartBuffer
  pub buffer : u.tx_buffer ≡ some b
  pub valid : IsValid b
  pub size : b.uart_buff_size ≡ cap
  pub waiting : queue b ≡ q.pending
  pub sent : u.sent ≡ q.sent
  pub live : 0 < length q.pending → u.tx_empty_int ≡ true

pub length-queue : (b : UartBuffer) → length (queue b) ≡ used b
length-queue b = length-window b.uart_buff b.uart_buff_size b.out_pos (used b)

pub write-Implements :
    (heap : ℕ) (storage : ℕ → List ℕ) (xs : List ℕ) {cap : ℕ} {u : Uart} {q : TxQueue}
    → Implements cap u q
    → Implements cap (tx_buff_enq heap storage u xs) (spec_step cap q (write xs))
unfolding tx_buff_enq enq_buffer spec_step
write-Implements heap storage xs {cap} {u} {q} i = elim (Bool-cases (leb (length xs) i.b.space)) [
  | inl e ↦
      let a = uart_buf_cpy-Appended xs i.valid (leb→le _ _ e) in
      let fits : leb (length q.pending + length xs) cap ≡ true = ground (arith, count) in
      rw fits (record {
        b = uart_buf_cpy i.b xs;
        buffer =
            ap (λ t. enq_buffer heap storage t xs) i.buffer
            ∙ ap (λ t. some (if t then uart_buf_cpy i.b xs else i.b)) e;
        valid = a.valid;
        size = a.size ∙ i.size;
        waiting = a.bytes ∙ ap (λ l. l ++ xs) i.waiting;
        sent = i.sent;
        live = λ _. refl;
      })
  | inr e ↦
      let full : leb (length q.pending + length xs) cap ≡ false = ground (arith, count) in
      rw full (record {
        b = i.b;
        buffer =
            ap (λ t. enq_buffer heap storage t xs) i.buffer
            ∙ ap (λ t. some (if t then uart_buf_cpy i.b xs else i.b)) e;
        valid = i.valid;
        size = i.size;
        waiting = i.waiting;
        sent = i.sent;
        live = λ _. refl;
      })
]
  where
    count : length q.pending ≡ used i.b
    count = ap length (sym i.waiting) ∙ length-queue i.b

-- What `tx_start_uart_buffer` does with a buffer.
tx_start_lem :
    (cnt : ℕ) (u : Uart) {b : UartBuffer}
    → u.tx_buffer ≡ some b
    → IsValid b
    → cnt ≤ uart_fifo_len
    → let n = min (used b) (uart_fifo_len - cnt) in
      (b' : UartBuffer) × (tx_start_uart_buffer u cnt ≡ record u {
        tx_buffer = some b';
        sent = u.sent ++ take n (queue b);
        tx_empty_int = if ltb (uart_fifo_len - cnt) (used b) then true else u.tx_empty_int;
      })
      × Taken b n b'
unfolding tx_start_uart_buffer start
tx_start_lem cnt u {b} e v h =
    let (b', moved, t) = tx_fifo_insert_lem n u.sent v (omega arith) in
    (
      b',
      ap (λ o. start o u cnt) e
          ∙ ap₂
              (λ (p : UartBuffer × List ℕ) (more : Bool). record u {
                tx_buffer = some p.0;
                sent = p.1;
                tx_empty_int = if more then true else u.tx_empty_int;
              })
              (ap (λ k. tx_fifo_insert b k u.sent) (tx_len_lem cnt v h) ∙ moved)
              (ap₂ ltb {x = u8 (uart_fifo_len + 256 - cnt)} {u = u16 (b.uart_buff_size - b.space)}
                (omega arith) (omega arith)),
      t,
    )
  where
    n : ℕ
    n = min (used b) (uart_fifo_len - cnt)

fifo_empty-Implements :
    (heap : ℕ) (storage : ℕ → List ℕ) (cnt : ℕ) {cap : ℕ} {u : Uart} {q : TxQueue}
    → cnt ≤ uart_fifo_len
    → Implements cap u q
    → Implements cap (step heap storage u (fifo_empty cnt)) (spec_step cap q (fifo_empty cnt))
unfolding step uart0_rx_intr_handler spec_step
fifo_empty-Implements heap storage cnt {cap} {u} {q} h i =
    let (b', ran, t) = tx_start_lem cnt (record u { tx_empty_int = false }) i.buffer i.valid h in
    rw ran (record {
      b = b';
      buffer = refl;
      valid = t.valid;
      size = t.size ∙ i.size;
      waiting = t.bytes ∙ ap₂ drop same i.waiting;
      sent = ap₂ ◌++◌ i.sent (ap₂ take same i.waiting);
      live = λ p.
          ground
            (arith, length-drop (min (length q.pending) (uart_fifo_len - cnt)) q.pending, count);
    })
  where
    count : length q.pending ≡ used i.b
    count = ap length (sym i.waiting) ∙ length-queue i.b

    same : min (used i.b) (uart_fifo_len - cnt) ≡ min (length q.pending) (uart_fifo_len - cnt)
    same = omega (arith, count)

-- the count that an empty interrupt finds is at most the FIFO's length
abbrev pub InFifo : List TxEvent → Type 0
InFifo [] = Unit
InFifo (write xs ∷ es) = InFifo es
InFifo (fifo_empty cnt ∷ es) = (cnt ≤ uart_fifo_len) × InFifo es

-- Whatever is written and whenever the empty interrupt comes, the driver's buffer is the bounded
-- queue that drops a write which does not fit: it hands the same bytes to the FIFO in the same order
-- and holds the same bytes back. The interrupt is enabled whenever bytes wait.
pub run-Implements :
    (heap : ℕ) (storage : ℕ → List ℕ) (es : List TxEvent) {cap : ℕ} {u : Uart} {q : TxQueue}
    → InFifo es
    → Implements cap u q
    → Implements cap (run heap storage u es) (spec_run cap q es)
unfolding run spec_run
run-Implements heap storage [] h i = i
run-Implements heap storage (write xs ∷ es) h i =
    run-Implements heap storage es h (unfold step in write-Implements heap storage xs i)
run-Implements heap storage (fifo_empty cnt ∷ es) h i =
    run-Implements heap storage es h.1 (fifo_empty-Implements heap storage cnt h.0 i)

-- The data of the writes that the queue takes.
unfoldable pub accepted : ℕ → TxQueue → List TxEvent → List ℕ
accepted cap q [] = []
accepted cap q (write xs ∷ es) =
    (if leb (length q.pending + length xs) cap then xs else [])
    ++ accepted cap (spec_step cap q (write xs)) es
accepted cap q (fifo_empty cnt ∷ es) = accepted cap (spec_step cap q (fifo_empty cnt)) es

take-drop-sent :
    (n : ℕ) (sent pending : List ℕ) → (sent ++ take n pending) ++ drop n pending ≡ sent ++ pending
take-drop-sent n sent pending =
    append_assoc sent (take n pending) (drop n pending)
    ∙ ap (λ l. sent ++ l) (take-append-drop n pending)

write-accepted :
    (cap : ℕ) (xs : List ℕ) (q : TxQueue)
    → (spec_step cap q (write xs)).sent ++ (spec_step cap q (write xs)).pending
      ≡ (q.sent ++ q.pending) ++ (if leb (length q.pending + length xs) cap then xs else [])
unfolding spec_step
write-accepted cap xs q = elim (Bool-cases (leb (length q.pending + length xs) cap)) [
  | inl e ↦ rw e (sym (append_assoc q.sent q.pending xs))
  | inr e ↦ rw e (sym (append-nil _))
]

spec_run-accepted :
    (cap : ℕ) (es : List TxEvent) (q : TxQueue)
    → (spec_run cap q es).sent ++ (spec_run cap q es).pending
      ≡ (q.sent ++ q.pending) ++ accepted cap q es
unfolding spec_run accepted
spec_run-accepted cap [] q = sym (append-nil _)
spec_run-accepted cap (write xs ∷ es) q =
    spec_run-accepted cap es (spec_step cap q (write xs))
    ∙ ap (λ l. l ++ accepted cap (spec_step cap q (write xs)) es) (write-accepted cap xs q)
    ∙ append_assoc (q.sent ++ q.pending) _ _
spec_run-accepted cap (fifo_empty cnt ∷ es) q =
    spec_run-accepted cap es (spec_step cap q (fifo_empty cnt))
    ∙ ap (λ l. l ++ accepted cap (spec_step cap q (fifo_empty cnt)) es)
        (unfold spec_step in
          take-drop-sent (min (length q.pending) (uart_fifo_len - cnt)) q.sent q.pending)

-- Nothing is lost, doubled or reordered: what was handed to the FIFO followed by what still waits is
-- what there was at the start followed by the data of the accepted writes.
pub run-accepted :
    (heap : ℕ) (storage : ℕ → List ℕ) (es : List TxEvent) {cap : ℕ} {u : Uart} {q : TxQueue}
    → InFifo es
    → Implements cap u q
    → (b : UartBuffer) × ((run heap storage u es).tx_buffer ≡ some b)
      × ((run heap storage u es).sent ++ queue b ≡ (q.sent ++ q.pending) ++ accepted cap q es)
run-accepted heap storage es {cap} {u} {q} h i =
    let j = run-Implements heap storage es h i in
    (j.b, j.buffer, ap₂ ◌++◌ j.sent j.waiting ∙ spec_run-accepted cap es q)

spec_drain :
    (cap k : ℕ) (q : TxQueue)
    → length q.pending ≤ 128 * k
    → spec_run cap q (replicate k (fifo_empty 0))
      ≡ record { pending = []; sent = q.sent ++ q.pending }
unfolding spec_run spec_step
spec_drain cap zero q h =
    let e : q.pending ≡ [] = length-eq_zero q.pending (omega arith) in
    ap₂ (λ p s. record { pending = p; sent = s }) e
      (sym (append-nil q.sent) ∙ ap (λ l. q.sent ++ l) (sym e))
spec_drain cap (suc k) q h =
    spec_drain cap k (spec_step cap q (fifo_empty 0))
      (omega (arith, length-drop (min (length q.pending) 128) q.pending))
    ∙ ap (λ s. record { pending = []; sent = s })
        (take-drop-sent (min (length q.pending) 128) q.sent q.pending)

replicate-InFifo : (k : ℕ) → InFifo (replicate k (fifo_empty 0))
replicate-InFifo zero = tt
replicate-InFifo (suc k) = (omega arith, replicate-InFifo k)

-- Enough empty interrupts, one for each 128 bytes that wait, hand everything to the FIFO.
pub run_drains :
    (heap : ℕ) (storage : ℕ → List ℕ) (k : ℕ) {cap : ℕ} {u : Uart} {q : TxQueue}
    → Implements cap u q
    → length q.pending ≤ 128 * k
    → (run heap storage u (replicate k (fifo_empty 0))).sent ≡ q.sent ++ q.pending
run_drains heap storage k {cap} {u} {q} i h =
    (run-Implements heap storage (replicate k (fifo_empty 0)) (replicate-InFifo k) i).sent
    ∙ ap (λ s. s.sent) (spec_drain cap k q h)
