-- ===== src/Port/Wait.antt =====
-- UART_WaitTxFifoEmpty: when the loop ends.
use esp_slip_router.Port.{Look, wait_loop, fed_once}
use esp_slip_router.Prelude.{
  ℕ, ◌≡◌, ◌≤◌, ◌<◌, ◌⊎◌, inl, inr, refl, ◌∙◌, ap, true, false, some, List, [], ◌∷◌, ◌++◌, ltb, ◌==◌,
  length, sub32, arith,
}

-- a look at which the loop goes on: the FIFO is not empty and the time is not out
abbrev pub Waits : ℕ → ℕ → Look → Type 0
Waits t_s time_out_us l = (0 < l.tx_fifo_len) × (sub32 l.time t_s ≤ time_out_us)

pub data AllWait (t_s time_out_us : ℕ) : List Look → Type 0 where
  no_look : AllWait t_s time_out_us []
  one_more :
      {l : Look} {looks : List Look}
      → Waits t_s time_out_us l
      → AllWait t_s time_out_us looks
      → AllWait t_s time_out_us (l ∷ looks)

goes_on :
    (t_s time_out_us : ℕ) (l : Look) (looks : List Look)
    → Waits t_s time_out_us l
    → wait_loop t_s time_out_us (l ∷ looks) ≡ fed_once (wait_loop t_s time_out_us looks)
unfolding wait_loop
goes_on t_s out l looks (busy, in_time) =
    let e : (l.tx_fifo_len == 0) ≡ false = ground arith in
    let f : ltb out (sub32 l.time t_s) ≡ false = ground arith in rw (e, f) refl

-- UART_WaitTxFifoEmpty ends at the first look that finds the FIFO empty or the time out, and not
-- before; it has then fed the watchdog once for each look before that.
pub wait_loop_lem :
    (t_s time_out_us : ℕ) (before : List Look) (l : Look) (later : List Look)
    → AllWait t_s time_out_us before
    → (l.tx_fifo_len ≡ 0) ⊎ (time_out_us < sub32 l.time t_s)
    → wait_loop t_s time_out_us (before ++ l ∷ later) ≡ some (length before)
unfolding wait_loop
wait_loop_lem t_s out [] l later no_look (inl h) =
    let e : (l.tx_fifo_len == 0) ≡ true = ground arith in rw e refl
wait_loop_lem t_s out [] l later no_look (inr h) = ground arith
wait_loop_lem t_s out (b ∷ before) l later (one_more w ws) ends =
    goes_on t_s out b (before ++ l ∷ later) w
    ∙ ap fed_once (wait_loop_lem t_s out before l later ws ends)
