-- ===== src/Uart/Unload.antt =====
-- The receive interrupt of driver/uart.c: `external_unload` and the handler that calls it.
use esp_slip_router.Prelude.{
  ℕ, ◌+◌, ◌<◌, ◌≡◌, refl, ◌∙◌, ap, ap₂, true, false, ◌||◌, some, List, [], ◌∷◌, arith, length,
  take-length, Bool-cases, inl, inr, drop-length, u8,
}
use mathlib.Core.List.{foldl}
use esp_slip_router.Uart.{Uart, IntStatus, unload_loop, external_unload, uart0_rx_intr_handler}

module _ {S : Type 0} (fn : S → ℕ → S) where
  unload_loop-foldl : (xs : List ℕ) (s : S) → unload_loop (some fn) xs s ≡ foldl fn s xs
  unfolding unload_loop
  unload_loop-foldl [] s = refl
  unload_loop-foldl (x ∷ xs) s = unload_loop-foldl xs (fn s x)

  unload_all :
      (u : Uart) (s : S)
      → length u.rx_fifo < 256
      → external_unload (some fn) u s ≡ (
        record u { rx_fifo = []; uart_int = true; signals = u.signals + 1 },
        foldl fn s u.rx_fifo,
      )
  unfolding external_unload
  unload_all u s h =
      ap₂
        (λ rest first. (
          record u { rx_fifo = rest; uart_int = true; signals = u.signals + 1 },
          unload_loop (some fn) first s,
        ))
        (drop-length (u8 (length u.rx_fifo)) u.rx_fifo (omega arith))
        (take-length (u8 (length u.rx_fifo)) u.rx_fifo (omega arith))
      ∙ ap (λ t. (record u { rx_fifo = []; uart_int = true; signals = u.signals + 1 }, t))
          (unload_loop-foldl u.rx_fifo s)

  -- A full FIFO or a timeout, with no framing error pending: every byte of the FIFO goes through the
  -- callback once and in order, the FIFO is empty, the interrupt is enabled again, and the
  -- main task is sent one signal.
  pub uart0_rx_intr_handler-unload :
      (st : IntStatus) (fifo_cnt : ℕ) (u : Uart) (s : S)
      → st.frm_err ≡ false
      → (st.rxfifo_full || st.rxfifo_tout) ≡ true
      → length u.rx_fifo < 256
      → uart0_rx_intr_handler (some fn) st fifo_cnt u s ≡ (
        record u { rx_fifo = []; uart_int = true; signals = u.signals + 1 },
        foldl fn s u.rx_fifo,
      )
  unfolding uart0_rx_intr_handler
  uart0_rx_intr_handler-unload st fifo_cnt u s e f h = elim (Bool-cases st.rxfifo_full) [
    | inl full ↦ rw (e, full) (unload_all (record u { uart_int = false }) s h)
    | inr quiet ↦
        let tout : st.rxfifo_tout ≡ true = ground arith in
        rw (e, quiet, tout) (unload_all (record u { uart_int = false }) s h)
  ]
