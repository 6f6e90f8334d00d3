-- ===== src/Simple/Received.antt =====
-- The way of the received bytes in the minimal router: from the interrupt handler of driver/uart.c to
-- the SLIP interface.
use esp_slip_router.Simple.{SlipIf, uart0_signal, loop, user_init, write_to_pbuf}
use esp_slip_router.Softuart.{Softuart}
use esp_slip_router.Uart.{Uart, IntStatus, uart0_rx_intr_handler}
use esp_slip_router.Uart.Unload.{uart0_rx_intr_handler-unload}
use mathlib.Core.List.{foldl}
use esp_slip_router.Prelude.{
  ℕ, zero, suc, ◌+◌, ◌-◌, ◌<◌, ◌≡◌, ap, ◌∙◌, true, false, ◌||◌, Option, List, [], length, arith,
}

-- The task takes the signals that were posted, one after the other.
unfoldable pub take_signals : {N : Type 0} → SlipIf N → ℕ → N → N
unfolding loop
take_signals slip zero n = n
take_signals slip (suc k) n = take_signals slip k (loop slip uart0_signal n)

-- Once user_init has run, an interrupt for a full FIFO or a timeout, with no framing error pending,
-- and the task after it hand every byte of the FIFO to the SLIP interface, once and in order, and
-- then look for a packet once.
pub interrupt-loop :
    {N : Type 0} (slip : SlipIf N) (gpio : ℕ → ℕ × ℕ) (softuart : Softuart)
    (instances : List (Option Softuart)) (st : IntStatus) (fifo_cnt : ℕ) (u : Uart) (n : N)
    → st.frm_err ≡ false
    → (st.rxfifo_full || st.rxfifo_tout) ≡ true
    → length u.rx_fifo < 256
    → let start = user_init slip gpio softuart instances in
      let (u', n') = uart0_rx_intr_handler start.uart0_unload_fn st fifo_cnt u n in
      (u'.rx_fifo ≡ [])
      × (take_signals slip (u'.signals - u.signals) n'
          ≡ slip.slipif_process_rxqueue (foldl slip.slipif_received_byte n u.rx_fifo))
unfolding user_init take_signals loop write_to_pbuf
interrupt-loop slip gpio softuart instances st cnt u n e f h =
    let ran = uart0_rx_intr_handler-unload slip.slipif_received_byte st cnt u n e f h in
    let one : u.signals + 1 - u.signals ≡ 1 = omega arith in
    (
      ap (λ r. r.0.rx_fifo) ran,
      ap (λ r. take_signals slip (r.0.signals - u.signals) r.1) ran
          ∙ ap (λ k. take_signals slip k (foldl slip.slipif_received_byte n u.rx_fifo)) one,
    )
