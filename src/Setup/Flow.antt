-- ===== src/Setup/Flow.antt =====
-- UART_SetFlowCtrl: what it leaves in UART_CONF0 and UART_CONF1.
use esp_slip_router.Setup.{
  UartHwFlowCtrl, flow_none, flow_rts, flow_cts, flow_cts_rts, uart_set_flow_ctrl, set_rts_flow,
  set_cts_flow,
}
use esp_slip_router.Registers.{
  conf0, conf1, Peripherals, IsHolding, uart_conf0, uart_conf1, uart_tx_flow_en, uart_rx_flow_en,
  pin_func_select, mux_mtdo, mux_mtck, func_u0rts, func_uart0_cts,
}
use esp_slip_router.Registers.Bits.{test_bit, for_bits, for_bits-bit}
use esp_slip_router.Registers.Access.{bit-set_mask_same, bit-clear_mask_same, cleared, same}
use esp_slip_router.Registers.Kept.{
  Kept, kept-call, kept-set_mask, kept-clear_mask, kept-set_bits, conf1-conf0, conf0-conf1,
}
use esp_slip_router.Prelude.{
  eqb, eqb_sound, ℕ, ◌*◌, ◌^◌, ◌<◌, ◌%◌, Bool, true, false, ◌&&◌, ◌||◌, not, ◌≡◌, refl, sym, ◌∙◌,
  if◌then◌else◌,
}

-- whether a mode has each direction
abbrev pub has_rts : UartHwFlowCtrl → Bool
has_rts flow_none = false
has_rts flow_rts = true
has_rts flow_cts = false
has_rts flow_cts_rts = true

abbrev pub has_cts : UartHwFlowCtrl → Bool
has_cts flow_none = false
has_cts flow_rts = false
has_cts flow_cts = true
has_cts flow_cts_rts = true

-- Bit `b` of UART_CONF1, from what it was: the threshold is cut to its 7 bits.
abbrev pub flow_conf1 : Bool → ℕ → ℕ → Bool → Bool
flow_conf1 rts rx_thresh b old =
    if test_bit uart_rx_flow_en b
    then rts
    else if rts && test_bit (0x7f * 2 ^ 16) b
    then test_bit (rx_thresh % 128 * 2 ^ 16) b
    else old

-- The value is not cut by the macro: with 128 and more it reaches the bit that is set anyway.
thresh_ok : Bool → ℕ → ℕ → Bool
thresh_ok old t b =
    eqb
      (old && not (test_bit (0x7f * 2 ^ 16) b)
        || test_bit (t * 2 ^ 16) b
        || test_bit uart_rx_flow_en b)
      (flow_conf1 true t b old)

thresh_table : (old : Bool) → for_bits (λ t. for_bits (thresh_ok old t) 32) 256 ≡ true
unfolding for_bits thresh_ok
thresh_table true = refl
thresh_table false = refl

thresh-bit :
    (old : Bool) (t b : ℕ)
    → t < 256
    → b < 32
    → (old && not (test_bit (0x7f * 2 ^ 16) b)
        || test_bit (t * 2 ^ 16) b
        || test_bit uart_rx_flow_en b)
      ≡ flow_conf1 true t b old
unfolding thresh_ok
thresh-bit old t b ht hb = eqb_sound _ _ (
    for_bits-bit (thresh_ok old t) 32 b
      (for_bits-bit (λ t. for_bits (thresh_ok old t) 32) 256 t (thresh_table old) ht) hb)

-- a bit set or cleared
set_bit : (old m : Bool) → (old || m) ≡ (if m then true else old)
set_bit true true = refl
set_bit true false = refl
set_bit false true = refl
set_bit false false = refl

module _ {S : Type 0} (p : Peripherals S) (hold : IsHolding p) where
  rts-bit :
      (rts : Bool) (n t : ℕ) (s : S) (b : ℕ)
      → n < 2
      → t < 256
      → b < 32
      → p.bit (set_rts_flow p n rts t s) (uart_conf1 n) b
        ≡ flow_conf1 rts t b (p.bit s (uart_conf1 n) b)
  unfolding set_rts_flow
  rts-bit true n t s b hn ht hb =
      let s₁ = p.call s (pin_func_select mux_mtdo func_u0rts) in
      let s₂ = p.set_bits s₁ (uart_conf1 n) 0x7f t 16 in
      rw
        (
          bit-set_mask_same p hold s₂ uart_rx_flow_en conf1 n b hn hb,
          hold.bit-set_bits s₁ (uart_conf1 n) 0x7f t 16 conf1 n b hn hb,
          same (uart_conf1 n),
          hold.bit-call s (pin_func_select mux_mtdo func_u0rts) conf1 n b hn hb,
        )
        (thresh-bit (p.bit s (uart_conf1 n) b) t b ht hb)
  rts-bit false n t s b hn ht hb =
      bit-clear_mask_same p hold s uart_rx_flow_en conf1 n b hn hb
      ∙ cleared (p.bit s (uart_conf1 n) b) (test_bit uart_rx_flow_en b)

  cts-bit :
      (cts : Bool) (n : ℕ) (s : S) (b : ℕ)
      → n < 2
      → b < 32
      → p.bit (set_cts_flow p n cts s) (uart_conf0 n) b
        ≡ (if test_bit uart_tx_flow_en b then cts else p.bit s (uart_conf0 n) b)
  unfolding set_cts_flow
  cts-bit true n s b hn hb =
      rw
        (
          bit-set_mask_same p hold (p.call s (pin_func_select mux_mtck func_uart0_cts))
              uart_tx_flow_en conf0 n b hn hb,
          hold.bit-call s (pin_func_select mux_mtck func_uart0_cts) conf0 n b hn hb,
        )
        (set_bit (p.bit s (uart_conf0 n) b) (test_bit uart_tx_flow_en b))
  cts-bit false n s b hn hb =
      bit-clear_mask_same p hold s uart_tx_flow_en conf0 n b hn hb
      ∙ cleared (p.bit s (uart_conf0 n) b) (test_bit uart_tx_flow_en b)

  rts-Kept : (rts : Bool) (n t : ℕ) (s : S) → n < 2 → Kept p conf0 n s (set_rts_flow p n rts t s)
  unfolding set_rts_flow
  rts-Kept true n t s hn = kept-set_mask p hold conf0 n s _ _ _ hn (conf1-conf0 n) (
      kept-set_bits p hold conf0 n s _ _ _ _ _ hn (conf1-conf0 n)
        (kept-call p hold conf0 n s _ _ hn (λ b hb. refl)))
  rts-Kept false n t s hn = kept-clear_mask p hold conf0 n s _ _ _ hn (conf1-conf0 n) (λ b hb. refl)

  cts-Kept : (cts : Bool) (n : ℕ) (s : S) → n < 2 → Kept p conf1 n s (set_cts_flow p n cts s)
  unfolding set_cts_flow
  cts-Kept true n s hn =
      kept-set_mask p hold conf1 n s _ _ _ hn (conf0-conf1 n)
        (kept-call p hold conf1 n s _ _ hn (λ b hb. refl))
  cts-Kept false n s hn = kept-clear_mask p hold conf1 n s _ _ _ hn (conf0-conf1 n) (λ b hb. refl)

  -- the two halves, for any tests
  halves :
      (rts cts : Bool) (n t : ℕ) (s : S)
      → n < 2
      → t < 256
      → ((b : ℕ)
          → b < 32
          → p.bit (set_cts_flow p n cts (set_rts_flow p n rts t s)) (uart_conf1 n) b
            ≡ flow_conf1 rts t b (p.bit s (uart_conf1 n) b))
        × ((b : ℕ)
            → b < 32
            → p.bit (set_cts_flow p n cts (set_rts_flow p n rts t s)) (uart_conf0 n) b
              ≡ (if test_bit uart_tx_flow_en b then cts else p.bit s (uart_conf0 n) b))
  halves rts cts n t s hn ht = (
    (λ b hb. cts-Kept cts n (set_rts_flow p n rts t s) hn b hb ∙ rts-bit rts n t s b hn ht hb),
    (λ b hb.
        rw (sym (rts-Kept rts n t s hn b hb)) (cts-bit cts n (set_rts_flow p n rts t s) b hn hb)),
  )

  -- UART_SetFlowCtrl switches each direction on or off as the mode says. If the receiver's is on,
  -- the threshold is the argument modulo 128. No other bit of the two registers changes.
  pub uart_set_flow_ctrl_lem :
      (n : ℕ) (mode : UartHwFlowCtrl) (t : ℕ) (s : S)
      → n < 2
      → t < 256
      → ((b : ℕ)
          → b < 32
          → p.bit (uart_set_flow_ctrl p n mode t s) (uart_conf1 n) b
            ≡ flow_conf1 (has_rts mode) t b (p.bit s (uart_conf1 n) b))
        × ((b : ℕ)
            → b < 32
            → p.bit (uart_set_flow_ctrl p n mode t s) (uart_conf0 n) b
              ≡ (if test_bit uart_tx_flow_en b then has_cts mode else p.bit s (uart_conf0 n) b))
  unfolding uart_set_flow_ctrl
  uart_set_flow_ctrl_lem n flow_none t s hn ht = halves false false n t s hn ht
  uart_set_flow_ctrl_lem n flow_rts t s hn ht = halves true false n t s hn ht
  uart_set_flow_ctrl_lem n flow_cts t s hn ht = halves false true n t s hn ht
  uart_set_flow_ctrl_lem n flow_cts_rts t s hn ht = halves true true n t s hn ht
