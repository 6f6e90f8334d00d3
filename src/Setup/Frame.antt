-- ===== src/Setup/Frame.antt =====
-- What the functions that configure a UART leave alone.
use esp_slip_router.Setup.{
  UartDevice, uart_config, config_pins, config_line, config_trigger, conf0_word, fifo_rst,
  uart_set_word_length, uart_set_stop_bits, uart_set_line_inverse, uart_set_parity, none_bits,
  odd_bits, even_bits,
}
use esp_slip_router.Setup.Format.{
  Setting, word_length, stop_bits, line_inverse, parity, apply, apply_all, format, format_of_bits,
  apply-bit, unwritten, format_mask,
}
use esp_slip_router.Setup.Config.{device_format, format_of_word, conf0_word-bit}
use esp_slip_router.Registers.{
  address, Conf, conf0, conf1, int_ena, Peripherals, IsHolding, uart_conf0, uart_div_modify,
}
use esp_slip_router.Registers.Bits.{test_bit}
use esp_slip_router.Registers.Access.{bit-set-clear, bit-write_same}
use esp_slip_router.Registers.Kept.{
  Kept, kept-call, kept-write, kept-set_mask, kept-clear_mask, kept-set_bits, apart, conf1-conf0,
  int_ena-conf0, conf0-conf1, conf0-int_ena, int_clr-address,
}
use esp_slip_router.Prelude.{
  ℕ, ◌<◌, ◌/◌, false, ◌≡◌, ◌≢◌, ◌==◌, refl, ◌∙◌, if◌then◌else◌, on_if, List, [], ◌∷◌,
}

module _ {S : Type 0} (p : Peripherals S) (hold : IsHolding p) where
  pins-Kept : (r : Conf) (n m : ℕ) (s : S) → m < 2 → Kept p r m s (config_pins p n s)
  unfolding config_pins
  pins-Kept r n m s hm =
      on_if (Kept p r m s) (n == 1) (kept-call p hold r m s _ _ hm (λ b hb. refl)) (
        kept-call p hold r m s _ _ hm
          (kept-call p hold r m s _ _ hm (kept-call p hold r m s _ _ hm (λ b hb. refl))))

  line-Kept :
      (clk : ℕ) (dev : UartDevice) (r : Conf) (n m : ℕ) (s t : S)
      → m < 2
      → n ≢ m
      → Kept p r m s t
      → Kept p r m s (config_line p clk dev n t)
  unfolding config_line
  line-Kept clk dev r n m s t hm ne k =
      let e = apart conf0 r n m ne in
      kept-clear_mask p hold r m s _ _ _ hm e (
        kept-set_mask p hold r m s _ _ _ hm e
          (kept-write p hold r m s _ _ _ hm e (kept-call p hold r m s _ _ hm k)))

  -- of the thresholds, if neither register is that one
  trigger-Kept :
      (dev : UartDevice) (r : Conf) (n m : ℕ) (s t : S)
      → m < 2
      → (address conf1 n == address r m) ≡ false
      → (address int_ena n == address r m) ≡ false
      → Kept p r m s t
      → Kept p r m s (config_trigger p dev n t)
  unfolding config_trigger
  trigger-Kept dev r n m s t hm e f k =
      on_if (Kept p r m s) (n == 0)
        (kept-set_mask p hold r m s _ _ _ hm f (kept-write p hold r m s _ _ _ hm e k))
        (kept-write p hold r m s _ _ _ hm e k)

  -- Configuring one UART leaves the registers of the other alone.
  pub uart_config-Kept :
      (clk : ℕ) (dev : UartDevice) (r : Conf) (n m : ℕ) (s : S)
      → m < 2
      → n ≢ m
      → Kept p r m s (uart_config p clk dev n s)
  unfolding uart_config
  uart_config-Kept clk dev r n m s hm ne =
      let f = apart int_ena r n m ne in
      kept-set_mask p hold r m s _ _ _ hm f (
        kept-write p hold r m s _ _ _ hm (int_clr-address r n m) (
          trigger-Kept dev r n m s _ hm (apart conf1 r n m ne) f
            (line-Kept clk dev r n m s _ hm ne (pins-Kept r n m s hm))))

  line-bit :
      (clk : ℕ) (dev : UartDevice) (n : ℕ) (s : S) (b : ℕ)
      → n < 2
      → b < 32
      → p.bit (config_line p clk dev n s) (uart_conf0 n) b
        ≡ (if test_bit fifo_rst b then false else test_bit (conf0_word dev) b)
  unfolding config_line
  line-bit clk dev n s b hn hb =
      let s₁ = p.call s (uart_div_modify n (clk / dev.baut_rate)) in
      let s₂ = p.write s₁ (address conf0 n) (conf0_word dev) in
      rw
        (
          bit-set-clear p hold s₂ fifo_rst conf0 n b hn hb,
          bit-write_same p hold s₁ (conf0_word dev) conf0 n b hn hb,
        )
        refl

  -- Each bit of UART_CONF0 is that of the word, with the reset bits released.
  config-bit :
      (clk : ℕ) (dev : UartDevice) (n : ℕ) (s : S) (b : ℕ)
      → n < 2
      → b < 32
      → p.bit (uart_config p clk dev n s) (uart_conf0 n) b
        ≡ (if test_bit fifo_rst b then false else test_bit (conf0_word dev) b)
  unfolding uart_config
  config-bit clk dev n s b hn hb =
      let t = config_line p clk dev n (config_pins p n s) in
      kept-set_mask p hold conf0 n t _ _ _ hn (int_ena-conf0 n)
        (kept-write p hold conf0 n t _ _ _ hn (int_clr-address conf0 n n)
          (trigger-Kept dev conf0 n n t t hn (conf1-conf0 n) (int_ena-conf0 n) (λ b hb. refl)))
        b hb
      ∙ line-bit clk dev n (config_pins p n s) b hn hb

  -- After `uart_config` the UART has the format of the device, and every other bit of UART_CONF0 is
  -- clear: no line is inverted, flow control and loop back are off, the FIFOs run.
  pub uart_config-format :
      (clk : ℕ) (dev : UartDevice) (n : ℕ) (s : S)
      → n < 2
      → (format p n (uart_config p clk dev n s) ≡ device_format dev)
        × ((b : ℕ)
            → b < 32
            → test_bit 0x3f b ≡ false
            → p.bit (uart_config p clk dev n s) (uart_conf0 n) b ≡ false)
  uart_config-format clk dev n s hn = (
    format_of_bits (λ b. p.bit (uart_config p clk dev n s) (uart_conf0 n) b)
          (λ b. if test_bit fifo_rst b then false else test_bit (conf0_word dev) b)
          (λ b hb. config-bit clk dev n s b hn hb)
        ∙ format_of_word dev,
    (λ b hb out. config-bit clk dev n s b hn hb ∙ conf0_word-bit dev b hb out),
  )

  apply-Kept :
      (n : ℕ) (x : Setting) (r : Conf) (m : ℕ) (s t : S)
      → m < 2
      → (address conf0 n == address r m) ≡ false
      → Kept p r m s t
      → Kept p r m s (apply p n x t)
  unfolding apply uart_set_word_length uart_set_stop_bits uart_set_line_inverse uart_set_parity
  apply-Kept n (word_length len) r m s t hm e k = kept-set_bits p hold r m s _ _ _ _ _ hm e k
  apply-Kept n (stop_bits num) r m s t hm e k = kept-set_bits p hold r m s _ _ _ _ _ hm e k
  apply-Kept n (line_inverse inv) r m s t hm e k =
      kept-set_mask p hold r m s _ _ _ hm e (kept-clear_mask p hold r m s _ _ _ hm e k)
  apply-Kept n (parity none_bits) r m s t hm e k = kept-clear_mask p hold r m s _ _ _ hm e k
  apply-Kept n (parity odd_bits) r m s t hm e k =
      kept-set_mask p hold r m s _ _ _ hm e (kept-clear_mask p hold r m s _ _ _ hm e k)
  apply-Kept n (parity even_bits) r m s t hm e k =
      kept-set_mask p hold r m s _ _ _ hm e (kept-clear_mask p hold r m s _ _ _ hm e k)

  pub apply_all-Kept :
      (n : ℕ) (xs : List Setting) (r : Conf) (m : ℕ) (s t : S)
      → m < 2
      → (address conf0 n == address r m) ≡ false
      → Kept p r m s t
      → Kept p r m s (apply_all p n xs t)
  unfolding apply_all
  apply_all-Kept n [] r m s t hm e k = k
  apply_all-Kept n (x ∷ xs) r m s t hm e k =
      apply_all-Kept n xs r m s (apply p n x t) hm e (apply-Kept n x r m s t hm e k)

  -- the bits of UART_CONF0 that are none of the format
  apply_all-bit :
      (n : ℕ) (xs : List Setting) (s : S) (b : ℕ)
      → n < 2
      → b < 32
      → test_bit format_mask b ≡ false
      → p.bit (apply_all p n xs s) (uart_conf0 n) b ≡ p.bit s (uart_conf0 n) b
  unfolding apply_all
  apply_all-bit n [] s b hn hb out = refl
  apply_all-bit n (x ∷ xs) s b hn hb out =
      apply_all-bit n xs (apply p n x s) b hn hb out
      ∙ (apply-bit p hold n x s b hn hb ∙ unwritten x b _ _ hb out)

  -- Whatever settings are made of one UART, UART_CONF0, UART_CONF1 and the interrupt enables of the other,
  -- UART_CONF1 and the interrupt enables of this one, and the bits of its UART_CONF0 that are none of
  -- the format's stay what they were.
  pub apply_all_frame :
      (n : ℕ) (xs : List Setting) (s : S)
      → n < 2
      → ((r : Conf) (m : ℕ) → m < 2 → n ≢ m → Kept p r m s (apply_all p n xs s))
        × Kept p conf1 n s (apply_all p n xs s)
        × Kept p int_ena n s (apply_all p n xs s)
        × ((b : ℕ)
            → b < 32
            → test_bit format_mask b ≡ false
            → p.bit (apply_all p n xs s) (uart_conf0 n) b ≡ p.bit s (uart_conf0 n) b)
  apply_all_frame n xs s hn = (
    (λ r m hm ne. apply_all-Kept n xs r m s s hm (apart conf0 r n m ne) (λ b hb. refl)),
    apply_all-Kept n xs conf1 n s s hn (conf0-conf1 n) (λ b hb. refl),
    apply_all-Kept n xs int_ena n s s hn (conf0-int_ena n) (λ b hb. refl),
    (λ b hb out. apply_all-bit n xs s b hn hb out),
  )
