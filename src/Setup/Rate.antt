-- ===== src/Setup/Rate.antt =====
-- The bit rate that uart_config of driver/uart.c programs with uart_div_modify.
use esp_slip_router.Setup.{UartDevice, uart_config, config_pins, config_line, config_trigger}
use esp_slip_router.Registers.{
  reg_uart_base, Call, uart_div_modify, ets_uart_intr_attach, ets_uart_intr_enable,
  ets_uart_intr_disable, pin_func_select, pin_pullup_dis, Peripherals,
}
use esp_slip_router.Prelude.{ℕ, ◌+◌, ◌/◌, ◌==◌, false, ◌≡◌, refl, ◌∙◌, if◌then◌else◌}

-- UART_CLKDIV
abbrev pub uart_clkdiv : ℕ → ℕ
uart_clkdiv i = reg_uart_base i + 0x14

-- the divisor of UART `n` after a call
abbrev pub divisor_after : Call → ℕ → ℕ → ℕ
divisor_after (uart_div_modify m d) n old = if m == n then d else old
divisor_after (pin_func_select mux func) n old = old
divisor_after (pin_pullup_dis mux) n old = old
divisor_after ets_uart_intr_attach n old = old
divisor_after ets_uart_intr_enable n old = old
divisor_after ets_uart_intr_disable n old = old

-- What the chip's library says of the divisor of its clock by which a UART gets its bit rate: it is
-- the one last given to uart_div_modify, unless UART_CLKDIV is written.
pub record IsRated {S : Type 0} (p : Peripherals S) (divisor : S → ℕ → ℕ) : Type 0 where
  pub divisor-call :
      (s : S) (c : Call) (n : ℕ) → divisor (p.call s c) n ≡ divisor_after c n (divisor s n)
  pub divisor-write :
      (s : S) (a v n : ℕ) → (a == uart_clkdiv n) ≡ false → divisor (p.write s a v) n ≡ divisor s n
  pub divisor-set_mask :
      (s : S) (a m n : ℕ)
      → (a == uart_clkdiv n) ≡ false
      → divisor (p.set_mask s a m) n ≡ divisor s n
  pub divisor-clear_mask :
      (s : S) (a m n : ℕ)
      → (a == uart_clkdiv n) ≡ false
      → divisor (p.clear_mask s a m) n ≡ divisor s n

module _ {S : Type 0} (p : Peripherals S) {divisor : S → ℕ → ℕ} (rated : IsRated p divisor) where
  line-divisor :
      (clk : ℕ) (dev : UartDevice) (s : S)
      → divisor (config_line p clk dev 0 s) 0 ≡ clk / dev.baut_rate
  unfolding config_line
  line-divisor clk dev s =
      rated.divisor-clear_mask _ _ _ 0 refl
      ∙ rated.divisor-set_mask _ _ _ 0 refl
      ∙ rated.divisor-write _ _ _ 0 refl
      ∙ rated.divisor-call s _ 0

  trigger-divisor : (dev : UartDevice) (s : S) → divisor (config_trigger p dev 0 s) 0 ≡ divisor s 0
  unfolding config_trigger
  trigger-divisor dev s = rated.divisor-set_mask _ _ _ 0 refl ∙ rated.divisor-write _ _ _ 0 refl

  -- Configuring UART0 divides the clock by what gives its bit rate.
  pub uart_config-divisor :
      (clk : ℕ) (dev : UartDevice) (s : S)
      → divisor (uart_config p clk dev 0 s) 0 ≡ clk / dev.baut_rate
  unfolding uart_config
  uart_config-divisor clk dev s =
      rated.divisor-set_mask _ _ _ 0 refl
      ∙ rated.divisor-write _ _ _ 0 refl
      ∙ trigger-divisor dev (config_line p clk dev 0 (config_pins p 0 s))
      ∙ line-divisor clk dev (config_pins p 0 s)
