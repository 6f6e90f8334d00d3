-- ===== src/Softuart/Pins.antt =====
-- Softuart_Init and Softuart_EnableRs485 of driver/softuart.c: what they tell the chip's library to do
-- with the pins.
use esp_slip_router.Softuart.{Softuart, softuart_reg}
use esp_slip_router.Prelude.{
  ℕ, ◌≡◌, ◌≢◌, refl, true, false, List, [], ◌∷◌, ◌++◌, ◌==◌, ==_iff, if◌then◌else◌, arith,
  Bool-cases, inl, inr,
}

-- A pin is named by the name of its multiplexer, or by its number.
pub data GpioCall : Type 0 where
  gpio_init : GpioCall
  pin_func_select : ℕ → ℕ → GpioCall
  pin_pullup_en : ℕ → GpioCall
  pin_pullup_dis : ℕ → GpioCall
  gpio_output_set : ℕ → ℕ → GpioCall
  gpio_dis_output : ℕ → GpioCall
  os_delay_us : ℕ → GpioCall
  ets_gpio_intr_disable : GpioCall
  ets_gpio_intr_attach : GpioCall
  gpio_register_set : ℕ → GpioCall
  gpio_status_w1tc : ℕ → GpioCall
  gpio_pin_intr_state_set : ℕ → ℕ → GpioCall
  ets_gpio_intr_enable : GpioCall

unfoldable pub init_tx_calls : Softuart → List GpioCall
init_tx_calls s =
    pin_func_select s.pin_tx.gpio_mux_name s.pin_tx.gpio_func
    ∷ pin_pullup_en s.pin_tx.gpio_mux_name
    ∷ gpio_output_set s.pin_tx.gpio_id 1
    ∷ os_delay_us 0xffff
    ∷ []

-- an interrupt on both edges of the pin
unfoldable pub init_rx_calls : Softuart → List GpioCall
init_rx_calls s =
    pin_func_select s.pin_rx.gpio_mux_name s.pin_rx.gpio_func
    ∷ pin_pullup_en s.pin_rx.gpio_mux_name
    ∷ gpio_dis_output s.pin_rx.gpio_id
    ∷ ets_gpio_intr_disable
    ∷ ets_gpio_intr_attach
    ∷ gpio_register_set s.pin_rx.gpio_id
    ∷ gpio_status_w1tc s.pin_rx.gpio_id
    ∷ gpio_pin_intr_state_set s.pin_rx.gpio_id 3
    ∷ ets_gpio_intr_enable
    ∷ []

-- `count` is _Softuart_Instances_Count.
unfoldable pub init_pin_calls : ℕ → Softuart → List GpioCall
unfolding init_tx_calls init_rx_calls
init_pin_calls count s =
    (if count == 0 then gpio_init ∷ [] else [])
    ++ ((if s.pin_tx.gpio_mux_name == 0 then [] else init_tx_calls s)
        ++ (if s.pin_rx.gpio_mux_name == 0 then [] else init_rx_calls s))

unfoldable pub enable_rs485_calls : (ℕ → ℕ × ℕ) → ℕ → List GpioCall
unfolding softuart_reg
enable_rs485_calls gpio gpio_id =
    pin_func_select (softuart_reg gpio gpio_id).0 (softuart_reg gpio gpio_id).1
    ∷ pin_pullup_dis (softuart_reg gpio gpio_id).0
    ∷ gpio_output_set gpio_id 0
    ∷ []

-- The level that a pin puts out after some calls; `level` is the one before.
unfoldable pub output_level : ℕ → ℕ → List GpioCall → ℕ
output_level pin level [] = level
output_level pin level (gpio_output_set p v ∷ calls) =
    output_level pin (if p == pin then v else level) calls
output_level pin level (c ∷ calls) = output_level pin level calls

-- After Softuart_Init of a port with a transmit pin, and Softuart_EnableRs485 of another one, the
-- transmit pin idles high, and the driver of the bus is not enabled.
pub idle_levels :
    (count gpio_id : ℕ) (gpio : ℕ → ℕ × ℕ) (s : Softuart) (tx en : ℕ)
    → s.pin_tx.gpio_mux_name ≢ 0
    → s.pin_tx.gpio_id ≢ gpio_id
    → (output_level s.pin_tx.gpio_id tx (init_pin_calls count s ++ enable_rs485_calls gpio gpio_id)
        ≡ 1)
      × (output_level gpio_id en (init_pin_calls count s ++ enable_rs485_calls gpio gpio_id) ≡ 0)
unfolding init_pin_calls init_tx_calls init_rx_calls enable_rs485_calls output_level
idle_levels count gpio_id gpio s tx en has ne =
    let named : (s.pin_tx.gpio_mux_name == 0) ≡ false = ground arith in
    let own : (s.pin_tx.gpio_id == s.pin_tx.gpio_id) ≡ true = (==_iff _ s.pin_tx.gpio_id).1 refl in
    let bus : (gpio_id == gpio_id) ≡ true = (==_iff _ gpio_id).1 refl in
    let other : (gpio_id == s.pin_tx.gpio_id) ≡ false = ground arith in
    elim (Bool-cases (count == 0)) [
      | inl c ↦ elim (Bool-cases (s.pin_rx.gpio_mux_name == 0)) [
        | inl r ↦ rw (named, c, r) (rw (own, other) refl, rw bus refl)
        | inr r ↦ rw (named, c, r) (rw (own, other) refl, rw bus refl)
      ]
      | inr c ↦ elim (Bool-cases (s.pin_rx.gpio_mux_name == 0)) [
        | inl r ↦ rw (named, c, r) (rw (own, other) refl, rw bus refl)
        | inr r ↦ rw (named, c, r) (rw (own, other) refl, rw bus refl)
      ]
    ]
