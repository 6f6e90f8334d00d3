-- ===== src/Softuart/Interrupt.antt =====
-- Softuart_Intr_Handler of driver/softuart.c. The interrupt enables of the pins are not modelled.
use esp_slip_router.Prelude.{
  ℕ, zero, suc, ◌+◌, ◌*◌, ◌/◌, not, Option, none, some, List, [], ◌∷◌, get_or, set, ◌==◌,
  if◌then◌else◌,
}
use esp_slip_router.Softuart.{Softuart, bitcount, shift_in, store_byte}
use esp_slip_router.Softuart.Clock.{masked, wait}

-- The loop that samples `n` bits from the `i`-th on, where the receive pin has the level `line t` at
-- time `t`. `looks` are the times at which the code looks at the clock and at the pin, in its order:
-- those of a loop that waits, and that of the pin after it. `none`: they end too early.
unfoldable pub sample_bits : (ℕ → ℕ) → ℕ → ℕ → ℕ → ℕ → ℕ → List ℕ → Option ℕ
unfolding wait shift_in
sample_bits line start_time bit_time zero i d looks = some d
sample_bits line start_time bit_time (suc n) i d looks =
    elim (wait start_time (start_time + bit_time * (i + 1)) looks) [
      | some [] ↦ none
      | some (at ∷ later) ↦
          sample_bits line start_time bit_time n (i + 1) (shift_in d (line at)) later
      | none ↦ none
    ]

-- the byte stored, if the samples were taken
abbrev pub stored : Option ℕ → Softuart → Option Softuart
stored none s = none
stored (some d) s = some (store_byte d s)

-- What the handler does at its port: it looks at the pin, and at a start bit it waits for half a
-- bit time, takes the start of its times from the clock, and samples.
unfoldable pub receive : (ℕ → ℕ) → List ℕ → Softuart → Option Softuart
unfolding sample_bits store_byte
receive line [] s = none
receive line (now ∷ looks) s =
    if line now == 0
    then stored (sample_bits line (masked (now + s.bit_time / 2)) s.bit_time 8 0 0 looks) s
    else some s

-- The handler on the status of the pins and the ports by their receive pins. `none` stands for a call
-- through a NULL pointer, and for looks that end too early.
unfoldable pub intr_handler :
    ℕ → (ℕ → ℕ) → List ℕ → List (Option Softuart) → Option (List (Option Softuart))
unfolding bitcount receive
intr_handler gpio_status line looks instances =
    let gpio_id = bitcount gpio_status in
    if not (gpio_id == 0xFF)
    then elim (get_or instances gpio_id none) [
      | some s ↦ elim (receive line looks s) [
        | some s' ↦ some (set instances gpio_id (some s'))
        | none ↦ none
      ]
      | none ↦ none
    ]
    else some instances
