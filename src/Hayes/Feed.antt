-- ===== src/Hayes/Feed.antt =====
-- `write_to_pbuf` of user/user_main.c with ENABLE_HAYES defined: a byte from the serial line goes to
-- the modem first and, when the modem does not handle it, to the SLIP interface.
use esp_slip_router.Prelude.{
  ℕ, ◌+◌, Bool, true, ◌&&◌, Option, none, some, List, [], ◌∷◌, ◌++◌, ltb, ◌==◌, if◌then◌else◌,
}
use esp_slip_router.Hayes.Types.{Modem, Env}
use esp_slip_router.Hayes.Handler.{Handled, h_handler}

abbrev slip_received : ℕ → Option Handled → Option (List ℕ × Modem)
slip_received c none = none
slip_received c (some r) = some (if r.handled then r.slip else r.slip ++ c ∷ [], r.modem)

-- The bytes that `slipif_received_byte` gets, and the modem; `none` when a parse ran out of fuel.
unfoldable pub write_to_pbuf : Env → ℕ → Modem → Option (List ℕ × Modem)
write_to_pbuf env c m = slip_received c (h_handler env c m)

abbrev pub prepend : List ℕ → Option (List ℕ × Modem) → Option (List ℕ × Modem)
prepend front none = none
prepend front (some (sent, m)) = some (front ++ sent, m)

-- `write_to_pbuf` on one byte after the other
unfoldable pub feed : Env → List ℕ → Modem → Option (List ℕ × Modem)
feed env [] m = some ([], m)
feed env (c ∷ cs) m = elim (write_to_pbuf env c m) [
  | none ↦ none
  | some (sent, m') ↦ prepend sent (feed env cs m')
]

-- No run of three characters `esc`, when `held` of them went before.
unfoldable pub few_escapes : ℕ → ℕ → List ℕ → Bool
few_escapes esc held [] = true
few_escapes esc held (c ∷ cs) =
    let goes_on = few_escapes esc (held + 1) cs in
    let again = few_escapes esc 0 cs in if c == esc then ltb held 2 && goes_on else again

-- the characters but `esc`
unfoldable pub plain : ℕ → List ℕ → List ℕ
plain esc [] = []
plain esc (c ∷ cs) = let rest = plain esc cs in if c == esc then rest else c ∷ rest
