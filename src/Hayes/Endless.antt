-- ===== src/Hayes/Endless.antt =====
-- A full command line of driver/hayes.c whose parse never ends: `h_ATS` takes the colon for a digit and
-- register 10 for a number of two digits, looks past the line, and moves the parser back.
use esp_slip_router.Prelude.{
  ℕ, not, zero, suc, ◌≡◌, refl, ◌∙◌, ap, true, false, none, ltb, ◌==◌, arith,
}
use esp_slip_router.Hayes.Types.{Modem, Env, cmd_at, h_is_num, h_parse_num, h_multi_parse_num}
use esp_slip_router.Hayes.Output.{error, h_result}
use esp_slip_router.Hayes.Commands.{use_reg, h_ats, is_reserved}
use esp_slip_router.Hayes.Parse.{parse_round, parse_loop}
use esp_slip_router.Hayes.Frame.{h_result-Prints}

-- the line ends in S: and neither ? nor = stands two places behind it
pub record Trap (env : Env) (m : Modem) : Type 0 where
  pub full : m.cmd_i ≡ 40
  pub sets : cmd_at env m 38 ≡ b'S'
  pub colon : cmd_at env m 39 ≡ b':'
  pub asks : (cmd_at env m 41 == b'?') ≡ false
  pub gives : (cmd_at env m 41 == b'=') ≡ false
  pub runs : m.restarted ≡ false

module _ (env : Env) where
  round : (m : Modem) → Trap env m → parse_round env 38 m ≡ (true, 37, h_result env error m)
  unfolding parse_round h_ats use_reg h_multi_parse_num h_is_num h_parse_num is_reserved
  round m t = rw (t.sets, t.colon, t.full, t.asks, t.gives) refl

  still : (m : Modem) → Trap env m → Trap env (h_result env error m)
  still m t =
      let p = (h_result-Prints env error m).same in
      record {
        full = ap (λ (m : Modem). m.cmd_i) p ∙ t.full;
        sets = ap (λ (m : Modem). cmd_at env m 38) p ∙ t.sets;
        colon = ap (λ (m : Modem). cmd_at env m 39) p ∙ t.colon;
        asks = ap (λ (m : Modem). cmd_at env m 41 == b'?') p ∙ t.asks;
        gives = ap (λ (m : Modem). cmd_at env m 41 == b'=') p ∙ t.gives;
        runs = ap (λ (m : Modem). m.restarted) p ∙ t.runs;
      }

  -- Such a line, with no restart, keeps the parser at its end for ever: no number of rounds is enough.
  pub parse_loop-Trap : (fuel : ℕ) (m : Modem) → Trap env m → parse_loop env fuel 38 m ≡ none
  unfolding parse_loop
  parse_loop-Trap zero m t = rw t.full refl
  parse_loop-Trap (suc fuel) m t =
      let within : ltb 38 m.cmd_i ≡ true = ground (arith, t.full) in
      let goes_on : not (h_result env error m).restarted ≡ true = ap not (still m t).runs in
      rw (round m t, within, goes_on) (parse_loop-Trap fuel (h_result env error m) (still m t))
