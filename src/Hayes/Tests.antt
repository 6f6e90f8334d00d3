-- ===== src/Hayes/Tests.antt =====
-- Runs of the modem of driver/hayes.c, and its theorems at concrete states.
use esp_slip_router.Prelude.{
  codes, ℕ, ◌≡◌, refl, true, false, some, none, List, [], ◌∷◌, ◌++◌, arith, replicate, set, inl,
}
use esp_slip_router.Hayes.Types.{Modem, Env}
use esp_slip_router.Hayes.Output.{okay, h_result}
use esp_slip_router.Hayes.Output.{h_result_send, h_print, h_print_nocr, h_echo}
use esp_slip_router.Hayes.Types.{h_is_num, h_parse_num, h_multi_parse_num}
use esp_slip_router.Hayes.Commands.{h_ats, use_reg, h_atv, is_reserved, is_char_reg}
use esp_slip_router.Hayes.Parse.{h_cmdparse, parse_loop, parse_round}
use esp_slip_router.Hayes.Handler.{Handled, h_handler, h_recv, recv_cmd, recv_idle, replay}
use esp_slip_router.Hayes.Feed.{feed, write_to_pbuf, few_escapes, plain}
use esp_slip_router.Hayes.Keeps.{KeepsLine}
use esp_slip_router.Hayes.Ends.{Restarts, h_cmdparse-Ends}
use esp_slip_router.Hayes.Endless.{Trap, parse_loop-Trap}
use esp_slip_router.Hayes.WellFormed.{Runs, IsValid}
use esp_slip_router.Hayes.Total.{h_handler-Total}
use esp_slip_router.Hayes.Escape.{feed-few_escapes}
use esp_slip_router.Hayes.Leave.{feed-leaves, feed-loses}

abbrev env : Env
env = record { bit_rate = 115200; stray = λ i. 0; no_value = 1 }

-- HAYES_CMD_MODE_AT_BOOT is not defined: the modem starts in data mode
abbrev booted : Modem
booted = record {
  echo = true;
  quiet = false;
  report = 7;
  verbose = true;
  regs = 0 ∷ 0 ∷ 43 ∷ 13 ∷ 10 ∷ 8 ∷ replicate 33 0;
  online = true;
  in_cmd = false;
  in_esc = false;
  n_escs = 0;
  on_hook = false;
  in_call = true;
  cmdbuf = replicate 40 0;
  cmd_i = 0;
  l_cmd_i = 0;
  l_chr = 0;
  out = [];
  restarted = false;
}

abbrev stale : Modem
stale = record booted { n_escs = 3 }

booted-plain : feed env (codes "a+b") booted ≡ some (codes "a+b", stale)
unfolding feed write_to_pbuf h_handler replay
booted-plain = refl

stale_loses : feed env (codes "+b") stale ≡ some (codes "b", stale)
unfolding feed write_to_pbuf h_handler replay
stale_loses = refl

-- ATS5=<tab>V0: the results, and what the modem keeps
abbrev listening : Modem
listening = record booted { online = false; echo = false }

abbrev listened : Modem
listened = record listening {
  regs = set listening.regs 5 9;
  verbose = false;
  cmdbuf = codes "S5=" ++ 9 ∷ codes "V0" ++ replicate 34 0;
  l_cmd_i = 6;
  l_chr = 13;
  out = codes "OK" ++ 13 ∷ codes "OK" ++ 13 ∷ [];
}

command_runs : feed env (codes "ATS5=" ++ 9 ∷ codes "V0" ++ 13 ∷ []) listening ≡ some ([], listened)
unfolding feed write_to_pbuf h_handler replay h_recv recv_cmd recv_idle h_cmdparse parse_loop
    parse_round h_ats use_reg h_atv h_result h_result_send h_print h_print_nocr h_echo
    h_multi_parse_num h_is_num h_parse_num is_reserved is_char_reg
command_runs = refl

feed-few_escapes_example :
    (sent : List ℕ) × (m' : Modem) × (feed env (codes "a++b") booted ≡ some (sent, m'))
    × (m'.online ≡ true)
    × (plain 43 sent ≡ plain 43 (codes "a++b"))
unfolding few_escapes
feed-few_escapes_example =
    feed-few_escapes env (codes "a++b") 0 booted refl (inl (refl, inl refl, refl)) refl

feed-leaves_example :
    feed env (replicate 3 43) booted
    ≡ some ([], h_result env okay (record booted { in_esc = false; n_escs = 0; online = false }))
feed-leaves_example = feed-leaves env booted refl refl refl

feed-loses_example :
    feed env (replicate 3 43 ++ 65 ∷ []) stale
    ≡ some (replicate 2 43 ++ 65 ∷ [], record stale { in_esc = false; n_escs = 3 })
feed-loses_example = feed-loses env 3 65 stale (omega arith) (omega arith) refl refl refl refl

booted-IsValid : IsValid booted
booted-IsValid = record {
  regs = refl;
  cmdbuf = refl;
  cmd_i = omega arith;
  l_cmd_i = omega arith;
  n_escs = omega arith;
  report = omega arith;
}

-- ATV0, with the carriage return to come
abbrev typed : Modem
typed = record booted {
  online = false;
  in_cmd = true;
  cmdbuf = codes "V0" ++ replicate 38 0;
  cmd_i = 2;
}

h_cmdparse-Ends_example :
    (m' : Modem) × (h_cmdparse env typed ≡ some m') × KeepsLine typed m' × Restarts env 0 typed m'
h_cmdparse-Ends_example = h_cmdparse-Ends env (omega arith) typed (omega arith)

typed-IsValid : IsValid typed
typed-IsValid = record {
  regs = refl;
  cmdbuf = refl;
  cmd_i = omega arith;
  l_cmd_i = omega arith;
  n_escs = omega arith;
  report = omega arith;
}

h_handler-Total_example :
    (r : Handled) × (h_handler env 13 typed ≡ some r)
    × Runs env typed r.modem
    × IsValid r.modem
    × (r.handled ≡ true)
    × (r.handled ≡ true → r.slip ≡ [])
h_handler-Total_example =
    h_handler-Total env (omega arith) 13 typed typed-IsValid (λ e. omega arith) (omega arith)

-- forty characters that end in S:
abbrev full : Modem
full = record typed { cmdbuf = replicate 38 32 ++ codes "S:"; cmd_i = 40 }

full-Trap : Trap env full
full-Trap = record {
  full = refl;
  sets = refl;
  colon = refl;
  asks = refl;
  gives = refl;
  runs = refl;
}

parse_loop-Trap_example : parse_loop env 1000 38 full ≡ none
parse_loop-Trap_example = parse_loop-Trap env 1000 full full-Trap
