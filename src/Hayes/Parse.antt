-- ===== src/Hayes/Parse.antt =====
-- The command parser of driver/hayes.c. The source writes `i += f(++i)`, and C leaves open which
-- comes first; here `++i` and the call do, as the commands need.
use esp_slip_router.Prelude.{
  ℕ, zero, suc, ◌+◌, ◌-◌, Bool, true, false, not, ◌&&◌, ◌||◌, Option, none, some, ltb, ◌==◌,
  if◌then◌else◌, u8,
}
use esp_slip_router.Hayes.Types.{Modem, Env, cmd_at, h_is_num}
use esp_slip_router.Hayes.Output.{okay, error, h_result}
use esp_slip_router.Hayes.Info.{ht_ati}
use esp_slip_router.Hayes.Commands.{
  ht_at_dollar, ht_at_amp_dollar, hz_ata, h_ata, hz_atd, ht_atd, h_ate, hz_ate, hz_ati, htz_ath,
  ht_ath, ht_ato, h_atq, hz_atq, h_ats, h_atv, hz_atv, hz_atx, h_atx, ht_atz, ht_amp_f,
}

-- `h_cmdparse_amp`: the value that the caller adds, and the modem
unfoldable pub h_cmdparse_amp : Env → ℕ → Modem → ℕ × Modem
h_cmdparse_amp env i m =
    if cmd_at env m i == b'F'
    then (
      env.no_value,
      if i + 1 == m.cmd_i then h_result env error m else ht_amp_f env (cmd_at env m (i + 1)) m,
    )
    else (1, m)

-- `h_cmdparse_plus`, which nothing calls, on the same terms
unfoldable pub h_cmdparse_plus : ℕ → ℕ
h_cmdparse_plus i = 1

-- What one round of the loop leaves: whether the loop goes on, the position before its `i++`, and the
-- modem.
abbrev pub Round : Type 0
Round = Bool × ℕ × Modem

-- `if (!f(cmdbuf[++i])) i--`
abbrev pub taking_flag : ℕ → Bool × Modem → Round
taking_flag i (used, m) = (true, if used then i + 1 else i, m)

-- `i += f(++i)`
abbrev pub taking_count : ℕ → ℕ × Modem → Round
taking_count i (taken, m) = (true, u8 (i + 1 + taken), m)

-- the last command of the line has no argument
abbrev pub is_last : ℕ → Modem → Bool
is_last i m = i + 1 == m.cmd_i

-- The `switch` of `h_cmdparse`.
unfoldable pub parse_round : Env → ℕ → Modem → Round
parse_round env i m =
    let c = cmd_at env m i in
    let a = cmd_at env m (i + 1) in
    if c == b'A'
    then (if is_last i m then (true, i, hz_ata env m) else taking_flag i (h_ata env a m))
    else if c == b'D'
    then (if is_last i m then (false, i, hz_atd env m) else (false, i, (ht_atd env (i + 1) m).1))
    else if c == b'E'
    then (if is_last i m then (true, i, hz_ate env m) else taking_flag i (h_ate env a m))
    else if c == b'H'
    then (if is_last i m then (true, i, htz_ath env m) else taking_flag i (ht_ath env a m))
    else if c == b'I'
    then (if is_last i m then (true, i, hz_ati env m) else (true, i + 1, ht_ati env (i + 1) m))
    else if c == b'L' || c == b'M'
    then (if is_last i m
        then (true, i, h_result env error m)
        else (true, i + 1, if h_is_num a then h_result env okay m else h_result env error m))
    else if c == b'O'
    then (false, i, ht_ato env m)
    else if c == b'Q'
    then (if is_last i m then (true, i, hz_atq env m) else taking_flag i (h_atq env a m))
    else if c == b'S'
    then (if is_last i m
        then (true, i, h_result env error m)
        else taking_count i (h_ats env (i + 1) m))
    else if c == b'V'
    then (if is_last i m then (true, i, hz_atv env m) else taking_flag i (h_atv env a m))
    else if c == b'X'
    then (if is_last i m then (true, i, hz_atx env m) else taking_flag i (h_atx env a m))
    else if c == b'Z'
    then (false, i, ht_atz m)
    else if c == b'&'
    then (if is_last i m
        then (true, i, h_result env error m)
        else taking_count i (h_cmdparse_amp env (i + 1) m))
    else if c == b'$'
    then (if ltb 0 i && cmd_at env m (i - 1) == b'&'
        then (false, i, ht_at_amp_dollar env m)
        else (false, i, ht_at_dollar env m))
    else (true, i, m)

-- The loop of `h_cmdparse`. A modem that has restarted stands for a call that does not return, and
-- no further round runs. `none`: the fuel ran out.
unfoldable pub parse_loop : Env → ℕ → ℕ → Modem → Option Modem
parse_loop env zero i m = if ltb i m.cmd_i then none else some m
parse_loop env (suc fuel) i m =
    let (goes_on, i', m') = parse_round env i m in
    let rest = parse_loop env fuel (u8 (i' + 1)) m' in
    if ltb i m.cmd_i then (if goes_on && not m'.restarted then rest else some m') else some m

unfoldable pub h_cmdparse : Env → Modem → Option Modem
h_cmdparse env m = if m.cmd_i == 0 then some (h_result env okay m) else parse_loop env m.cmd_i 0 m
