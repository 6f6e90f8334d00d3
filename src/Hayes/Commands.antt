-- ===== src/Hayes/Commands.antt =====
-- The AT commands of driver/hayes.c but ATI. A function that returns a value returns it beside
-- the modem. (A name of the source differs from another one in case only or ends in a dollar: the
-- model spells AT$ `at_dollar`.)
use esp_slip_router.Prelude.{
  codes, ℕ, zero, suc, ◌+◌, ◌-◌, Bool, true, false, not, ◌&&◌, ◌||◌, [], ◌∷◌, ◌++◌, ltb, ◌==◌,
  if◌then◌else◌, set, u8,
}
use esp_slip_router.Hayes.Types.{Modem, Env, reg_s, cmd_at, h_is_num, h_multi_parse_num}
use esp_slip_router.Hayes.Output.{okay, error, connect_baud, no_carrier, h_print, h_result}
use esp_slip_router.Text.{c_str, decimal}

unfoldable pub h_dial : Env → Bool → Modem → Modem
h_dial env go_online m = h_result env connect_baud (record m { in_call = true; online = go_online })

-- AT$, AT&$ and ATD$, which list nothing yet
unfoldable pub ht_at_dollar : Env → Modem → Modem
ht_at_dollar env m = h_result env okay m

unfoldable pub ht_at_amp_dollar : Env → Modem → Modem
ht_at_amp_dollar env m = h_result env okay m

unfoldable pub ht_atd_dollar : Env → Modem → Modem
ht_atd_dollar env m = h_result env okay m

unfoldable pub hz_ata : Env → Modem → Modem
hz_ata env m = h_result env okay (record m { on_hook = false; in_call = true })

unfoldable pub h_ata : Env → ℕ → Modem → Bool × Modem
h_ata env a m =
    if a == b'0'
    then (true, h_result env okay (record m { on_hook = false; in_call = true }))
    else (false, m)

unfoldable pub ht_atdl : Env → Modem → Modem
ht_atdl env m = h_dial env true (record m { on_hook = false })

-- the characters that a dial string may hold
unfoldable pub is_dial_char : ℕ → Bool
is_dial_char c =
    h_is_num c
    || c == b','
    || c == b'@'
    || c == b'.'
    || c == b'W'
    || c == b'#'
    || c == b'!'
    || c == b'$'
    || c == b'&'
    || c == b';'
    || c == b'*'
    || c == b'"'

-- The loop of `ht_ATDN` with `left` rounds at most: how far it comes, and whether to go online.
unfoldable pub dial_loop : Env → Modem → ℕ → ℕ → ℕ → Bool → ℕ × Bool
dial_loop env m zero i taken go_online = (taken, go_online)
dial_loop env m (suc left) i taken go_online =
    let c = cmd_at env m (i + taken) in
    let rest = dial_loop env m left i (u8 (taken + 1)) (if c == b';' then false else go_online) in
    if ltb (i + taken) m.cmd_i && is_dial_char c then rest else (taken, go_online)

unfoldable pub ht_atdn : Env → ℕ → Modem → ℕ × Modem
ht_atdn env i m =
    let (taken, go_online) = dial_loop env m 64 i 1 true in
    (taken, h_dial env go_online (record m { on_hook = false }))

unfoldable pub hz_atd : Env → Modem → Modem
hz_atd env m = h_result env error m

-- The value is read by nobody, since the parser returns after a dial command.
unfoldable pub ht_atd : Env → ℕ → Modem → ℕ × Modem
ht_atd env i m =
    let c = cmd_at env m i in
    if c == b'L'
    then (1, ht_atdl env m)
    else if c == b'P' || c == b'R' || c == b'T'
    then ht_atdn env i m
    else if c == b'S'
    then (1, h_result env error m)
    else if c == b'$'
    then (1, ht_atd_dollar env m)
    else if h_is_num c
    then (let (taken, m') = ht_atdn env (u8 (i + 255)) m in (u8 (taken + 255), m'))
    else (u8 (40 + 256 - i), h_result env error m)

unfoldable pub h_ate : Env → ℕ → Modem → Bool × Modem
h_ate env a m =
    let m' = h_result env okay m in
    if not (a == b'0') && not (a == b'1')
    then (false, record m' { echo = false })
    else (true, record m' { echo = a == b'1' })

unfoldable pub hz_ate : Env → Modem → Modem
hz_ate env m = h_result env okay (record m { echo = false })

unfoldable pub hz_ati : Env → Modem → Modem
hz_ati env m = h_result env error m

unfoldable pub htz_ath : Env → Modem → Modem
htz_ath env m = h_result env okay (record m { on_hook = true; in_call = false })

unfoldable pub ht_ath : Env → ℕ → Modem → Bool × Modem
ht_ath env c m =
    if not (c == b'0') && not (c == b'1')
    then (false, htz_ath env m)
    else (true, record m { on_hook = c == b'0' })

unfoldable pub ht_ato : Env → Modem → Modem
ht_ato env m =
    if m.on_hook || not m.in_call
    then h_result env no_carrier m
    else h_result env okay (record m { online = true })

unfoldable pub h_atq : Env → ℕ → Modem → Bool × Modem
h_atq env a m =
    let m' = h_result env okay m in
    if not (a == b'0') && not (a == b'1')
    then (false, record m' { quiet = false })
    else (true, record m' { quiet = a == b'1' })

unfoldable pub hz_atq : Env → Modem → Modem
hz_atq env m = h_result env okay (record m { quiet = false })

unfoldable pub hz_ats_dollar : Env → Modem → Modem
hz_ats_dollar env m = h_result env okay m

-- the registers that ATS refuses
unfoldable pub is_reserved : ℕ → Bool
is_reserved reg =
    ltb 13 reg && ltb reg 16
    || ltb 25 reg && ltb reg 38
    || ltb 38 reg
    || reg == 17
    || reg == 20
    || reg == 24

-- the registers that hold a character
unfoldable pub is_char_reg : ℕ → Bool
is_char_reg reg = ltb 1 reg && ltb reg 6 || ltb 21 reg && ltb reg 24

-- ATSn? and ATSn=v, at the place behind the register's number
unfoldable pub use_reg : Env → ℕ → ℕ → ℕ → Modem → ℕ × Modem
use_reg env i reg taken m =
    let c = cmd_at env m (i + taken) in
    let taken' = taken + 1 in
    if c == b'?'
    then (
      taken',
      h_result env okay (
          h_print
            (codes "S"
              ++ decimal reg
              ++ codes " = "
              ++ (if is_char_reg reg then c_str (reg_s m reg ∷ []) else decimal (reg_s m reg)))
            m),
    )
    else if c == b'='
    then (
      taken',
      h_result env okay (record m {
        regs = set m.regs reg (
            if is_char_reg reg
            then cmd_at env m (taken' + i)
            else h_multi_parse_num env m (taken' + i));
      }),
    )
    else (u8 (40 + 256 - (i + taken')), h_result env error m)

-- what nothing calls: ATS with no argument, and AT+$
unfoldable pub hz_ats : Env → Modem → Modem
hz_ats env m = h_result env error m

unfoldable pub ht_atext_dollar : Env → Modem → Modem
ht_atext_dollar env m = h_result env okay m

unfoldable pub h_ats : Env → ℕ → Modem → ℕ × Modem
h_ats env i m =
    if cmd_at env m i == b'$'
    then (1, hz_ats_dollar env m)
    else if not (h_is_num (cmd_at env m i))
    then (u8 (40 + 256 - i), h_result env error m)
    else (let reg = h_multi_parse_num env m i in
        if is_reserved reg
        then (u8 (40 + 256 - i), h_result env error m)
        else use_reg env i reg (if ltb 9 reg then 2 else 1) m)

unfoldable pub h_atv : Env → ℕ → Modem → Bool × Modem
h_atv env a m =
    let m' = h_result env okay m in
    if not (a == b'0') && not (a == b'1')
    then (false, record m' { verbose = false })
    else (true, record m' { verbose = a == b'1' })

unfoldable pub hz_atv : Env → Modem → Modem
hz_atv env m = h_result env okay (record m { verbose = false })

unfoldable pub hz_atx : Env → Modem → Modem
hz_atx env m = h_result env error m

unfoldable pub h_atx : Env → ℕ → Modem → Bool × Modem
h_atx env c m =
    if not (h_is_num c)
    then (false, m)
    else if ltb 7 (c - 48)
    then (true, h_result env error m)
    else (true, record m { report = c - 48 })

-- system_restart, and an endless loop: the state at the restart, from which the code does not return
unfoldable pub ht_atz : Modem → Modem
ht_atz m = record m { restarted = true }

unfoldable pub ht_amp_f : Env → ℕ → Modem → Modem
ht_amp_f env c m = if c == b'0' then ht_atz m else ht_atz (h_result env error m)
