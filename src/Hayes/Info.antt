-- ===== src/Hayes/Info.antt =====
-- The ATI commands of driver/hayes.c, which print what the modem is and its settings.
use esp_slip_router.Prelude.{
  codes, ℕ, zero, suc, ◌+◌, ◌%◌, ◌/◌, Bool, List, [], ◌∷◌, ◌++◌, ltb, ◌==◌, if◌then◌else◌,
}
use esp_slip_router.Hayes.Types.{Modem, Env, reg_cr, char_out, cmd_at, h_is_num, h_multi_parse_num}
use esp_slip_router.Hayes.Output.{okay, error, h_print_nocr, h_print, h_result}
use esp_slip_router.Text.{c_str, decimal}

-- %u of a flag
abbrev flag : Bool → List ℕ
flag b = if b then codes "1" else codes "0"

-- %x of a character
abbrev nibble : ℕ → ℕ
nibble n = if ltb n 10 then 48 + n else 87 + n

abbrev hex : ℕ → List ℕ
hex c = if ltb c 16 then nibble c ∷ [] else nibble (c / 16) ∷ nibble (c % 16) ∷ []

unfoldable pub h_print_h : List ℕ → Modem → Modem
h_print_h suffix m = h_print (codes "esp_slip_router Emulated Hayes Modem " ++ suffix) m

-- `modem.id` as `h_init_pnp` fills it. `eisa_id`, `prod_id` and `serial_no` are filled to the last
-- byte, so that a %s of one of them reads on to the end of `class_id`.
abbrev id_from_serial_no : List ℕ
id_from_serial_no = codes "00000000" ++ codes "MODEM"

abbrev id_from_prod_id : List ℕ
id_from_prod_id = codes "ESRH" ++ id_from_serial_no

abbrev id_from_eisa_id : List ℕ
id_from_eisa_id = codes "ESP" ++ id_from_prod_id

unfoldable pub h_serialise_pnp : List ℕ
h_serialise_pnp =
    (0x28 ∷ [])
    ++ decimal 1
    ++ decimal 0x24
    ++ id_from_eisa_id
    ++ id_from_prod_id
    ++ (0x5c ∷ 0x5c ∷ [])
    ++ codes "MODEM"
    ++ (0x5c ∷ [])
    ++ codes "ESPESRH,ATM1152"
    ++ (0x29 ∷ [])

-- the line of ATI4
unfoldable pub settings : Env → Modem → List ℕ
settings env m =
    codes "E"
    ++ flag m.echo
    ++ codes " L2 M1 Q"
    ++ flag m.quiet
    ++ codes " V"
    ++ flag m.verbose
    ++ codes " X"
    ++ decimal m.report
    ++ (reg_cr m ∷ [])
    ++ codes "BAUD="
    ++ decimal env.bit_rate
    ++ codes " PARITY=N WORDLEN=8"
    ++ (reg_cr m ∷ [])
    ++ codes "DIAL=HUNT O"
    ++ (if m.on_hook then codes "N " else codes "FF")
    ++ codes " HOOK TIMER"
    ++ (reg_cr m ∷ [])

-- one place of `cmdbuf` in ATI19
unfoldable pub cmdbuf_text : Env → Modem → ℕ → List ℕ
cmdbuf_text env m i =
    let c = cmd_at env m i in
    c_str (
      decimal i
      ++ codes ": "
      ++ (c ∷ [])
      ++ codes " ("
      ++ decimal c
      ++ codes ", "
      ++ hex c
      ++ codes ")    ")

-- the loop `while(iter<40)` of ATI19, with `left` rounds to go from `iter` on
unfoldable pub dump_cmdbuf : Env → ℕ → ℕ → Modem → Modem
dump_cmdbuf env zero iter m = m
dump_cmdbuf env (suc left) iter m =
    let m' = h_print_nocr (cmdbuf_text env m iter) m in
    dump_cmdbuf env left (iter + 1) (if iter % 4 == 0 then char_out (reg_cr m') m' else m')

-- ATI19: the state of the modem
unfoldable pub print_state : Env → Modem → Modem
print_state env m =
    let heading =
      h_print
        (codes "E"
          ++ flag m.echo
          ++ codes "Q"
          ++ flag m.quiet
          ++ codes "V"
          ++ flag m.verbose
          ++ codes "X"
          ++ decimal m.report)
        m in
    let dump = dump_cmdbuf env 40 0 (h_print (codes "cmdbuf:") heading) in
    let ended = char_out (reg_cr dump) dump in
    let index =
      h_print
        (c_str (
          codes "cmdbuf index "
          ++ decimal m.cmd_i
          ++ codes ", last "
          ++ decimal m.l_cmd_i
          ++ codes ", lchr "
          ++ (m.l_chr ∷ [])))
        ended in
    h_print
      (codes "online="
        ++ flag m.online
        ++ codes " on-hook="
        ++ flag m.on_hook
        ++ codes " in-cmd="
        ++ flag m.in_cmd
        ++ codes " n-escs="
        ++ decimal m.n_escs)
      index

-- What the `switch` of `ht_ATI` prints for the method, and its result: `case 19` goes on into `default`.
unfoldable pub inform : Env → ℕ → Modem → Modem
inform env method m =
    if method == 0
    then h_result env okay (h_print (codes "ESP_SR") m)
    else if method == 1
    then h_result env okay (h_print (codes "A0B1") m)
    else if method == 2
    then h_result env okay m
    else if method == 3
    then h_result env okay (h_print (codes "V1.1.1") m)
    else if method == 4
    then h_result env okay (h_print (settings env m) (h_print_h (codes "Settings...") m))
    else if method == 5
    then h_result env okay m
    else if method == 6
    then h_result env okay m
    else if method == 7
    then h_result env okay m
    else if method == 9
    then h_result env okay (h_print h_serialise_pnp m)
    else if method == 10
    then h_result env okay m
    else if method == 11
    then h_result env okay m
    else if method == 19
    then h_result env error (print_state env m)
    else h_result env error m

unfoldable pub ht_ati : Env → ℕ → Modem → Modem
ht_ati env i m =
    if h_is_num (cmd_at env m i)
    then inform env (h_multi_parse_num env m i) m
    else h_result env error m
