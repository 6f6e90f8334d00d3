-- ===== src/Hayes/Output.antt =====
-- What the modem of driver/hayes.c prints: echo, text, numbers and result codes.
use esp_slip_router.Text.{decimal}
use esp_slip_router.Prelude.{codes, ℕ, ◌&&◌, List, [], ◌∷◌, ◌++◌, ◌==◌, if◌then◌else◌, u8}
use esp_slip_router.Hayes.Types.{Modem, Env, reg_cr, reg_lf, char_out}

-- `hayes_result_t`
pub data Result : Type 0 where
  okay connect ring no_carrier error connect_baud no_dial_tone line_busy no_answer ringing : Result

unfoldable pub h_echo : ℕ → Modem → Modem
h_echo c m =
    if m.echo then (if c == reg_lf m && m.l_chr == reg_cr m then m else char_out c m) else m

unfoldable pub h_print_nocr : List ℕ → Modem → Modem
h_print_nocr [] m = m
h_print_nocr (c ∷ s) m = h_print_nocr s (char_out c m)

unfoldable pub h_print : List ℕ → Modem → Modem
unfolding h_print_nocr
h_print s m = let m' = h_print_nocr s m in char_out (reg_cr m') m'

unfoldable pub h_print_i : ℕ → Modem → Modem
h_print_i n m = h_print (decimal (u8 n)) m

-- the result code for a bit rate: the `switch` of `h_result_connbaud`
unfoldable pub baud_code : ℕ → ℕ
baud_code r =
    if r == 56000
    then 232
    else if r == 54666
    then 228
    else if r == 53333
    then 224
    else if r == 52000
    then 220
    else if r == 50666
    then 216
    else if r == 49333
    then 212
    else if r == 48000
    then 208
    else if r == 46666
    then 204
    else if r == 45333
    then 200
    else if r == 44000
    then 196
    else if r == 42666
    then 192
    else if r == 41333
    then 188
    else if r == 37333
    then 184
    else if r == 33333
    then 180
    else if r == 33600
    then 155
    else if r == 31200
    then 151
    else if r == 28800
    then 107
    else if r == 26400
    then 103
    else if r == 24000
    then 99
    else if r == 21600
    then 91
    else if r == 19200
    then 85
    else if r == 16800
    then 43
    else if r == 14400
    then 25
    else if r == 12000
    then 21
    else if r == 7200
    then 20
    else if r == 4800
    then 18
    else if r == 1200
    then 15
    else if r == 9600
    then 13
    else if r == 2400
    then 10
    else 1

-- RESP_CONBAUD. The C code formats it in 15 bytes, which hold bit rates of six digits at most.
unfoldable pub h_result_connbaud : Env → Modem → Modem
h_result_connbaud env m =
    if m.quiet
    then m
    else if m.verbose
    then h_print (codes "CONNECT " ++ decimal env.bit_rate) m
    else h_print_i (baud_code env.bit_rate) m

unfoldable pub h_result_send : List ℕ → ℕ → Modem → Modem
h_result_send text code m =
    if m.quiet then m else if m.verbose then h_print text m else h_print_i code m

abbrev pub result_case : Env → Result → Modem → Modem
result_case env okay m = h_result_send (codes "OK") 0 m
result_case env connect m = h_result_send (codes "CONNECT") 1 m
result_case env ring m = h_result_send (codes "RING") 2 m
result_case env no_carrier m = h_result_send (codes "NO CARRIER") 3 m
result_case env error m = h_result_send (codes "ERROR") 4 m
result_case env connect_baud m = h_result_connbaud env m
result_case env no_dial_tone m = h_result_send (codes "NO DIAL TONE") 6 m
result_case env line_busy m = h_result_send (codes "BUSY") 7 m
result_case env no_answer m = h_result_send (codes "NO ANSWER") 8 m
result_case env ringing m = h_result_send (codes "RINGING") 11 m

unfoldable pub h_result : Env → Result → Modem → Modem
h_result env res m = if m.quiet then m else result_case env res m
