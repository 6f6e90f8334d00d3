-- ===== src/Hayes/Handler.antt =====
-- What the modem of driver/hayes.c does with a character from the serial line.
use esp_slip_router.Prelude.{
  ℕ, ◌+◌, ◌-◌, ◌%◌, Bool, true, false, not, ◌&&◌, Option, none, some, List, [], replicate, ltb,
  ◌==◌, if◌then◌else◌, set,
}
use esp_slip_router.Hayes.Types.{Modem, Env, reg_esc, reg_cr, reg_bs, cmd_at}
use esp_slip_router.Hayes.Output.{okay, error, h_echo, h_result}
use esp_slip_router.Hayes.Parse.{h_cmdparse}

-- After a parse the command ends, unless the modem restarts.
abbrev pub after_parse : (Modem → Modem) → Option Modem → Option Modem
after_parse f none = none
after_parse f (some m) = if m.restarted then some m else some (f m)

-- A character of a command line; the flag says whether `l_chr` is set at the end.
unfoldable pub recv_cmd : Env → ℕ → Modem → Bool × Option Modem
recv_cmd env c m =
    if c == reg_cr m
    then (
      true,
      after_parse (λ m'. record m' { in_cmd = false; l_cmd_i = m'.cmd_i; cmd_i = 0 })
          (h_cmdparse env m),
    )
    else if c == reg_bs m && ltb 0 m.cmd_i
    then (
      false,
      some (record m {
        cmd_i = m.cmd_i - 1;
        l_chr = if ltb 0 (m.cmd_i - 1) then cmd_at env m (m.cmd_i - 1) else m.l_chr;
      }),
    )
    else if m.cmd_i == 40
    then (true, some (record (h_result env error m) { in_cmd = false; l_cmd_i = 0; cmd_i = 0 }))
    else (true, some (record m { cmdbuf = set m.cmdbuf m.cmd_i c; cmd_i = (m.cmd_i + 1) % 64 }))

-- A character outside a command line: `A/` repeats the last command, `AT` begins one.
unfoldable pub recv_idle : Env → ℕ → Modem → Option Modem
recv_idle env c m =
    if m.l_chr == b'A'
    then (if c == b'/'
        then after_parse (λ m'. record m' { in_cmd = false; cmd_i = 0 })
            (h_cmdparse env (record m { in_cmd = true; cmd_i = m.l_cmd_i }))
        else if c == b'T'
        then some (record m { in_cmd = true })
        else some m)
    else some m

abbrev pub set_l_chr : ℕ → Bool × Option Modem → Option Modem
set_l_chr c (sets, none) = none
set_l_chr c (sets, some m) =
    if sets && not m.restarted then some (record m { l_chr = c }) else some m

unfoldable pub h_recv : Env → ℕ → Modem → Option Modem
h_recv env c m =
    let m' = h_echo c m in
    set_l_chr c (if m'.in_cmd then recv_cmd env c m' else (true, recv_idle env c m'))

-- What `h_handler` returns (whether the character was handled), what it passed to `slip_rx`, counting
-- each byte in `bytes_out`, and the modem.
pub record Handled : Type 0 where
  pub handled : Bool
  pub slip : List ℕ
  pub modem : Modem

abbrev pub handled_by_recv : Option Modem → Option Handled
handled_by_recv none = none
handled_by_recv (some m) = some (record { handled = true; slip = []; modem = m })

-- `while(modem.state.n_escs-->0)`: the 2-bit counter is decremented once more when the test fails.
unfoldable pub replay : Modem → List ℕ × Modem
replay m =
    if m.in_esc
    then (replicate m.n_escs (reg_esc m), record m { in_esc = false; n_escs = 3 })
    else ([], m)

unfoldable pub h_handler : Env → ℕ → Modem → Option Handled
h_handler env c m =
    if not m.online
    then handled_by_recv (h_recv env c m)
    else if c == reg_esc m
    then (if m.in_esc && m.n_escs == 2
        then some (record {
          handled = true;
          slip = [];
          modem = h_result env okay (record m { in_esc = false; n_escs = 0; online = false });
        })
        else some (record {
          handled = true;
          slip = [];
          modem = record m { in_esc = true; n_escs = (m.n_escs + 1) % 4 };
        }))
    else (let (slip, m') = replay m in some (record { handled = false; slip = slip; modem = m' }))
