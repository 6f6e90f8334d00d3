-- ===== src/Console/Answer.antt =====
-- `console_handle_command` of user/user_main.c as a whole: it ends, and what it leaves.
use esp_slip_router.Prelude.{
  ℕ, ◌≡◌, refl, sym, ◌∙◌, ap, Bool, true, false, some, List, [], ◌++◌, if◌then◌else◌,
}
use esp_slip_router.Ringbuf.{Ringbuf, moved, memcpy_from, bytes_used}
use esp_slip_router.Ringbuf.Into.{keep}
use esp_slip_router.Console.Tokens.{command_tokens}
use esp_slip_router.Console.Types.{Console, Env, system_os_post, console_tx}
use esp_slip_router.Console.Set.{Reply, call}
use esp_slip_router.Console.Commands.{is_reset, answer, print, finish, console_handle_command}
use esp_slip_router.Console.Rings.{Holds, concat, print-Holds, drain-Holds}
use esp_slip_router.Console.Frame.{Frame, answer-frame}
use esp_slip_router.Console.Locked.{settings_of, is_unlock, answer-locked}

-- the state at the end of a command, whose reply is printed in `tx`
abbrev pub ended : {S : Type 0} → Bool → ℕ → Ringbuf → Console S → Console S
ended restarts conn tx c =
    let c' = record c { console_tx_buffer = tx } in
    if restarts then c' else call (system_os_post console_tx conn) c'

finish_lem :
    {S : Type 0} (restarts : Bool) (conn : ℕ) (r : Reply S) {tx : Ringbuf}
    → print r.0 r.1.console_tx_buffer ≡ some tx
    → finish restarts conn r ≡ some (ended restarts conn tx r.1)
unfolding finish
finish_lem true conn r e = rw (e, finish) refl
finish_lem false conn r e = rw (e, finish) refl

module _ {S : Type 0} (env : Env S) (conn : ℕ) where
  -- the reply to a line, once the line is taken from its ring, which is then `rx`
  abbrev pub replied : List ℕ → Ringbuf → Console S → Reply S
  replied line rx c = answer env conn (command_tokens line) (record c { console_rx_buffer = rx })

  taken :
      (c : Console S) {rx : Ringbuf} {line : List ℕ}
      → memcpy_from c.console_rx_buffer (bytes_used c.console_rx_buffer) ≡ moved (rx, line)
      → console_handle_command env conn c
        ≡ finish (is_reset (command_tokens line)) conn (replied line rx c)
  unfolding console_handle_command
  taken c e = rw (e, console_handle_command) refl

  -- A command always ends: the line is taken, the texts of its answer follow what waits to be sent, of
  -- which the newest bytes stay that the ring has room for, and unless the chip restarts a
  -- signal goes to the main task last.
  pub console_handle_command_lem :
      (c : Console S) {n m : ℕ} {line out : List ℕ}
      → Holds c.console_rx_buffer n line
      → Holds c.console_tx_buffer m out
      → (rx : Ringbuf) × (tx : Ringbuf) × (console_handle_command env conn c
          ≡ some (ended (is_reset (command_tokens line)) conn tx (replied line rx c).1))
        × Holds rx n []
        × Holds tx m (keep m (out ++ concat (replied line rx c).0))
  console_handle_command_lem c {n} {m} {line} {out} hr ht =
      let (rx, e, hr') = drain-Holds hr in
      let r = replied line rx c in
      let same : c.console_tx_buffer ≡ r.1.console_tx_buffer = sym (
        ap (λ (f : Frame). f.1)
          (answer-frame env (record c { console_rx_buffer = rx }) conn (command_tokens line))) in
      let (tx, e', ht') = print-Holds r.0 ht in
      (
        rx,
        tx,
        taken c e
            ∙ finish_lem (is_reset (command_tokens line)) conn r (ap (print r.0) (sym same) ∙ e'),
        hr',
        ht',
      )

  -- While the configuration is locked, no command but `unlock` with the password and `reset` changes
  -- it or the table of ports.
  pub console_handle_command-locked :
      (c : Console S) {n m : ℕ} {line out : List ℕ}
      → Holds c.console_rx_buffer n line
      → Holds c.console_tx_buffer m out
      → c.config.locked ≡ 1
      → is_unlock (command_tokens line) c ≡ false
      → is_reset (command_tokens line) ≡ false
      → (c' : Console S) × (console_handle_command env conn c ≡ some c')
        × (settings_of c' ≡ settings_of c)
  unfolding is_unlock
  console_handle_command-locked c {line = line} hr ht l u r =
      let (rx, tx, e, _, _) = console_handle_command_lem c hr ht in
      (
        ended (is_reset (command_tokens line)) conn tx (replied line rx c).1,
        e,
        rw r (
            answer-locked env (record c { console_rx_buffer = rx }) conn (command_tokens line) l u
              r),
      )
