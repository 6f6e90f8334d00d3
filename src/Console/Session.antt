-- ===== src/Console/Session.antt =====
-- The TCP console of user/user_main.c from a received line to the bytes that are sent back.
use esp_slip_router.Prelude.{
  ℕ, ◌≤◌, ◌≡◌, ◌≢◌, refl, sym, subst, ◌∙◌, ap, Bool, false, not, some, ◌&&◌, ◌||◌, List, [], ◌∷◌,
  ◌++◌, append_assoc, append-nil, length, ◌==◌, if◌then◌else◌, on_if, Bool-cases, inl, inr, arith,
}
use esp_slip_router.Ringbuf.{Ringbuf, memcpy_into}
use esp_slip_router.Ringbuf.Into.{keep}
use esp_slip_router.Console.Tokens.{command_tokens}
use esp_slip_router.Console.Types.{
  Console, Env, Call, system_os_post, espconn_sent, espconn_disconnect, console_rx, console_tx,
}
use esp_slip_router.Console.Set.{call}
use esp_slip_router.Console.Commands.{is_reset, console_handle_command}
use esp_slip_router.Console.Events.{
  prompt, sent_to, signal_line, after_send, console_send_response, tcp_client_recv_cb,
  user_proc_task,
}
use esp_slip_router.Console.Rings.{
  Holds, concat, keep-all, keep-keep, length-Holds, into-Holds, drain-Holds,
}
use esp_slip_router.Console.Frame.{Frame, answer-frame}
use esp_slip_router.Console.Answer.{ended, replied, console_handle_command_lem}

-- a signal for each line feed
abbrev pub lines : ℕ → List ℕ → List Call
lines conn [] = []
lines conn (ch ∷ bytes) =
    let rest = lines conn bytes in
    if ch == b'\n' then system_os_post console_rx conn ∷ rest else rest

abbrev pub has_line_feed : List ℕ → Bool
has_line_feed [] = false
has_line_feed (ch ∷ bytes) = ch == b'\n' || has_line_feed bytes

-- A line feed behind a line gives the one signal.
lines-line :
    (conn : ℕ) (line : List ℕ)
    → has_line_feed line ≡ false
    → lines conn (line ++ b'\n' ∷ []) ≡ system_os_post console_rx conn ∷ []
lines-line conn [] h = refl
lines-line conn (ch ∷ line) h = elim (Bool-cases (ch == b'\n')) [
  | inl e ↦ absurd (ground arith)
  | inr e ↦ rw e (lines-line conn line (ground arith))
]

module _ {S : Type 0} where
  -- the state with another input ring and more calls
  abbrev pub received : Ringbuf → List Call → Console S → Console S
  received rx more c = record c { console_rx_buffer = rx; calls = c.calls ++ more }

  signal_line_lem :
      (conn ch : ℕ) (bytes : List ℕ) (rx rx' : Ringbuf) (c : Console S)
      → received rx' (lines conn bytes) (signal_line conn ch (record c { console_rx_buffer = rx }))
        ≡ received rx' (lines conn (ch ∷ bytes)) c
  signal_line_lem conn ch bytes rx rx' c = elim (Bool-cases (ch == b'\n')) [
    | inl e ↦ rw e (
        ap (λ l. record c { console_rx_buffer = rx'; calls = l })
          (append_assoc c.calls (system_os_post console_rx conn ∷ []) (lines conn bytes)))
    | inr e ↦ rw e refl
  ]

  receive :
      (conn ch : ℕ) (bytes : List ℕ) (c : Console S) {rx : Ringbuf}
      → memcpy_into c.console_rx_buffer (ch ∷ []) ≡ some rx
      → tcp_client_recv_cb conn (ch ∷ bytes) c
        ≡ tcp_client_recv_cb conn bytes (signal_line conn ch (record c { console_rx_buffer = rx }))
  unfolding tcp_client_recv_cb
  receive conn ch bytes c e = rw (e, tcp_client_recv_cb) refl

  -- What tcp_client_recv_cb receives is appended to the ring, of which the newest bytes stay that
  -- there is room for, and the main task gets one signal for each line feed.
  pub tcp_client_recv_cb_lem :
      (conn : ℕ) (bytes : List ℕ) (c : Console S) {n : ℕ} {held : List ℕ}
      → Holds c.console_rx_buffer n held
      → (rx : Ringbuf) × (tcp_client_recv_cb conn bytes c ≡ some (received rx (lines conn bytes) c))
        × Holds rx n (keep n (held ++ bytes))
  unfolding tcp_client_recv_cb
  tcp_client_recv_cb_lem conn [] c {n} {held} h = (
    c.console_rx_buffer,
    ap (λ l. some (record c { calls = l })) (sym (append-nil c.calls)),
    record {
      valid = h.valid;
      space = h.space;
      held = h.held ∙ sym (ap (keep n) (append-nil held) ∙ keep-all n held (length-Holds h));
    },
  )
  tcp_client_recv_cb_lem conn (ch ∷ bytes) c {n} {held} h =
      let (rx, e, h') = into-Holds (ch ∷ []) h in
      let (rx', e', h'') =
        tcp_client_recv_cb_lem conn bytes
          (signal_line conn ch (record c { console_rx_buffer = rx })) {n = n}
          {held = keep n (held ++ ch ∷ [])}
          (on_if (λ (c' : Console S). Holds c'.console_rx_buffer n (keep n (held ++ ch ∷ [])))
            (ch == b'\n') h' h') in
      (
        rx',
        receive conn ch bytes c e ∙ e' ∙ ap some (signal_line_lem conn ch bytes rx rx' c),
        record {
          valid = h''.valid;
          space = h''.space;
          held =
              h''.held
              ∙ keep-keep n (held ++ ch ∷ []) bytes
              ∙ ap (keep n) (append_assoc held (ch ∷ []) bytes);
        },
      )

  -- console_send_response sends what waits, followed by the prompt, and leaves nothing waiting.
  pub console_send_response_lem :
      (conn : ℕ) (c : Console S) {m : ℕ} {out : List ℕ}
      → Holds c.console_tx_buffer m out
      → (tx : Ringbuf) × (console_send_response conn c
          ≡ some (sent_to conn (out ++ prompt) (record c { console_tx_buffer = tx })))
        × Holds tx m []
  unfolding console_send_response
  console_send_response_lem conn c h =
      let (tx, e, h') = drain-Holds h in (tx, rw (e, console_send_response) refl, h')

module _ {S : Type 0} (env : Env S) (conn : ℕ) where
  -- what the main task does after a command, when the connection is not NULL
  abbrev pub sent : Ringbuf → List ℕ → Console S → Console S
  sent tx out c =
      after_send conn
        (call (espconn_sent conn (out ++ prompt)) (record c { console_tx_buffer = tx }))

  pub respond :
      (c : Console S) {m : ℕ} {out : List ℕ}
      → conn ≢ 0
      → Holds c.console_tx_buffer m out
      → (tx : Ringbuf) × (user_proc_task env console_tx conn c ≡ some (sent tx out c))
        × Holds tx m []
  unfolding user_proc_task
  respond c {m} {out} z h =
      let (tx, e, h') = console_send_response_lem conn c h in
      let nz : (conn == 0) ≡ false = ground arith in (tx, rw (e, user_proc_task) (rw nz refl), h')

  pub task_rx :
      (c : Console S) → user_proc_task env console_rx conn c ≡ console_handle_command env conn c
  unfolding user_proc_task console_handle_command
  task_rx c = refl

  pub replied-rx :
      (line : List ℕ) (rx : Ringbuf) (c : Console S)
      → (replied env conn line rx c).1.console_rx_buffer ≡ rx
  replied-rx line rx c =
      ap (λ (f : Frame). f.0)
        (answer-frame env (record c { console_rx_buffer = rx }) conn (command_tokens line))

  -- the last calls of an answer
  abbrev pub last_calls : List ℕ → Bool → List Call
  last_calls out disconnect =
      system_os_post console_tx conn
      ∷ espconn_sent conn (out ++ prompt)
      ∷ (if disconnect then espconn_disconnect conn ∷ [] else [])

  sent-calls :
      (restarts : Bool) (tx tx' : Ringbuf) (out : List ℕ) (c : Console S)
      → conn ≢ 0
      → restarts ≡ false
      → (sent tx' out (ended restarts conn tx c)).calls
        ≡ c.calls ++ last_calls out c.remote_console_disconnect
  sent-calls restarts tx tx' out c z r =
      let nz : (conn == 0) ≡ false = ground arith in
      rw r (
        rw nz (elim (Bool-cases c.remote_console_disconnect) [
          | inl e ↦ rw e (
              ap (λ l. l ++ espconn_disconnect conn ∷ [])
                (append_assoc c.calls (system_os_post console_tx conn ∷ [])
                  (espconn_sent conn (out ++ prompt) ∷ []))
              ∙ append_assoc c.calls
                  (system_os_post console_tx conn ∷ espconn_sent conn (out ++ prompt) ∷ [])
                  (espconn_disconnect conn ∷ []))
          | inr e ↦ rw e (
              append_assoc c.calls (system_os_post console_tx conn ∷ [])
                (espconn_sent conn (out ++ prompt) ∷ []))
        ]))

  pub sent-rings :
      (tx tx' : Ringbuf) (out : List ℕ) (c : Console S)
      → ((sent tx' out (ended false conn tx c)).console_rx_buffer ≡ c.console_rx_buffer)
        × ((sent tx' out (ended false conn tx c)).console_tx_buffer ≡ tx')
  sent-rings tx tx' out c = elim (Bool-cases (not (conn == 0) && c.remote_console_disconnect)) [
    | inl e ↦ rw e (refl, refl)
    | inr e ↦ rw e (refl, refl)
  ]

  -- A line and its line feed come in, for which the signal to read them is posted and nothing else is called;
  -- the task handles that signal, whose last call posts the one to send; and it handles that one.
  -- The rings have room for `n` and `m` bytes.
  abbrev pub Served : List ℕ → Console S → ℕ → ℕ → Type 0
  Served line c n m =
      (c1 : Console S) × (c2 : Console S) × (c3 : Console S) × (rx : Ringbuf) × (tcp_client_recv_cb
          conn (line ++ b'\n' ∷ []) c
        ≡ some c1)
      × (c1.calls ≡ c.calls ++ system_os_post console_rx conn ∷ [])
      × (user_proc_task env console_rx conn c1 ≡ some c2)
      × (c2.calls
          ≡ (replied env conn (line ++ b'\n' ∷ []) rx c1).1.calls
            ++ system_os_post console_tx conn ∷ [])
      × (user_proc_task env console_tx conn c2 ≡ some c3)
      × Holds c3.console_rx_buffer n []
      × Holds c3.console_tx_buffer m []
      × (c3.calls
          ≡ (replied env conn (line ++ b'\n' ∷ []) rx c1).1.calls
            ++ last_calls (keep m (concat (replied env conn (line ++ b'\n' ∷ []) rx c1).0))
                (replied env conn (line ++ b'\n' ∷ []) rx c1).1.remote_console_disconnect)

  -- A line that comes in with its line feed on a connection, to rings that hold nothing and have room
  -- for it, is answered, if it is no `reset` command: it makes tcp_client_recv_cb post one signal to
  -- read it, that signal makes the task post the one to send, and on that one the last call but the
  -- end of the connection after `quit` sends the texts of the reply, as many of their last bytes as
  -- the ring has room for, and the prompt. Both rings hold nothing again.
  pub line_is_answered :
      (line : List ℕ) (c : Console S) {n m : ℕ}
      → has_line_feed line ≡ false
      → conn ≢ 0
      → Holds c.console_rx_buffer n []
      → Holds c.console_tx_buffer m []
      → length (line ++ b'\n' ∷ []) ≤ n
      → is_reset (command_tokens (line ++ b'\n' ∷ [])) ≡ false
      → Served line c n m
  line_is_answered line c {n} {m} lf z hr ht room nr =
      let bytes = line ++ b'\n' ∷ [] in
      let (rx1, e1, h1) = tcp_client_recv_cb_lem conn bytes c hr in
      let c1 = received rx1 (lines conn bytes) c in
      let (rx, tx, e2, h2, h2') =
        console_handle_command_lem env conn c1 {line = bytes}
          (subst (Holds rx1 n) (keep-all n bytes room) h1) ht in
      let r = replied env conn bytes rx c1 in
      let c2 = ended false conn tx r.1 in
      let (tx3, e3, h3) = respond c2 z h2' in
      let out = keep m (concat r.0) in
      let rings = sent-rings tx tx3 out r.1 in
      (
        c1,
        c2,
        sent tx3 out c2,
        rx,
        e1,
        ap (λ l. c.calls ++ l) (lines-line conn line lf),
        task_rx c1 ∙ e2 ∙ ap (λ b. some (ended b conn tx r.1)) nr,
        refl,
        e3,
        subst (λ b. Holds b n []) (sym (rings.0 ∙ replied-rx bytes rx c1)) h2,
        subst (λ b. Holds b m []) (sym rings.1) h3,
        sent-calls false tx tx3 out r.1 z refl,
      )
