-- ===== src/Console/Run.antt =====
-- The callbacks and the main task of user/user_main.c as events, run in any order, and the invariant of
-- the state between them.
use esp_slip_router.Console.Types.{Console, Env, Signal}
use esp_slip_router.Console.Events.{
  BssInfo, WifiEvent, scan_done, tcp_client_recv_cb, tcp_client_connected_cb, user_proc_task,
  wifi_handle_event_cb,
}
use esp_slip_router.Console.Rings.{Holds}
use esp_slip_router.Console.Shape.{AreBytes, IsConfig}
use esp_slip_router.Prelude.{ℕ, ◌≡◌, subst, Option, none, some, List, [], ◌∷◌}

-- one call of a callback, or of the main task with a signal
pub data Event : Type 0 where
  connects : ℕ → Event
  receives : ℕ → List ℕ → Event
  signals : Signal → ℕ → Event
  scanned : Option (List BssInfo) → Event
  wifi : WifiEvent → Event

-- what is received are bytes
pub data ByteEvents : List Event → Type 0 where
  no_events : ByteEvents []
  bytes_event :
      {conn : ℕ} {data' : List ℕ} {es : List Event}
      → AreBytes data'
      → ByteEvents es
      → ByteEvents (receives conn data' ∷ es)
  connects_event : {conn : ℕ} {es : List Event} → ByteEvents es → ByteEvents (connects conn ∷ es)
  signals_event :
      {sig : Signal} {par : ℕ} {es : List Event} → ByteEvents es → ByteEvents (signals sig par ∷ es)
  scanned_event :
      {found : Option (List BssInfo)} {es : List Event}
      → ByteEvents es
      → ByteEvents (scanned found ∷ es)
  wifi_event : {e : WifiEvent} {es : List Event} → ByteEvents es → ByteEvents (wifi e ∷ es)

module _ {S : Type 0} where
  abbrev pub and_then : Option (Console S) → (Console S → Option (Console S)) → Option (Console S)
  and_then none f = none
  and_then (some c) f = f c

module _ {S : Type 0} (env : Env S) where
  unfoldable pub handle : Event → Console S → Option (Console S)
  handle (connects conn) c = some (tcp_client_connected_cb conn c)
  handle (receives conn data') c = tcp_client_recv_cb conn data' c
  handle (signals sig par) c = user_proc_task env sig par c
  handle (scanned found) c = scan_done found c
  handle (wifi e) c = some (wifi_handle_event_cb env e c)

  -- the events one after the other; `none` if one of them fails
  unfoldable pub run : List Event → Console S → Option (Console S)
  unfolding handle
  run [] c = some c
  run (e ∷ es) c = and_then (handle e c) (run es)

-- Both rings are valid and have their room, what was received are bytes, and each field of the
-- configuration fits in its type.
pub record Sound {S : Type 0} (n m : ℕ) (c : Console S) : Type 0 where
  pub line : List ℕ
  pub out : List ℕ
  pub rx : Holds c.console_rx_buffer n line
  pub tx : Holds c.console_tx_buffer m out
  pub typed : AreBytes line
  pub widths : IsConfig c.config

-- An event ends in a sound state.
abbrev pub Ends : {S : Type 0} → ℕ → ℕ → Option (Console S) → Type 0
Ends {S} n m o = (c : Console S) × (o ≡ some c) × Sound n m c

-- A state with the same rings and the same configuration is sound too.
pub same-Sound :
    {S : Type 0} {n m : ℕ} (c c' : Console S)
    → c.console_rx_buffer ≡ c'.console_rx_buffer
    → c.console_tx_buffer ≡ c'.console_tx_buffer
    → c.config ≡ c'.config
    → Sound n m c
    → Sound n m c'
same-Sound {n = n} {m = m} c c' r t f s = record {
  line = s.line;
  out = s.out;
  rx = subst (λ b. Holds b n s.line) r s.rx;
  tx = subst (λ b. Holds b m s.out) t s.tx;
  typed = s.typed;
  widths = subst IsConfig f s.widths;
}
