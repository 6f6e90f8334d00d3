-- ===== src/Console/Reach.antt =====
-- Any sequence of the callbacks and signals of user/user_main.c, in any order: none of them fails, and
-- a client that connects then is served.
use esp_slip_router.Ringbuf.Into.{keep}
use esp_slip_router.Console.Tokens.{command_tokens}
use esp_slip_router.Console.Types.{
  Portmap, Console, Env, Signal, start_server, uart0, console_rx, console_tx, spurious,
  system_os_post, espconn_sent, espconn_disconnect, slipif_process_rxqueue,
}
use esp_slip_router.Console.Commands.{is_reset, console_handle_command}
use esp_slip_router.Console.Set.{call}
use esp_slip_router.Console.Start.{user_init, init_table}
use esp_slip_router.Config.{SysConfig, config_load}
use esp_slip_router.Ringbuf.{Ringbuf}
use esp_slip_router.Console.Events.{
  BssInfo, WifiEvent, stamode_connected, stamode_disconnected, stamode_authmode_change,
  stamode_got_ip, other_event, scan_texts, scan_done, sent_to, after_send, tcp_client_recv_cb,
  tcp_client_connected_cb, user_proc_task, wifi_handle_event_cb, prompt,
}
use esp_slip_router.Console.Rings.{Holds, concat, print-Holds, reset-Holds}
use esp_slip_router.Console.Answer.{console_handle_command_lem, ended, replied}
use esp_slip_router.Console.Session.{
  Served, has_line_feed, received, lines, line_is_answered, tcp_client_recv_cb_lem,
  console_send_response_lem, replied-rx, task_rx,
}
use esp_slip_router.Console.Shape.{AreBytes, no_bytes, append-AreBytes, drop-AreBytes, IsConfig}
use esp_slip_router.Console.Wide.{replied-IsConfig}
use esp_slip_router.Console.Run.{
  Event, connects, receives, signals, scanned, wifi, ByteEvents, bytes_event, connects_event,
  signals_event, scanned_event, wifi_event, handle, and_then, run, Sound, Ends, same-Sound,
}
use esp_slip_router.Prelude.{
  ℕ, ◌<◌, ◌≤◌, ◌≡◌, ◌≢◌, refl, sym, ◌∙◌, subst, eq_of_some, Bool, true, false, not, ◌&&◌, ◌==◌,
  Option, none, some, List, [], ◌∷◌, ◌++◌, length, on_if,
}

-- `user_init` uses the configuration that is loaded.
init-config :
    {S : Type 0} (env : Env S) (table : List Portmap) (loaded : Bool × SysConfig × S)
    → (init_table env table loaded).0 ≡ loaded.1
init-config env table (true, config, flash) = refl
init-config env table (false, config, flash) = refl

module _ {S : Type 0} {n m : ℕ} where
  connects-Ends :
      (conn : ℕ) (c : Console S) → Sound n m c → Ends n m (some (tcp_client_connected_cb conn c))
  unfolding tcp_client_connected_cb
  connects-Ends conn c s = (
    _,
    refl,
    record {
      line = [];
      out = [];
      rx = reset-Holds s.rx;
      tx = reset-Holds s.tx;
      typed = no_bytes;
      widths = s.widths;
    },
  )

  receives-Ends :
      (conn : ℕ) (data' : List ℕ) (c : Console S)
      → AreBytes data'
      → Sound n m c
      → Ends n m (tcp_client_recv_cb conn data' c)
  receives-Ends conn data' c b s =
      let (rx, e, h) = tcp_client_recv_cb_lem conn data' c s.rx in
      (
        received rx (lines conn data') c,
        e,
        record {
          line = keep n (s.line ++ data');
          out = s.out;
          rx = h;
          tx = s.tx;
          typed = drop-AreBytes _ (append-AreBytes s.typed b);
          widths = s.widths;
        },
      )

  scanned-Ends :
      (found : Option (List BssInfo)) (c : Console S) → Sound n m c → Ends n m (scan_done found c)
  unfolding scan_done
  scanned-Ends found c s =
      let (tx, e, h) = print-Holds (scan_texts found) s.tx in
      (
        call (system_os_post console_tx c.scanconn) (record c { console_tx_buffer = tx }),
        rw (e, scan_done) refl,
        record {
          line = s.line;
          out = keep m (s.out ++ concat (scan_texts found));
          rx = s.rx;
          tx = h;
          typed = s.typed;
          widths = s.widths;
        },
      )

  wifi-Ends :
      (env : Env S) (e : WifiEvent) (c : Console S)
      → Sound n m c
      → Ends n m (some (wifi_handle_event_cb env e c))
  unfolding wifi_handle_event_cb
  wifi-Ends env stamode_connected c s = (_, refl, s)
  wifi-Ends env stamode_disconnected c s =
      (_, refl, same-Sound c (record c { connected = false }) refl refl refl s)
  wifi-Ends env stamode_authmode_change c s = (_, refl, s)
  wifi-Ends env (stamode_got_ip ip) c s =
      (_, refl, same-Sound c (wifi_handle_event_cb env (stamode_got_ip ip) c) refl refl refl s)
  wifi-Ends env other_event c s = (_, refl, s)

  sent_to-Sound :
      (conn : ℕ) (bytes : List ℕ) (c : Console S) → Sound n m c → Sound n m (sent_to conn bytes c)
  sent_to-Sound conn bytes c s =
      on_if (Sound n m) (conn == 0) s
        (same-Sound c (call (espconn_sent conn bytes) c) refl refl refl s)

  after_send-Sound : (conn : ℕ) (c : Console S) → Sound n m c → Sound n m (after_send conn c)
  after_send-Sound conn c s =
      on_if (λ (d : Console S). Sound n m (record d { remote_console_disconnect = false }))
        (not (conn == 0) && c.remote_console_disconnect)
        (same-Sound c
          (record (call (espconn_disconnect conn) c) { remote_console_disconnect = false }) refl
          refl refl s)
        (same-Sound c (record c { remote_console_disconnect = false }) refl refl refl s)

  ended-Sound :
      (restarts : Bool) (conn : ℕ) (tx : Ringbuf) (c : Console S)
      → Sound n m (record c { console_tx_buffer = tx })
      → Sound n m (ended restarts conn tx c)
  ended-Sound true conn tx c s = s
  ended-Sound false conn tx c s =
      same-Sound (record c { console_tx_buffer = tx }) (ended false conn tx c) refl refl refl s

  next-Ends :
      (o : Option (Console S)) (f : Console S → Option (Console S))
      → Ends n m o
      → ((c : Console S) → Sound n m c → Ends n m (f c))
      → Ends n m (and_then o f)
  next-Ends none f (c, e, s) g = absurd cc
  next-Ends (some d) f (c, e, s) g =
      g d (subst (λ (x : Console S). Sound n m x) (sym (eq_of_some e)) s)

  module _ (env : Env S) (a : (s : List ℕ) → env.ipaddr_addr s < 4294967296) where
    command-Ends :
        (conn : ℕ) (c : Console S) → Sound n m c → Ends n m (console_handle_command env conn c)
    command-Ends conn c s =
        let (rx, tx, e, hr, ht) = console_handle_command_lem env conn c s.rx s.tx in
        let r = replied env conn s.line rx c in
        (
          ended (is_reset (command_tokens s.line)) conn tx r.1,
          e,
          ended-Sound (is_reset (command_tokens s.line)) conn tx r.1 (record {
            line = [];
            out = keep m (s.out ++ concat r.0);
            rx = subst (λ b. Holds b n []) (sym (replied-rx env conn s.line rx c)) hr;
            tx = ht;
            typed = no_bytes;
            widths = replied-IsConfig env conn c s.line rx s.typed a s.widths;
          }),
        )

    signals-Ends :
        (sig : Signal) (par : ℕ) (c : Console S)
        → Sound n m c
        → Ends n m (user_proc_task env sig par c)
    unfolding user_proc_task
    signals-Ends start_server par c s = (c, refl, s)
    signals-Ends uart0 par c s = (
      call slipif_process_rxqueue c,
      refl,
      same-Sound c (call slipif_process_rxqueue c) refl refl refl s,
    )
    signals-Ends console_rx par c s =
        let (c', e, s') = command-Ends par c s in (c', task_rx env par c ∙ e, s')
    signals-Ends console_tx par c s =
        let (tx, e, h) = console_send_response_lem par c s.tx in
        let c' = record c { console_tx_buffer = tx } in
        (
          after_send par (sent_to par (s.out ++ prompt) c'),
          rw (e, user_proc_task) refl,
          after_send-Sound par (sent_to par (s.out ++ prompt) c') (
              sent_to-Sound par (s.out ++ prompt) c' (record {
                line = s.line;
                out = [];
                rx = s.rx;
                tx = h;
                typed = s.typed;
                widths = s.widths;
              })),
        )
    signals-Ends spurious par c s = (c, refl, s)

    -- From a sound state, whatever callbacks and signals come, in whatever order, none of them fails,
    -- and the state is sound after each.
    pub run-Sound :
        (es : List Event) (c : Console S) → ByteEvents es → Sound n m c → Ends n m (run env es c)
    unfolding run handle
    run-Sound [] c b s = (c, refl, s)
    run-Sound (connects conn ∷ es) c (connects_event b) s =
        next-Ends _ (run env es) (connects-Ends conn c s) (λ d s'. run-Sound es d b s')
    run-Sound (receives conn data' ∷ es) c (bytes_event d b) s =
        next-Ends _ (run env es) (receives-Ends conn data' c d s) (λ d s'. run-Sound es d b s')
    run-Sound (signals sig par ∷ es) c (signals_event b) s =
        next-Ends _ (run env es) (signals-Ends sig par c s) (λ d s'. run-Sound es d b s')
    run-Sound (scanned found ∷ es) c (scanned_event b) s =
        next-Ends _ (run env es) (scanned-Ends found c s) (λ d s'. run-Sound es d b s')
    run-Sound (wifi e ∷ es) c (wifi_event b) s =
        next-Ends _ (run env es) (wifi-Ends env e c s) (λ d s'. run-Sound es d b s')

    user_init-Sound :
        (rx tx : Ringbuf) (alloc : Bool) (table : List Portmap) (flash : S)
        → Holds rx n []
        → Holds tx m []
        → IsConfig (config_load env.spi_flash env.layout flash).1
        → Sound n m (user_init env rx tx alloc table flash).1
    unfolding user_init
    user_init-Sound rx tx alloc table flash hr ht v = record {
      line = [];
      out = [];
      rx = hr;
      tx = ht;
      typed = no_bytes;
      widths =
          subst IsConfig (sym (init-config env table (config_load env.spi_flash env.layout flash)))
            v;
    }

    -- After user_init, whatever callbacks and signals came, a client that connects is served: its line,
    -- which ends in a line feed, is answered, if the rings were made with room for `n` and `m` bytes
    -- and have room for it.
    pub user_init-Served :
        (rx tx : Ringbuf) (alloc : Bool) (table : List Portmap) (flash : S) (es : List Event)
        (conn : ℕ) (line : List ℕ)
        → Holds rx n []
        → Holds tx m []
        → IsConfig (config_load env.spi_flash env.layout flash).1
        → ByteEvents es
        → has_line_feed line ≡ false
        → conn ≢ 0
        → length (line ++ b'\n' ∷ []) ≤ n
        → is_reset (command_tokens (line ++ b'\n' ∷ [])) ≡ false
        → (c : Console S) × (run env es (user_init env rx tx alloc table flash).1 ≡ some c)
          × Served env conn line (tcp_client_connected_cb conn c) n m
    unfolding tcp_client_connected_cb
    user_init-Served rx tx alloc table flash es conn line hr ht v b lf z room nr =
        let (c, e, s) =
          run-Sound es (user_init env rx tx alloc table flash).1 b
            (user_init-Sound rx tx alloc table flash hr ht v) in
        (
          c,
          e,
          line_is_answered env conn line (tcp_client_connected_cb conn c) lf z (reset-Holds s.rx)
              (reset-Holds s.tx) room nr,
        )
