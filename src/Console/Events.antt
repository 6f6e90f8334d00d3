-- ===== src/Console/Events.antt =====
-- The callbacks and the task of user/user_main.c: the TCP console, the signals, the scan and the
-- Wi-Fi events. Left out are the lines printed with os_printf, the registration of callbacks, the
-- status LED (in Led), and the zero that tcp_client_recv_cb writes behind the data.
use esp_slip_router.Prelude.{
  codes, ℕ, true, false, not, ◌&&◌, Option, none, some, List, [], ◌∷◌, ◌++◌, map, take, ◌==◌,
  if◌then◌else◌,
}
use esp_slip_router.Text.{c_str, signed, decimal}
use esp_slip_router.Ringbuf.{
  moved, underflow, out_of_fuel, reset, bytes_used, memcpy_into, memcpy_from,
}
use esp_slip_router.Console.Types.{
  Portmap, Console, Env, Signal, start_server, uart0, console_rx, console_tx, spurious,
  system_os_post, espconn_sent, espconn_disconnect, slipif_process_rxqueue,
}
use esp_slip_router.Console.Set.{call}
use esp_slip_router.Console.Commands.{print, console_handle_command}

-- what follows every answer
abbrev pub prompt : List ℕ
prompt = codes "CMD>"

-- an element of the list that `wifi_station_scan` gives
pub record BssInfo : Type 0 where
  pub ssid : List ℕ
  pub authmode : ℕ
  pub rssi : ℕ
  pub mac : List ℕ
  pub channel : ℕ

-- MACSTR of the SDK prints the address, which is given here as printed.
unfoldable pub bss_line : BssInfo → List ℕ
unfolding signed decimal
bss_line b =
    codes "("
    ++ signed b.authmode
    ++ codes ",\""
    ++ take 32 (c_str b.ssid)
    ++ codes "\","
    ++ signed b.rssi
    ++ codes ",\""
    ++ b.mac
    ++ codes "\","
    ++ signed b.channel
    ++ codes ")\r\n"

-- the texts of `scan_done`; `none` is a scan that failed
unfoldable pub scan_texts : Option (List BssInfo) → List (List ℕ)
unfolding bss_line
scan_texts none = codes "scan fail !!!\r\n" ∷ []
scan_texts (some []) = []
scan_texts (some (b ∷ found)) = codes "\r" ∷ bss_line b ∷ scan_texts (some found)

module _ {S : Type 0} where
  unfoldable pub scan_done : Option (List BssInfo) → Console S → Option (Console S)
  unfolding print scan_texts
  scan_done found c = elim (print (scan_texts found) c.console_tx_buffer) [
    | some tx ↦
        some (call (system_os_post console_tx c.scanconn) (record c { console_tx_buffer = tx }))
    | none ↦ none
  ]

  -- an espconn_sent that is skipped for NULL
  abbrev pub sent_to : ℕ → List ℕ → Console S → Console S
  sent_to conn bytes c = if conn == 0 then c else call (espconn_sent conn bytes) c

  unfoldable pub console_send_response : ℕ → Console S → Option (Console S)
  unfolding bytes_used memcpy_from
  console_send_response conn c =
      elim (memcpy_from c.console_tx_buffer (bytes_used c.console_tx_buffer)) [
        | moved (tx, payload) ↦
            some (sent_to conn (payload ++ prompt) (record c { console_tx_buffer = tx }))
        | underflow ↦ none
        | out_of_fuel ↦ none
      ]

  -- what a received byte does beside its place in the ring
  abbrev pub signal_line : ℕ → ℕ → Console S → Console S
  signal_line conn ch c = if ch == b'\n' then call (system_os_post console_rx conn) c else c

  unfoldable pub tcp_client_recv_cb : ℕ → List ℕ → Console S → Option (Console S)
  unfolding memcpy_into
  tcp_client_recv_cb conn [] c = some c
  tcp_client_recv_cb conn (ch ∷ data') c = elim (memcpy_into c.console_rx_buffer (ch ∷ [])) [
    | some rx ↦
        tcp_client_recv_cb conn data' (signal_line conn ch (record c { console_rx_buffer = rx }))
    | none ↦ none
  ]

  unfoldable pub tcp_client_connected_cb : ℕ → Console S → Console S
  unfolding reset
  tcp_client_connected_cb conn c = call (espconn_sent conn prompt) (record c {
    console_rx_buffer = reset c.console_rx_buffer;
    console_tx_buffer = reset c.console_tx_buffer;
  })

  -- the end of an answer
  abbrev pub after_send : ℕ → Console S → Console S
  after_send conn c =
      let c' =
        if not (conn == 0) && c.remote_console_disconnect
        then call (espconn_disconnect conn) c
        else c in
      record c' { remote_console_disconnect = false }

  module _ (env : Env S) where
    unfoldable pub user_proc_task : Signal → ℕ → Console S → Option (Console S)
    unfolding console_send_response console_handle_command
    user_proc_task start_server par c = some c
    user_proc_task uart0 par c = some (call slipif_process_rxqueue c)
    user_proc_task console_tx par c = elim (console_send_response par c) [
      | some c' ↦ some (after_send par c')
      | none ↦ none
    ]
    user_proc_task console_rx par c = console_handle_command env par c
    user_proc_task spurious par c = some c

-- an entry of the table at a new address of the router
unfoldable pub rehome : ℕ → Portmap → Portmap
rehome ip p = if p.valid then record p { maddr = ip } else p

-- `System_Event_t`
pub data WifiEvent : Type 0 where
  stamode_connected : WifiEvent
  stamode_disconnected : WifiEvent
  stamode_authmode_change : WifiEvent
  stamode_got_ip : ℕ → WifiEvent
  other_event : WifiEvent

-- The table holds its 32 entries.
unfoldable pub wifi_handle_event_cb : {S : Type 0} → Env S → WifiEvent → Console S → Console S
unfolding rehome
wifi_handle_event_cb env stamode_connected c = c
wifi_handle_event_cb env stamode_disconnected c = record c { connected = false }
wifi_handle_event_cb env stamode_authmode_change c = c
wifi_handle_event_cb env (stamode_got_ip ip) c = record c {
  dns_ip = env.dns_server;
  my_ip = ip;
  connected = true;
  ip_portmap_table = map (rehome ip) c.ip_portmap_table;
}
wifi_handle_event_cb env other_event c = c
