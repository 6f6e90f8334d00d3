-- ===== src/Console/Tests.antt =====
-- Runs of the console of user/user_main.c, and its theorems at a concrete state.
use esp_slip_router.Prelude.{
  codes, Bool, ltb, ◌&&◌, ℕ, zero, suc, ◌≤◌, ◌≡◌, refl, true, false, not, some, none, subst, sym,
  List, [], ◌∷◌, ◌++◌, arith, replicate, drop, length,
}
use esp_slip_router.Text.{str_eq}
use esp_slip_router.Ringbuf.{Ringbuf, bytes_used, bytes_free, capacity}
use esp_slip_router.Config.{config_load_default, config_load}
use esp_slip_router.Config.Model.{
  esp_layout, default-Keeps, sectors, sectors-IsFlash, Sectors, blank, default,
}
use esp_slip_router.Console.TableModel.{bytes_of_table, table_of_bytes, free_entry, two_mappings}
use esp_slip_router.Console.Tokens.{command_tokens, parse_str_into_tokens}
use esp_slip_router.Console.Types.{
  Console, Env, console_rx, console_tx, flag, string_at, ssid_at, password_at,
}
use esp_slip_router.Console.Show.{show}
use esp_slip_router.Console.Commands.{reply, save, console_handle_command}
use esp_slip_router.Console.Rings.{Holds}
use esp_slip_router.Console.Quote.{AreTokens, parse_str_into_tokens-AreTokens}
use esp_slip_router.Console.RoundTrip.{
  AreWords, one, longer, no_words, more_words, line, command_tokens-line,
}
use esp_slip_router.Console.Strings.{IsShaped, IsString, none_left, one_more}
use esp_slip_router.Console.Locked.{settings_of, is_unlock}
use esp_slip_router.Console.Answer.{console_handle_command-locked}
use esp_slip_router.Console.Led.{
  led_event, led_traffic, led_init, reset_led, Shows, begun, after, event, traffic, Reached-Shows,
}
use esp_slip_router.Console.Events.{stamode_got_ip, stamode_disconnected, tcp_client_connected_cb}
use esp_slip_router.Console.Reach.{run-Sound, user_init-Served}
use esp_slip_router.Console.Run.{
  Event, connects, receives, signals, scanned, wifi, ByteEvents, no_events, bytes_event,
  connects_event, signals_event, scanned_event, wifi_event, run, Ends,
}
use esp_slip_router.Console.Session.{Served, line_is_answered}
use esp_slip_router.Console.Passwords.{
  here, there, with_passwords, set_ssid_lem, unlock-lock, show-locked,
}
use esp_slip_router.Console.Invalid.{Refused, reply-Refused, well_formed}
use esp_slip_router.Console.Shape.{
  AreBytes, no_bytes, more_bytes, IsConfig, config_load_default-IsConfig,
}
use esp_slip_router.Console.Start.{user_init, save-user_init}

abbrev env : Env Sectors
env = record {
  spi_flash = sectors;
  layout = esp_layout;
  table_bytes = bytes_of_table;
  table_of_bytes = table_of_bytes 32;
  ip_portmap_add = λ proto maddr mport daddr dport table. (
    true,
    record {
      maddr = maddr;
      daddr = daddr;
      mport = mport;
      dport = dport;
      proto = proto;
      valid = true;
    }
        ∷ table,
  );
  ip_portmap_remove = λ proto mport table. (false, table);
  ipaddr_addr = λ s. 0x0100007f;
  cpu_freq_ok = λ mhz. true;
  free_heap_size = 40000;
  station_num = 1;
  sta_ip = 0;
  sta_gw = 0;
  rssi = 4294967236;
  timestamp = codes "today";
  dns_server = 0;
}

abbrev ring : ℕ → Ringbuf
ring n = record { buf = replicate n 0; head = 0; tail = 0; size = n }

abbrev console : Console Sectors
console = record {
  console_rx_buffer = ring 81;
  console_tx_buffer = ring 1025;
  config = default;
  connected = false;
  my_ip = 0;
  dns_ip = 0;
  remote_console_disconnect = false;
  ip_portmap_table = replicate 32 free_entry;
  bytes_in = 0;
  bytes_out = 0;
  scanconn = 0;
  flash = blank;
  calls = [];
}

-- a command is typed in
abbrev typed : Ringbuf
typed = record { buf = codes "set ssid x" ++ replicate 71 0; head = 10; tail = 0; size = 81 }

typed-Holds : Holds typed 80 (codes "set ssid x")
unfolding bytes_used bytes_free capacity
typed-Holds = record {
  valid = record {
    storage = refl;
    head_in = omega arith;
    tail_in = omega arith;
    small = omega arith;
  };
  space = refl;
  held = refl;
}

abbrev locked : Console Sectors
locked = record console { console_rx_buffer = typed; config = record default { locked = 1 } }

tokens_run :
    command_tokens (codes "sex\u{8}t  s\\ id %41b%00c\r\n")
    ≡ codes "set" ∷ codes "s id" ∷ codes "Ab" ∷ codes "c" ∷ []
unfolding command_tokens
tokens_run = refl

rx-Holds : Holds (ring 81) 80 []
unfolding bytes_used bytes_free capacity
rx-Holds = record {
  valid = record {
    storage = refl;
    head_in = omega arith;
    tail_in = omega arith;
    small = omega arith;
  };
  space = refl;
  held = refl;
}

tx-Holds : Holds (ring 1025) 1024 []
unfolding bytes_used bytes_free capacity
tx-Holds = record {
  valid = record {
    storage = refl;
    head_in = omega arith;
    tail_in = omega arith;
    small = omega arith;
  };
  space = refl;
  held = refl;
}

line_is_answered_example : Served env 7 (codes "help") console 80 1024
unfolding command_tokens str_eq
line_is_answered_example =
    line_is_answered env 7 (codes "help") console refl (omega arith) rx-Holds tx-Holds (omega arith)
      refl

console_handle_command-locked_example :
    (c' : Console Sectors) × (console_handle_command env 7 locked ≡ some c')
    × (settings_of c' ≡ settings_of locked)
unfolding command_tokens is_unlock str_eq
console_handle_command-locked_example =
    console_handle_command-locked env 7 locked typed-Holds tx-Holds refl refl refl

reply-Refused_example :
    Refused console
      (reply env 7 (codes "portmap" ∷ codes "add" ∷ codes "ICMP" ∷ codes "80" ∷ []) console)
unfolding well_formed
reply-Refused_example =
    reply-Refused env console 7 (codes "portmap" ∷ codes "add" ∷ codes "ICMP" ∷ codes "80" ∷ [])
      refl

abbrev words : List (List ℕ)
words = codes "a b" ∷ codes "\\" ∷ []

words-AreWords : AreWords words
words-AreWords =
    more_words
      (longer (omega arith) (omega arith)
        (longer (omega arith) (omega arith) (one (omega arith) (omega arith))))
      (more_words (one (omega arith) (omega arith)) no_words)

command_tokens-line_example : command_tokens (line words) ≡ words
command_tokens-line_example = command_tokens-line words words-AreWords

parse_str_into_tokens-AreTokens_example :
    AreTokens (parse_str_into_tokens (codes "a %00 b c") 2)
    × (length (parse_str_into_tokens (codes "a %00 b c") 2) ≤ 2)
parse_str_into_tokens-AreTokens_example =
    parse_str_into_tokens-AreTokens (codes "a %00 b c") 2 (omega arith)

default-IsShaped : IsShaped default
unfolding config_load_default
default-IsShaped = record { ssid = refl; password = refl; ap_ssid = refl; ap_password = refl }

-- forty characters
abbrev long_name : List ℕ
long_name = replicate 40 b'x'

repeated-IsString : (n : ℕ) → IsString (replicate n b'x')
repeated-IsString zero = none_left
repeated-IsString (suc n) = one_more (omega arith) (repeated-IsString n)

set_ssid_lem_example :
    (string_at ssid_at (reply env 7 (codes "set" ∷ codes "ssid" ∷ long_name ∷ []) console).1.config
      ≡ long_name)
    × (string_at password_at
          (reply env 7 (codes "set" ∷ codes "ssid" ∷ long_name ∷ []) console).1.config
        ≡ drop 32 long_name)
unfolding config_load_default
set_ssid_lem_example =
    set_ssid_lem env 7 console long_name default-IsShaped (repeated-IsString 40) (omega arith) refl

unlock-lock_example :
    flag
      (reply env 7
        (codes "unlock" ∷ codes "x" ∷ [])
        (reply env 7
          (codes "lock" ∷ [])
          (reply env 7
            (codes "set" ∷ codes "password" ∷ long_name ∷ [])
            console).1).1).1.config.locked
    ≡ not (str_eq (codes "x") long_name)
unfolding config_load_default
unlock-lock_example =
    unlock-lock env 7 console long_name (codes "x") default-IsShaped (repeated-IsString 40)
      (omega arith) refl

locked-IsShaped : IsShaped locked.config
unfolding config_load_default
locked-IsShaped = record { ssid = refl; password = refl; ap_ssid = refl; ap_password = refl }

show-locked_example :
    show env (with_passwords (replicate 64 1) (replicate 64 2) locked) ≡ show env locked
unfolding config_load_default
show-locked_example =
    show-locked locked (replicate 64 1) (replicate 64 2) refl env locked-IsShaped refl
      (there (there (there (there here)))) (there (there (there (there here))))

-- a table with two mappings is saved, and the flash had none
abbrev mapped : Console Sectors
mapped = record console { ip_portmap_table = two_mappings }

save-user_init_example :
    ((user_init env
        (ring 81)
        (ring 1025)
        true
        (replicate 32 free_entry)
        (save env mapped).1.flash).1.config
      ≡ default)
    × ((user_init env
          (ring 81)
          (ring 1025)
          true
          (replicate 32 free_entry)
          (save env mapped).1.flash).1.ip_portmap_table
        ≡ two_mappings)
unfolding config_load_default
save-user_init_example =
    save-user_init env mapped (ring 81) (ring 1025) true (replicate 32 free_entry) sectors-IsFlash
      default-Keeps refl refl refl refl

line-AreBytes : AreBytes (codes "set ssid x")
line-AreBytes = bytes (codes "set ssid x") refl
  where
    all_bytes : List ℕ → Bool
    all_bytes [] = true
    all_bytes (b ∷ bs) = ltb b 256 && all_bytes bs

    bytes : (bs : List ℕ) → all_bytes bs ≡ true → AreBytes bs
    bytes [] h = no_bytes
    bytes (b ∷ bs) h = more_bytes (ground arith) (bytes bs (ground arith))

-- a client that leaves in the middle of a command, a scan, and a new address
abbrev history : List Event
history =
    connects 5
    ∷ receives 5 (codes "set ssid x")
    ∷ signals console_rx 5
    ∷ scanned none
    ∷ wifi (stamode_got_ip 77)
    ∷ signals console_tx 0
    ∷ []

history-ByteEvents : ByteEvents history
history-ByteEvents = connects_event (
    bytes_event line-AreBytes
      (signals_event (scanned_event (wifi_event (signals_event no_events)))))

run-Sound_example : Ends 80 1024 (run env history console)
run-Sound_example =
    run-Sound env (λ s. omega arith) history console history-ByteEvents
      (record {
        line = [];
        out = [];
        rx = rx-Holds;
        tx = tx-Holds;
        typed = no_bytes;
        widths = config_load_default-IsConfig esp_layout;
      })

default_loaded : (config_load sectors esp_layout blank).1 ≡ config_load_default esp_layout
unfolding config_load
default_loaded = refl

user_init-Served_example :
    (c : Console Sectors) × (run env history
        (user_init env (ring 81) (ring 1025) true (replicate 32 free_entry) blank).1
      ≡ some c)
    × Served env 7 (codes "help") (tcp_client_connected_cb 7 c) 80 1024
unfolding command_tokens str_eq
user_init-Served_example =
    user_init-Served env (λ s. omega arith) (ring 81) (ring 1025) true (replicate 32 free_entry)
      blank history 7 (codes "help") rx-Holds tx-Holds
      (subst IsConfig (sym default_loaded) (config_load_default-IsConfig esp_layout))
      history-ByteEvents refl (omega arith) (omega arith) refl

-- connected, some traffic, and disconnected again
Reached-Shows_example : Shows (
    led_event stamode_disconnected
      (led_traffic (led_event (stamode_got_ip 5) (led_init false reset_led))))
Reached-Shows_example =
    Reached-Shows
      (after (after (after begun (event (stamode_got_ip 5))) traffic) (event stamode_disconnected))
