-- ===== src/Console/Types.antt =====
-- The state of the console of user/user_main.c, what it asks of the SDK and of lwIP, and the strings
-- of the configuration. os_sprintf does not look at the size of a field, so the strings are read and
-- written in the bytes of `sysconfig_t` from `ssid` to `max_clients`, which lie next to each other.
use esp_slip_router.Prelude.{
  codes, ℕ, ◌*◌, ◌/◌, ◌%◌, Bool, not, List, [], ◌∷◌, ◌++◌, take, drop, get_or, blit, ◌==◌,
}
use esp_slip_router.Ringbuf.{Ringbuf}
use esp_slip_router.Config.{SysConfig, SpiFlash, Layout}
use esp_slip_router.Text.{c_str, decimal}

-- `struct portmap_table`, an entry of the table of lwIP
pub record Portmap : Type 0 where
  pub maddr : ℕ
  pub daddr : ℕ
  pub mport : ℕ
  pub dport : ℕ
  pub proto : ℕ
  pub valid : Bool

-- what is set of `struct softap_config`; `auth_open` is AUTH_OPEN, and not AUTH_WPA_WPA2_PSK
pub record SoftapConfig : Type 0 where
  pub ssid : List ℕ
  pub password : List ℕ
  pub channel : ℕ
  pub auth_open : Bool
  pub max_connection : ℕ
  pub ssid_hidden : ℕ

pub data Signal : Type 0 where
  start_server : Signal
  uart0 : Signal
  console_rx : Signal
  console_tx : Signal
  spurious : Signal

-- What the code tells the SDK and lwIP, in order. A connection is a number, and NULL is 0.
pub data Call : Type 0 where
  system_os_post : Signal → ℕ → Call
  espconn_sent : ℕ → List ℕ → Call
  espconn_disconnect : ℕ → Call
  wifi_station_scan : Call
  system_update_cpu_freq : ℕ → Call
  system_restart : Call
  slipif_process_rxqueue : Call
  -- whether the mode is SOFTAP_MODE
  wifi_set_opmode : Bool → Call
  wifi_station_set_config : List ℕ → List ℕ → Call
  wifi_station_set_auto_connect : Bool → Call
  wifi_softap_set_config : SoftapConfig → Call
  dhcps_set_dns : ℕ → Call
  netif_add : ℕ → ℕ → ℕ → Call
  netif_set_up : Call
  ip_napt_enable : ℕ → Call
  espconn_accept : ℕ → Call
  system_os_task : Call

-- The globals; `S` is the flash memory.
pub record Console (S : Type 0) : Type 0 where
  pub console_rx_buffer : Ringbuf
  pub console_tx_buffer : Ringbuf
  pub config : SysConfig
  pub connected : Bool
  pub my_ip : ℕ
  pub dns_ip : ℕ
  pub remote_console_disconnect : Bool
  pub ip_portmap_table : List Portmap
  pub bytes_in : ℕ
  pub bytes_out : ℕ
  pub scanconn : ℕ
  pub flash : S
  pub calls : List Call

-- What the SDK and lwIP answer.
pub record Env (S : Type 0) : Type 0 where
  pub spi_flash : SpiFlash S
  pub layout : Layout
  pub table_bytes : List Portmap → List ℕ
  pub table_of_bytes : List ℕ → List Portmap
  pub ip_portmap_add : ℕ → ℕ → ℕ → ℕ → ℕ → List Portmap → Bool × List Portmap
  pub ip_portmap_remove : ℕ → ℕ → List Portmap → Bool × List Portmap
  pub ipaddr_addr : List ℕ → ℕ
  pub cpu_freq_ok : ℕ → Bool
  pub free_heap_size : ℕ
  pub station_num : ℕ
  pub sta_ip : ℕ
  pub sta_gw : ℕ
  pub rssi : ℕ
  pub timestamp : List ℕ
  pub dns_server : ℕ

-- sizeof(struct portmap_table) * IP_PORTMAP_MAX
abbrev pub table_size : ℕ
table_size = 16 * 32

-- a uint8_t as a condition
abbrev pub flag : ℕ → Bool
flag n = not (n == 0)

-- the bytes from `ssid` to `max_clients`
unfoldable pub image : SysConfig → List ℕ
image c =
    c.ssid
    ++ (c.password
        ++ ((c.auto_connect ∷ c.use_ap ∷ c.ap_ssid)
            ++ (c.ap_password
                ++ (c.ap_channel ∷ c.ap_open ∷ c.ap_on ∷ c.ssid_hidden ∷ c.max_clients ∷ []))))

unfoldable pub of_image : List ℕ → SysConfig → SysConfig
of_image b c = record c {
  ssid = take 32 b;
  password = take 64 (drop 32 b);
  auto_connect = get_or b 96 0;
  use_ap = get_or b 97 0;
  ap_ssid = take 32 (drop 98 b);
  ap_password = take 64 (drop 130 b);
  ap_channel = get_or b 194 0;
  ap_open = get_or b 195 0;
  ap_on = get_or b 196 0;
  ssid_hidden = get_or b 197 0;
  max_clients = get_or b 198 0;
}

-- the offsets of the strings
abbrev pub ssid_at : ℕ
ssid_at = 0

abbrev pub password_at : ℕ
password_at = 32

abbrev pub ap_ssid_at : ℕ
ap_ssid_at = 98

abbrev pub ap_password_at : ℕ
ap_password_at = 130

-- %s of the field at an offset, read up to `max_clients` at most
unfoldable pub string_at : ℕ → SysConfig → List ℕ
unfolding image
string_at offset c = c_str (drop offset (image c))

-- os_sprintf(field, "%s", s); what would reach past `max_clients` is left out, and a line of the
-- console is too short for that.
unfoldable pub print_at : ℕ → List ℕ → SysConfig → SysConfig
unfolding image of_image
print_at offset s c = of_image (blit (image c) offset (s ++ 0 ∷ [])) c

-- "%d.%d.%d.%d" of IP2STR
unfoldable pub ip_str : ℕ → List ℕ
unfolding decimal
ip_str a =
    decimal (a % 256)
    ++ codes "."
    ++ decimal (a / 256 % 256)
    ++ codes "."
    ++ decimal (a / 65536 % 256)
    ++ codes "."
    ++ decimal (a / 16777216 % 256)
