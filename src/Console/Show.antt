-- ===== src/Console/Show.antt =====
-- The texts that the console of user/user_main.c prints for `help` and `show`.
use esp_slip_router.Prelude.{
  codes, ℕ, ◌+◌, ◌*◌, ◌/◌, ◌%◌, List, [], ◌∷◌, ◌++◌, ◌==◌, if◌then◌else◌, u32,
}
use esp_slip_router.Text.{decimal, signed}
use esp_slip_router.Config.{SysConfig}
use esp_slip_router.Console.Types.{
  Portmap, Console, Env, flag, string_at, ip_str, ssid_at, password_at, ap_ssid_at, ap_password_at,
}

unfoldable pub help : List (List ℕ)
help =
    codes "show [stats]\r\nset [ssid|password|auto_connect|addr|addr_peer|speed|bitrate] <val>\r\n"
    ∷ codes
        "set [use_ap|ap_ssid|ap_password|ap_channel|ap_open|ssid_hidden|max_clients|dns] <val>\r\n"
    ∷ codes "quit|save|reset [factory]|lock|unlock <password>\r\n"
    ∷ codes "portmap [add|remove] [TCP|UDP] <ext_port> <int_addr> <int_port>\r\n"
    ∷ codes "scan"
    ∷ codes "\r\n"
    ∷ []

-- config.locked?"***":(char*)password
unfoldable pub shown_password : ℕ → SysConfig → List ℕ
unfolding string_at
shown_password offset config = if flag config.locked then codes "***" else string_at offset config

-- ntohs of a port, on a little-endian machine
abbrev pub ntohs : ℕ → ℕ
ntohs p = p % 256 * 256 + p / 256

unfoldable pub show_portmaps : ℕ → List Portmap → List (List ℕ)
unfolding decimal ip_str
show_portmaps my_ip [] = []
show_portmaps my_ip (p ∷ table) =
    let rest = show_portmaps my_ip table in
    if p.valid
    then ((codes "Portmap: "
          ++ (if p.proto == 6
              then codes "TCP"
              else if p.proto == 17
              then codes "UDP"
              else codes "???")
          ++ codes ": "
          ++ ip_str my_ip
          ++ codes ":"
          ++ decimal (ntohs p.mport)
          ++ codes " -> "
          ++ ip_str p.daddr
          ++ codes ":"
          ++ decimal (ntohs p.dport)
          ++ codes "\r\n")
        ∷ rest)
    else rest

module _ {S : Type 0} where
  -- the lines on the access point
  unfoldable pub show_ap : Console S → List (List ℕ)
  unfolding ip_str string_at shown_password
  show_ap c =
      (codes "DNS server: " ++ ip_str c.config.ap_dns ++ codes "\r\n")
      ∷ (codes "AP:  SSID:"
          ++ string_at ap_ssid_at c.config
          ++ codes " "
          ++ (if flag c.config.ssid_hidden then codes "[hidden]" else [])
          ++ codes " PW:"
          ++ shown_password ap_password_at c.config
          ++ (if flag c.config.ap_open then codes " [open]" else [])
          ++ codes "\r\n")
      ∷ []

  -- the lines on the station
  unfoldable pub show_sta : Console S → List (List ℕ)
  unfolding ip_str string_at shown_password decimal
  show_sta c =
      (codes "STA: SSID: "
        ++ string_at ssid_at c.config
        ++ codes " PW: "
        ++ shown_password password_at c.config
        ++ codes " [AutoConnect:"
        ++ decimal c.config.auto_connect
        ++ codes "] \r\n")
      ∷ (if c.connected
          then codes "External IP: "
            ++ ip_str c.my_ip
            ++ codes "\r\nDNS server: "
            ++ ip_str c.dns_ip
            ++ codes "\r\n"
          else codes "Not connected to AP\r\n")
      ∷ []

  unfoldable pub show : Env S → Console S → List (List ℕ)
  unfolding ip_str decimal signed show_ap show_sta show_portmaps
  show env c =
      ((codes "ESP SLIP Router V1.1.1 (build: " ++ env.timestamp ++ codes ")\r\n")
        ∷ (codes "SLIP: IP: "
            ++ ip_str c.config.ip_addr
            ++ codes " PeerIP: "
            ++ ip_str c.config.ip_addr_peer
            ++ codes "\r\n")
        ∷ [])
      ++ (if flag c.config.use_ap then show_ap c else show_sta c)
      ++ ((codes "Clock speed: " ++ decimal c.config.clock_speed ++ codes "\r\n")
          ∷ (codes "Serial bit rate: " ++ signed c.config.bit_rate ++ codes "\r\n")
          ∷ [])
      ++ show_portmaps c.my_ip c.ip_portmap_table

  unfoldable pub show_stats : Env S → Console S → List (List ℕ)
  unfolding ip_str decimal signed
  show_stats env c =
      ((signed (u32 (c.bytes_in / 1024))
          ++ codes " KiB in\r\n"
          ++ signed (u32 (c.bytes_out / 1024))
          ++ codes " KiB out\r\n")
        ∷ (codes "Free mem: " ++ signed env.free_heap_size ++ codes "\r\n")
        ∷ [])
      ++ (if flag c.config.use_ap
          then (decimal env.station_num
              ++ codes " Station"
              ++ (if env.station_num == 1 then [] else codes "s")
              ++ codes " connected to SoftAP\r\n")
            ∷ []
          else if c.connected
          then (codes "STA IP: "
              ++ ip_str env.sta_ip
              ++ codes " GW: "
              ++ ip_str env.sta_gw
              ++ codes "\r\n")
            ∷ (codes "STA RSSI: " ++ signed env.rssi ++ codes "\r\n")
            ∷ []
          else codes "STA not connected\r\n" ∷ [])
