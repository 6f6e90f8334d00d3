-- ===== src/Console/Set.antt =====
-- `set <parameter> <value>` in the console of user/user_main.c. A reply is the texts to print and
-- the state without them.
use esp_slip_router.Prelude.{
  codes, ℕ, ◌&&◌, ◌||◌, List, [], ◌∷◌, ◌++◌, length, ltb, leb, if◌then◌else◌, u8, u16,
}
use esp_slip_router.Text.{str_eq, atoi, decimal, signed}
use esp_slip_router.Config.{SysConfig}
use esp_slip_router.Console.Types.{
  Console, Env, Call, flag, print_at, ip_str, ssid_at, password_at, ap_ssid_at, ap_password_at,
  system_update_cpu_freq,
}

abbrev pub Reply : Type 0 → Type 0
Reply S = List (List ℕ) × Console S

abbrev pub invalid_locked : List ℕ
invalid_locked = codes "Invalid command. Config locked\r\n"

abbrev pub invalid_numargs : List ℕ
invalid_numargs = codes "Invalid number of arguments\r\n"

abbrev pub invalid_arg : List ℕ
invalid_arg = codes "Invalid argument\r\n"

module _ {S : Type 0} where
  -- one text, and no change
  abbrev pub say : List ℕ → Console S → Reply S
  say text c = (text ∷ [], c)

  -- one text, and a new configuration
  abbrev pub configure : SysConfig → List ℕ → Console S → Reply S
  configure config text c = (text ∷ [], record c { config = config })

  abbrev pub call : Call → Console S → Console S
  call x c = record c { calls = c.calls ++ x ∷ [] }

  unfoldable pub set_ssid : List ℕ → Console S → Reply S
  unfolding print_at
  set_ssid value c = configure (print_at ssid_at value c.config) (codes "SSID set\r\n") c

  unfoldable pub set_password : List ℕ → Console S → Reply S
  unfolding print_at
  set_password value c =
      configure (print_at password_at value c.config) (codes "Password set\r\n") c

  unfoldable pub set_auto_connect : List ℕ → Console S → Reply S
  unfolding atoi
  set_auto_connect value c =
      configure (record c.config { auto_connect = u8 (atoi value) }) (codes "Auto Connect set\r\n")
        c

  unfoldable pub set_ap_ssid : List ℕ → Console S → Reply S
  unfolding print_at
  set_ap_ssid value c = configure (print_at ap_ssid_at value c.config) (codes "AP SSID set\r\n") c

  unfoldable pub set_ap_password : List ℕ → Console S → Reply S
  unfolding print_at
  set_ap_password value c =
      if ltb (length value) 8
      then say (codes "Password too short (min. 8)\r\n") c
      else configure (record (print_at ap_password_at value c.config) { ap_open = 0 })
          (codes "AP Password set\r\n") c

  unfoldable pub set_ap_open : List ℕ → Console S → Reply S
  unfolding atoi
  set_ap_open value c =
      configure (record c.config { ap_open = u8 (atoi value) }) (codes "Open Auth set\r\n") c

  unfoldable pub set_use_ap : List ℕ → Console S → Reply S
  unfolding atoi
  set_use_ap value c =
      configure (record c.config { use_ap = u8 (atoi value) })
        (if flag (u8 (atoi value))
          then codes "Using AP interface\r\n"
          else codes "Using STA interface\r\n")
        c

  unfoldable pub set_ap_channel : List ℕ → Console S → Reply S
  unfolding atoi decimal
  set_ap_channel value c =
      let chan = u8 (atoi value) in
      if leb 1 chan && leb chan 13
      then configure (record c.config { ap_channel = chan })
          (codes "AP channel set to " ++ decimal chan ++ codes "\r\n") c
      else say (codes "Invalid channel (1-13)\r\n") c

  unfoldable pub set_ssid_hidden : List ℕ → Console S → Reply S
  unfolding atoi
  set_ssid_hidden value c =
      configure (record c.config { ssid_hidden = u8 (atoi value) }) (codes "Hidden SSID set\r\n") c

  -- the comparison with MAX_CLIENTS is one of signed numbers
  unfoldable pub set_max_clients : List ℕ → Console S → Reply S
  unfolding atoi
  set_max_clients value c =
      if leb 2147483648 (atoi value) || leb (atoi value) 8
      then configure (record c.config { max_clients = u8 (atoi value) })
          (codes "Max clients set\r\n") c
      else say (codes "Invalid val (<= 8)\r\n") c

  module _ (env : Env S) where
    unfoldable pub set_dns : List ℕ → Console S → Reply S
    unfolding ip_str
    set_dns value c =
        configure (record c.config { ap_dns = env.ipaddr_addr value })
          (codes "DNS address set to " ++ ip_str (env.ipaddr_addr value) ++ codes "/24\r\n") c

    unfoldable pub set_speed : List ℕ → Console S → Reply S
    unfolding atoi
    set_speed value c =
        let speed = u16 (atoi value) in
        let c' = call (system_update_cpu_freq speed) c in
        if env.cpu_freq_ok speed
        then configure (record c.config { clock_speed = speed })
            (codes "Clock speed update successful\r\n") c'
        else say (codes "Clock speed update failed\r\n") c'

    unfoldable pub set_addr : List ℕ → Console S → Reply S
    unfolding ip_str
    set_addr value c =
        configure (record c.config { ip_addr = env.ipaddr_addr value })
          (codes "IP address set to " ++ ip_str (env.ipaddr_addr value) ++ codes "/24\r\n") c

    unfoldable pub set_addr_peer : List ℕ → Console S → Reply S
    unfolding ip_str
    set_addr_peer value c =
        configure (record c.config { ip_addr_peer = env.ipaddr_addr value })
          (codes "IP peer address set to " ++ ip_str (env.ipaddr_addr value) ++ codes "/24\r\n") c

    unfoldable pub set_bitrate : List ℕ → Console S → Reply S
    unfolding atoi signed
    set_bitrate value c =
        configure (record c.config { bit_rate = atoi value })
          (codes "Bitrate will be " ++ signed (atoi value) ++ codes " after save & reset.\r\n") c

    -- `otherwise` is the reply to a parameter that there is not.
    unfoldable pub set_parameter : Reply S → List ℕ → List ℕ → Console S → Reply S
    unfolding str_eq set_ssid set_password set_auto_connect set_ap_ssid set_ap_password set_ap_open
        set_use_ap set_ap_channel set_ssid_hidden set_max_clients set_dns set_speed set_addr
        set_addr_peer set_bitrate
    set_parameter otherwise name value c =
        if str_eq name (codes "ssid")
        then set_ssid value c
        else if str_eq name (codes "password")
        then set_password value c
        else if str_eq name (codes "auto_connect")
        then set_auto_connect value c
        else if str_eq name (codes "ap_ssid")
        then set_ap_ssid value c
        else if str_eq name (codes "ap_password")
        then set_ap_password value c
        else if str_eq name (codes "ap_open")
        then set_ap_open value c
        else if str_eq name (codes "use_ap")
        then set_use_ap value c
        else if str_eq name (codes "ap_channel")
        then set_ap_channel value c
        else if str_eq name (codes "ssid_hidden")
        then set_ssid_hidden value c
        else if str_eq name (codes "max_clients")
        then set_max_clients value c
        else if str_eq name (codes "dns")
        then set_dns value c
        else if str_eq name (codes "speed")
        then set_speed value c
        else if str_eq name (codes "addr")
        then set_addr value c
        else if str_eq name (codes "addr_peer")
        then set_addr_peer value c
        else if str_eq name (codes "bitrate")
        then set_bitrate value c
        else otherwise
