-- ===== src/Console/Widths.antt =====
-- Every command of user/user_main.c keeps the widths of the configuration's fields.
use esp_slip_router.Prelude.{
  codes, ℕ, ◌<◌, not, ◌&&◌, ◌||◌, List, [], ◌∷◌, length, on_if, ltb, leb, ◌==◌, u8, u16, u32, arith,
  ◌+◌, ◌-◌, ◌*◌,
}
use esp_slip_router.Text.{str_eq, atoi, atoi_digits, is_digit}
use esp_slip_router.Console.Types.{
  Console, Env, flag, string_at, password_at, ssid_at, ap_ssid_at, ap_password_at,
}
use esp_slip_router.Console.Set.{
  Reply, set_parameter, set_ssid, set_password, set_auto_connect, set_ap_ssid, set_ap_password,
  set_ap_open, set_use_ap, set_ap_channel, set_ssid_hidden, set_max_clients, set_dns, set_speed,
  set_addr, set_addr_peer, set_bitrate,
}
use esp_slip_router.Console.Commands.{
  word, save, scan, reset_command, portmap_add, portmap_remove, portmap, lock, unlock,
  invalid_command, set_command, show_command, reply, answer,
}
use esp_slip_router.Console.Shape.{
  AreBytes, IsConfig, print_at-IsConfig, config_load_default-IsConfig,
}

atoi_digits-lt : (acc : ℕ) (s : List ℕ) → acc < 4294967296 → atoi_digits acc s < 4294967296
unfolding atoi_digits
atoi_digits-lt acc [] h = h
atoi_digits-lt acc (c ∷ s) h =
    on_if (λ n. n < 4294967296) (is_digit c)
      (atoi_digits-lt (u32 (acc * 10 + (c - 48))) s (omega arith)) h

atoi-lt : (s : List ℕ) → atoi s < 4294967296
unfolding atoi
atoi-lt [] = omega arith
atoi-lt (c ∷ s) =
    on_if (λ n. n < 4294967296) (c == 32 || (leb 9 c && leb c 13)) (atoi-lt s)
      (on_if (λ n. n < 4294967296) (c == b'-') (omega arith)
        (on_if (λ n. n < 4294967296) (c == b'+') (atoi_digits-lt 0 s (omega arith))
          (atoi_digits-lt 0 (c ∷ s) (omega arith))))

-- of a reply
record Wide {S : Type 0} (r : Reply S) : Type 0 where
  pub config : IsConfig r.1.config

wide : {S : Type 0} (r : Reply S) → IsConfig r.1.config → Wide r
wide r v = record { config = v }

-- `ipaddr_addr` gives addresses of 32 bits.
module _ {S : Type 0} (env : Env S) (a : (s : List ℕ) → env.ipaddr_addr s < 4294967296)
    (c : Console S) (v : IsConfig c.config) where
  invalid_command-Wide : Wide (invalid_command c)
  unfolding invalid_command
  invalid_command-Wide = wide _ v

  set_ssid-Wide : (value : List ℕ) → AreBytes value → Wide (set_ssid value c)
  unfolding set_ssid
  set_ssid-Wide value b = wide _ (print_at-IsConfig ssid_at b v)

  set_password-Wide : (value : List ℕ) → AreBytes value → Wide (set_password value c)
  unfolding set_password
  set_password-Wide value b = wide _ (print_at-IsConfig password_at b v)

  set_auto_connect-Wide : (value : List ℕ) → Wide (set_auto_connect value c)
  unfolding set_auto_connect
  set_auto_connect-Wide value = wide _ (ground arith)

  set_ap_ssid-Wide : (value : List ℕ) → AreBytes value → Wide (set_ap_ssid value c)
  unfolding set_ap_ssid
  set_ap_ssid-Wide value b = wide _ (print_at-IsConfig ap_ssid_at b v)

  set_ap_password-Wide : (value : List ℕ) → AreBytes value → Wide (set_ap_password value c)
  unfolding set_ap_password
  set_ap_password-Wide value b =
      on_if Wide (ltb (length value) 8) (wide _ v)
        (wide _ (let v' = print_at-IsConfig ap_password_at b v in ground arith))

  set_ap_open-Wide : (value : List ℕ) → Wide (set_ap_open value c)
  unfolding set_ap_open
  set_ap_open-Wide value = wide _ (ground arith)

  set_use_ap-Wide : (value : List ℕ) → Wide (set_use_ap value c)
  unfolding set_use_ap
  set_use_ap-Wide value = wide _ (ground arith)

  set_ap_channel-Wide : (value : List ℕ) → Wide (set_ap_channel value c)
  unfolding set_ap_channel
  set_ap_channel-Wide value =
      on_if Wide (leb 1 (u8 (atoi value)) && leb (u8 (atoi value)) 13) (wide _ (ground arith))
        (wide _ v)

  set_ssid_hidden-Wide : (value : List ℕ) → Wide (set_ssid_hidden value c)
  unfolding set_ssid_hidden
  set_ssid_hidden-Wide value = wide _ (ground arith)

  set_max_clients-Wide : (value : List ℕ) → Wide (set_max_clients value c)
  unfolding set_max_clients
  set_max_clients-Wide value =
      on_if Wide (leb 2147483648 (atoi value) || leb (atoi value) 8) (wide _ (ground arith))
        (wide _ v)

  set_dns-Wide : (value : List ℕ) → Wide (set_dns env value c)
  unfolding set_dns
  set_dns-Wide value = wide _ (ground (arith, a value))

  set_speed-Wide : (value : List ℕ) → Wide (set_speed env value c)
  unfolding set_speed
  set_speed-Wide value =
      on_if Wide (env.cpu_freq_ok (u16 (atoi value))) (wide _ (ground arith)) (wide _ v)

  set_addr-Wide : (value : List ℕ) → Wide (set_addr env value c)
  unfolding set_addr
  set_addr-Wide value = wide _ (ground (arith, a value))

  set_addr_peer-Wide : (value : List ℕ) → Wide (set_addr_peer env value c)
  unfolding set_addr_peer
  set_addr_peer-Wide value = wide _ (ground (arith, a value))

  set_bitrate-Wide : (value : List ℕ) → Wide (set_bitrate env value c)
  unfolding set_bitrate
  set_bitrate-Wide value = wide _ (ground (arith, atoi-lt value))

  set_parameter-Wide :
      (name value : List ℕ)
      → AreBytes value
      → Wide (set_parameter env (invalid_command c) name value c)
  unfolding set_parameter
  set_parameter-Wide name value b =
      on_if Wide (str_eq name (codes "ssid")) (set_ssid-Wide value b) (
        on_if Wide (str_eq name (codes "password")) (set_password-Wide value b) (
          on_if Wide (str_eq name (codes "auto_connect")) (set_auto_connect-Wide value) (
            on_if Wide (str_eq name (codes "ap_ssid")) (set_ap_ssid-Wide value b) (
              on_if Wide (str_eq name (codes "ap_password")) (set_ap_password-Wide value b) (
                on_if Wide (str_eq name (codes "ap_open")) (set_ap_open-Wide value) (
                  on_if Wide (str_eq name (codes "use_ap")) (set_use_ap-Wide value) (
                    on_if Wide (str_eq name (codes "ap_channel")) (set_ap_channel-Wide value) (
                      on_if Wide (str_eq name (codes "ssid_hidden")) (set_ssid_hidden-Wide value) (
                        on_if Wide (str_eq name (codes "max_clients")) (set_max_clients-Wide value)
                          (on_if Wide (str_eq name (codes "dns")) (set_dns-Wide value) (
                            on_if Wide (str_eq name (codes "speed")) (set_speed-Wide value) (
                              on_if Wide (str_eq name (codes "addr")) (set_addr-Wide value) (
                                on_if Wide (str_eq name (codes "addr_peer"))
                                  (set_addr_peer-Wide value)
                                  (on_if Wide (str_eq name (codes "bitrate"))
                                    (set_bitrate-Wide value) invalid_command-Wide))))))))))))))

  portmap-Wide : (tokens : List (List ℕ)) → Wide (portmap env tokens c)
  unfolding portmap portmap_add portmap_remove
  portmap-Wide tokens =
      let add = str_eq (word tokens 1) (codes "add") in
      on_if Wide (flag c.config.locked) (wide _ v) (
        on_if Wide (ltb (length tokens) 4 || (add && not (length tokens == 6))) (wide _ v) (
          on_if Wide (not add && not (str_eq (word tokens 1) (codes "remove"))) (wide _ v) (
            on_if Wide (str_eq (word tokens 2) (codes "TCP")) (on_if Wide add (wide _ v) (wide _ v))
              (on_if Wide (str_eq (word tokens 2) (codes "UDP"))
                (on_if Wide add (wide _ v) (wide _ v)) (wide _ v)))))

  unlock-Wide : (tokens : List (List ℕ)) → Wide (unlock tokens c)
  unfolding unlock
  unlock-Wide tokens = on_if Wide (not (length tokens == 2)) (wide _ v) (
      on_if Wide (str_eq (word tokens 1) (string_at password_at c.config)) (wide _ (ground arith))
        (wide _ v))

  lock-Wide : Wide (lock c)
  unfolding lock
  lock-Wide = wide _ (ground arith)

  set_command-Wide :
      (tokens : List (List ℕ)) → AreBytes (word tokens 2) → Wide (set_command env tokens c)
  unfolding set_command
  set_command-Wide tokens b = on_if Wide (flag c.config.locked) (wide _ v) (
      on_if Wide (ltb (length tokens) 3) (wide _ v)
        (set_parameter-Wide (word tokens 1) (word tokens 2) b))

  show_command-Wide : (tokens : List (List ℕ)) → Wide (show_command env tokens c)
  unfolding show_command invalid_command
  show_command-Wide tokens = on_if Wide (length tokens == 1) (wide _ v) (
      on_if Wide (length tokens == 2 && str_eq (word tokens 1) (codes "stats")) (wide _ v)
        (wide _ v))

  reset_command-Wide : (tokens : List (List ℕ)) → Wide (reset_command env tokens c)
  unfolding reset_command
  reset_command-Wide tokens = wide _ (
      on_if (λ (c' : Console S). IsConfig c'.config)
        (length tokens == 2 && str_eq (word tokens 1) (codes "factory"))
        (config_load_default-IsConfig env.layout) v)

  reply-Wide :
      (conn : ℕ) (tokens : List (List ℕ))
      → AreBytes (word tokens 2)
      → Wide (reply env conn tokens c)
  unfolding reply save scan
  reply-Wide conn tokens b =
      let name = word tokens 0 in
      on_if Wide (str_eq name (codes "help")) (wide _ v) (
        on_if Wide (str_eq name (codes "show")) (show_command-Wide tokens) (
          on_if Wide (str_eq name (codes "save")) (wide _ v) (
            on_if Wide (str_eq name (codes "scan")) (wide _ v) (
              on_if Wide (str_eq name (codes "reset")) (reset_command-Wide tokens) (
                on_if Wide (str_eq name (codes "quit")) (wide _ v) (
                  on_if Wide (str_eq name (codes "portmap")) (portmap-Wide tokens) (
                    on_if Wide (str_eq name (codes "lock")) lock-Wide (
                      on_if Wide (str_eq name (codes "unlock")) (unlock-Wide tokens) (
                        on_if Wide (str_eq name (codes "set")) (set_command-Wide tokens b)
                          invalid_command-Wide)))))))))

  -- Every command keeps the widths of the fields, also when a string is longer than its array, if its
  -- third word consists of bytes.
  pub answer-IsConfig :
      (conn : ℕ) (tokens : List (List ℕ))
      → AreBytes (word tokens 2)
      → IsConfig (answer env conn tokens c).1.config
  unfolding answer
  answer-IsConfig conn [] b = v
  answer-IsConfig conn (t ∷ tokens) b = (reply-Wide conn (t ∷ tokens) b).config
