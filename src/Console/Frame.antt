-- ===== src/Console/Frame.antt =====
-- What the commands of user/user_main.c leave alone: the rings, the addresses and the counts.
use esp_slip_router.Prelude.{
  codes, ℕ, ◌≡◌, refl, Bool, not, ◌&&◌, ◌||◌, List, [], ◌∷◌, length, on_if, ltb, leb, ◌==◌, u8, u16,
}
use esp_slip_router.Ringbuf.{Ringbuf}
use esp_slip_router.Text.{str_eq, atoi}
use esp_slip_router.Console.Types.{Console, Env, flag, string_at, password_at}
use esp_slip_router.Console.Set.{
  Reply, set_parameter, set_ssid, set_password, set_auto_connect, set_ap_ssid, set_ap_password,
  set_ap_open, set_use_ap, set_ap_channel, set_ssid_hidden, set_max_clients, set_dns, set_speed,
  set_addr, set_addr_peer, set_bitrate,
}
use esp_slip_router.Console.Commands.{
  word, save, scan, reset_command, portmap_add, portmap_remove, portmap, lock, unlock,
  invalid_command, set_command, show_command, reply, answer,
}

-- what no command but the printing of its reply changes
abbrev pub Frame : Type 0
Frame = Ringbuf × Ringbuf × Bool × ℕ × ℕ × ℕ × ℕ

abbrev pub frame : {S : Type 0} → Console S → Frame
frame c = (
  c.console_rx_buffer, c.console_tx_buffer, c.connected, c.my_ip, c.dns_ip, c.bytes_in, c.bytes_out,
)

-- of a reply
pub record Framed {S : Type 0} (a : Console S) (r : Reply S) : Type 0 where
  pub same : frame r.1 ≡ frame a

framed : {S : Type 0} {a : Console S} (r : Reply S) → frame r.1 ≡ frame a → Framed a r
framed r e = record { same = e }

module _ {S : Type 0} (env : Env S) (c : Console S) where
  invalid_command-frame : Framed c (invalid_command c)
  unfolding invalid_command
  invalid_command-frame = framed _ refl

  set_ssid-frame : (value : List ℕ) → Framed c (set_ssid value c)
  unfolding set_ssid
  set_ssid-frame value = framed _ refl

  set_password-frame : (value : List ℕ) → Framed c (set_password value c)
  unfolding set_password
  set_password-frame value = framed _ refl

  set_auto_connect-frame : (value : List ℕ) → Framed c (set_auto_connect value c)
  unfolding set_auto_connect
  set_auto_connect-frame value = framed _ refl

  set_ap_ssid-frame : (value : List ℕ) → Framed c (set_ap_ssid value c)
  unfolding set_ap_ssid
  set_ap_ssid-frame value = framed _ refl

  set_ap_password-frame : (value : List ℕ) → Framed c (set_ap_password value c)
  unfolding set_ap_password
  set_ap_password-frame value =
      on_if (Framed c) (ltb (length value) 8) (framed _ refl) (framed _ refl)

  set_ap_open-frame : (value : List ℕ) → Framed c (set_ap_open value c)
  unfolding set_ap_open
  set_ap_open-frame value = framed _ refl

  set_use_ap-frame : (value : List ℕ) → Framed c (set_use_ap value c)
  unfolding set_use_ap
  set_use_ap-frame value = framed _ refl

  set_ap_channel-frame : (value : List ℕ) → Framed c (set_ap_channel value c)
  unfolding set_ap_channel
  set_ap_channel-frame value =
      on_if (Framed c) (leb 1 (u8 (atoi value)) && leb (u8 (atoi value)) 13) (framed _ refl)
        (framed _ refl)

  set_ssid_hidden-frame : (value : List ℕ) → Framed c (set_ssid_hidden value c)
  unfolding set_ssid_hidden
  set_ssid_hidden-frame value = framed _ refl

  set_max_clients-frame : (value : List ℕ) → Framed c (set_max_clients value c)
  unfolding set_max_clients
  set_max_clients-frame value =
      on_if (Framed c) (leb 2147483648 (atoi value) || leb (atoi value) 8) (framed _ refl)
        (framed _ refl)

  set_dns-frame : (value : List ℕ) → Framed c (set_dns env value c)
  unfolding set_dns
  set_dns-frame value = framed _ refl

  set_speed-frame : (value : List ℕ) → Framed c (set_speed env value c)
  unfolding set_speed
  set_speed-frame value =
      on_if (Framed c) (env.cpu_freq_ok (u16 (atoi value))) (framed _ refl) (framed _ refl)

  set_addr-frame : (value : List ℕ) → Framed c (set_addr env value c)
  unfolding set_addr
  set_addr-frame value = framed _ refl

  set_addr_peer-frame : (value : List ℕ) → Framed c (set_addr_peer env value c)
  unfolding set_addr_peer
  set_addr_peer-frame value = framed _ refl

  set_bitrate-frame : (value : List ℕ) → Framed c (set_bitrate env value c)
  unfolding set_bitrate
  set_bitrate-frame value = framed _ refl

  set_parameter-frame :
      (name value : List ℕ) → Framed c (set_parameter env (invalid_command c) name value c)
  unfolding set_parameter
  set_parameter-frame name value =
      on_if (Framed c) (str_eq name (codes "ssid")) (set_ssid-frame value) (
        on_if (Framed c) (str_eq name (codes "password")) (set_password-frame value) (
          on_if (Framed c) (str_eq name (codes "auto_connect")) (set_auto_connect-frame value) (
            on_if (Framed c) (str_eq name (codes "ap_ssid")) (set_ap_ssid-frame value) (
              on_if (Framed c) (str_eq name (codes "ap_password")) (set_ap_password-frame value) (
                on_if (Framed c) (str_eq name (codes "ap_open")) (set_ap_open-frame value) (
                  on_if (Framed c) (str_eq name (codes "use_ap")) (set_use_ap-frame value) (
                    on_if (Framed c) (str_eq name (codes "ap_channel")) (set_ap_channel-frame value)
                      (on_if (Framed c) (str_eq name (codes "ssid_hidden"))
                        (set_ssid_hidden-frame value)
                        (on_if (Framed c) (str_eq name (codes "max_clients"))
                          (set_max_clients-frame value)
                          (on_if (Framed c) (str_eq name (codes "dns")) (set_dns-frame value) (
                            on_if (Framed c) (str_eq name (codes "speed")) (set_speed-frame value) (
                              on_if (Framed c) (str_eq name (codes "addr")) (set_addr-frame value) (
                                on_if (Framed c) (str_eq name (codes "addr_peer"))
                                  (set_addr_peer-frame value)
                                  (on_if (Framed c) (str_eq name (codes "bitrate"))
                                    (set_bitrate-frame value) invalid_command-frame))))))))))))))

  portmap-frame : (tokens : List (List ℕ)) → Framed c (portmap env tokens c)
  unfolding portmap portmap_add portmap_remove
  portmap-frame tokens =
      let add = str_eq (word tokens 1) (codes "add") in
      on_if (Framed c) (flag c.config.locked) (framed _ refl) (
        on_if (Framed c) (ltb (length tokens) 4 || (add && not (length tokens == 6)))
          (framed _ refl)
          (on_if (Framed c) (not add && not (str_eq (word tokens 1) (codes "remove")))
            (framed _ refl)
            (on_if (Framed c) (str_eq (word tokens 2) (codes "TCP"))
              (on_if (Framed c) add (framed _ refl) (framed _ refl))
              (on_if (Framed c) (str_eq (word tokens 2) (codes "UDP"))
                (on_if (Framed c) add (framed _ refl) (framed _ refl)) (framed _ refl)))))

  unlock-frame : (tokens : List (List ℕ)) → Framed c (unlock tokens c)
  unfolding unlock
  unlock-frame tokens = on_if (Framed c) (not (length tokens == 2)) (framed _ refl) (
      on_if (Framed c) (str_eq (word tokens 1) (string_at password_at c.config)) (framed _ refl)
        (framed _ refl))

  set_command-frame : (tokens : List (List ℕ)) → Framed c (set_command env tokens c)
  unfolding set_command
  set_command-frame tokens = on_if (Framed c) (flag c.config.locked) (framed _ refl) (
      on_if (Framed c) (ltb (length tokens) 3) (framed _ refl)
        (set_parameter-frame (word tokens 1) (word tokens 2)))

  show_command-frame : (tokens : List (List ℕ)) → Framed c (show_command env tokens c)
  unfolding show_command invalid_command
  show_command-frame tokens = on_if (Framed c) (length tokens == 1) (framed _ refl) (
      on_if (Framed c) (length tokens == 2 && str_eq (word tokens 1) (codes "stats"))
        (framed _ refl) (framed _ refl))

  reset_command-frame : (tokens : List (List ℕ)) → Framed c (reset_command env tokens c)
  unfolding reset_command
  reset_command-frame tokens = framed _ (
      on_if (λ (c' : Console S). frame c' ≡ frame c)
        (length tokens == 2 && str_eq (word tokens 1) (codes "factory")) refl refl)

  reply-frame : (conn : ℕ) (tokens : List (List ℕ)) → Framed c (reply env conn tokens c)
  unfolding reply save scan lock invalid_command
  reply-frame conn tokens =
      let name = word tokens 0 in
      on_if (Framed c) (str_eq name (codes "help")) (framed _ refl) (
        on_if (Framed c) (str_eq name (codes "show")) (show_command-frame tokens) (
          on_if (Framed c) (str_eq name (codes "save")) (framed _ refl) (
            on_if (Framed c) (str_eq name (codes "scan")) (framed _ refl) (
              on_if (Framed c) (str_eq name (codes "reset")) (reset_command-frame tokens) (
                on_if (Framed c) (str_eq name (codes "quit")) (framed _ refl) (
                  on_if (Framed c) (str_eq name (codes "portmap")) (portmap-frame tokens) (
                    on_if (Framed c) (str_eq name (codes "lock")) (framed _ refl) (
                      on_if (Framed c) (str_eq name (codes "unlock")) (unlock-frame tokens) (
                        on_if (Framed c) (str_eq name (codes "set")) (set_command-frame tokens)
                          (framed _ refl))))))))))

  pub answer-frame :
      (conn : ℕ) (tokens : List (List ℕ)) → frame (answer env conn tokens c).1 ≡ frame c
  unfolding answer
  answer-frame conn [] = refl
  answer-frame conn (t ∷ tokens) = (reply-frame conn (t ∷ tokens)).same
