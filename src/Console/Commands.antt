-- ===== src/Console/Commands.antt =====
-- `console_handle_command` of user/user_main.c and its commands. A reply is the texts to print and
-- the state without them; the texts are printed in `console_handle_command`.
use esp_slip_router.Prelude.{
  codes, ℕ, Bool, true, not, ◌&&◌, ◌||◌, Option, none, some, List, [], ◌∷◌, ◌++◌, length, get_or,
  ltb, ◌==◌, if◌then◌else◌, u16,
}
use esp_slip_router.Text.{str_eq, atoi}
use esp_slip_router.Ringbuf.{
  Ringbuf, moved, underflow, out_of_fuel, bytes_used, memcpy_into, memcpy_from,
}
use esp_slip_router.Config.{config_load_default, config_save, blob_save, blob_zero}
use esp_slip_router.Console.Tokens.{command_tokens}
use esp_slip_router.Console.Types.{
  Portmap, Console, Env, flag, string_at, password_at, console_tx, system_os_post,
  wifi_station_scan, system_restart, table_size,
}
use esp_slip_router.Console.Show.{help, show, show_stats}
use esp_slip_router.Console.Set.{
  Reply, say, configure, call, invalid_locked, invalid_numargs, invalid_arg, set_parameter,
}

-- token `i` of a command that has it
abbrev pub word : List (List ℕ) → ℕ → List ℕ
word tokens i = get_or tokens i []

abbrev pub is_reset : List (List ℕ) → Bool
is_reset tokens = str_eq (word tokens 0) (codes "reset")

-- the calls of ringbuf_memcpy_into, one for each text
unfoldable pub print : List (List ℕ) → Ringbuf → Option Ringbuf
unfolding memcpy_into
print [] rb = some rb
print (t ∷ texts) rb = elim (memcpy_into rb t) [ some rb' ↦ print texts rb' | none ↦ none ]

module _ {S : Type 0} where
  -- the reply to a call on the table
  abbrev pub portmap_done : List ℕ → Console S → Bool × List Portmap → Reply S
  portmap_done done c (ok, table) =
      say (if ok then codes "Portmap " ++ done ++ codes "\r\n" else codes "Portmap failed\r\n")
        (record c { ip_portmap_table = table })

  -- for the protocol that the words name, if they name one
  abbrev pub with_proto : (ℕ → Reply S) → List (List ℕ) → Console S → Reply S
  with_proto f tokens c =
      if str_eq (word tokens 2) (codes "TCP")
      then f 6
      else if str_eq (word tokens 2) (codes "UDP")
      then f 17
      else say invalid_arg c

  unfoldable pub lock : Console S → Reply S
  lock c = configure (record c.config { locked = 1 }) (codes "Config locked\r\n") c

  unfoldable pub unlock : List (List ℕ) → Console S → Reply S
  unfolding str_eq string_at
  unlock tokens c =
      if not (length tokens == 2)
      then say invalid_numargs c
      else if str_eq (word tokens 1) (string_at password_at c.config)
      then configure (record c.config { locked = 0 }) (codes "Config unlocked\r\n") c
      else say (codes "Unlock failed. Invalid password\r\n") c

  unfoldable pub invalid_command : Console S → Reply S
  invalid_command c = say (codes "\r\nInvalid Command\r\n") c

  -- the end at `command_handled`, which a restart does not reach
  unfoldable pub finish : Bool → ℕ → Reply S → Option (Console S)
  unfolding print
  finish restarts conn (texts, c) = elim (print texts c.console_tx_buffer) [
    | some tx ↦
        let c' = record c { console_tx_buffer = tx } in
        some (if restarts then c' else call (system_os_post console_tx conn) c')
    | none ↦ none
  ]

module _ {S : Type 0} (env : Env S) where
  unfoldable pub save : Console S → Reply S
  unfolding config_save blob_save
  save c = say (codes "Config saved\r\n") (record c {
    flash =
        blob_save env.spi_flash 0 (env.table_bytes c.ip_portmap_table)
          (config_save env.spi_flash env.layout c.config c.flash);
  })

  unfoldable pub scan : ℕ → Console S → Reply S
  scan conn c =
      say (codes "Scanning...\r\n") (call wifi_station_scan (record c { scanconn = conn }))

  -- The SDK restarts the chip.
  unfoldable pub reset_command : List (List ℕ) → Console S → Reply S
  unfolding str_eq config_load_default config_save blob_zero
  reset_command tokens c = (
    [],
    call system_restart (
        if length tokens == 2 && str_eq (word tokens 1) (codes "factory")
        then (let config = config_load_default env.layout in
            record c {
              config = config;
              flash =
                  blob_zero env.spi_flash 0 table_size
                    (config_save env.spi_flash env.layout config c.flash);
            })
        else c),
  )

  unfoldable pub portmap_add : ℕ → List (List ℕ) → Console S → Reply S
  unfolding atoi
  portmap_add proto tokens c = portmap_done (codes "set") c (
      env.ip_portmap_add proto c.my_ip (u16 (atoi (word tokens 3)))
        (env.ipaddr_addr (word tokens 4)) (u16 (atoi (word tokens 5))) c.ip_portmap_table)

  unfoldable pub portmap_remove : ℕ → List (List ℕ) → Console S → Reply S
  unfolding atoi
  portmap_remove proto tokens c =
      portmap_done (codes "deleted") c
        (env.ip_portmap_remove proto (u16 (atoi (word tokens 3))) c.ip_portmap_table)

  unfoldable pub portmap : List (List ℕ) → Console S → Reply S
  unfolding str_eq portmap_add portmap_remove
  portmap tokens c =
      let add = str_eq (word tokens 1) (codes "add") in
      if flag c.config.locked
      then say invalid_locked c
      else if ltb (length tokens) 4 || (add && not (length tokens == 6))
      then say invalid_numargs c
      else if not add && not (str_eq (word tokens 1) (codes "remove"))
      then say invalid_arg c
      else with_proto
          (λ proto. if add then portmap_add proto tokens c else portmap_remove proto tokens c)
          tokens c

  unfoldable pub set_command : List (List ℕ) → Console S → Reply S
  unfolding set_parameter invalid_command
  set_command tokens c =
      if flag c.config.locked
      then say invalid_locked c
      else if ltb (length tokens) 3
      then say invalid_numargs c
      else set_parameter env (invalid_command c) (word tokens 1) (word tokens 2) c

  -- `show` with other words than `stats` is not handled
  unfoldable pub show_command : List (List ℕ) → Console S → Reply S
  unfolding str_eq show show_stats invalid_command
  show_command tokens c =
      if length tokens == 1
      then (show env c, c)
      else if length tokens == 2 && str_eq (word tokens 1) (codes "stats")
      then (show_stats env c, c)
      else invalid_command c

  -- The reply to a command of at least one word, on the connection `conn`.
  unfoldable pub reply : ℕ → List (List ℕ) → Console S → Reply S
  unfolding str_eq help show_command save scan reset_command portmap lock unlock set_command
      invalid_command
  reply conn tokens c =
      let name = word tokens 0 in
      if str_eq name (codes "help")
      then (help, c)
      else if str_eq name (codes "show")
      then show_command tokens c
      else if str_eq name (codes "save")
      then save c
      else if str_eq name (codes "scan")
      then scan conn c
      else if str_eq name (codes "reset")
      then reset_command tokens c
      else if str_eq name (codes "quit")
      then ([], record c { remote_console_disconnect = true })
      else if str_eq name (codes "portmap")
      then portmap tokens c
      else if str_eq name (codes "lock")
      then lock c
      else if str_eq name (codes "unlock")
      then unlock tokens c
      else if str_eq name (codes "set")
      then set_command tokens c
      else invalid_command c

  -- an empty line is answered with a line feed
  unfoldable pub answer : ℕ → List (List ℕ) → Console S → Reply S
  unfolding reply
  answer conn [] c = say (codes "\n") c
  answer conn (t ∷ tokens) c = reply conn (t ∷ tokens) c

  -- `none` means that the fuel of a copy ran out.
  unfoldable pub console_handle_command : ℕ → Console S → Option (Console S)
  unfolding str_eq bytes_used memcpy_from command_tokens answer finish
  console_handle_command conn c =
      elim (memcpy_from c.console_rx_buffer (bytes_used c.console_rx_buffer)) [
        | moved (rx, bytes) ↦
            let tokens = command_tokens bytes in
            finish (is_reset tokens) conn (answer conn tokens (record c { console_rx_buffer = rx }))
        | underflow ↦ none
        | out_of_fuel ↦ none
      ]
