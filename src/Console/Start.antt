-- ===== src/Console/Start.antt =====
-- The start of user/user_main.c: `user_init`, and what is left of a saved state after a restart. The
-- modem is not built in, and the status LED (in Led) and the soft UART's debug output are left out.
use esp_slip_router.Prelude.{
  ℕ, ◌≡◌, sym, ◌∙◌, ap, Bool, true, false, List, [], ◌∷◌, ◌++◌, length, take, arith, if◌then◌else◌,
}
use esp_slip_router.Ringbuf.{Ringbuf}
use esp_slip_router.Config.{
  SysConfig, config_load, config_save, blob_load, blob_save, blob_zero, ip4, magic,
}
use esp_slip_router.Config.Laws.{IsFlash, Keeps}
use esp_slip_router.Config.Store.{
  answered, config_load-found, config_save-config_load, blob_save-config_load, blob_save-blob_load,
}
use esp_slip_router.Console.Types.{
  Portmap, Call, Console, Env, flag, string_at, ssid_at, password_at, ap_ssid_at, ap_password_at,
  table_size, wifi_set_opmode, wifi_station_set_config, wifi_station_set_auto_connect,
  wifi_softap_set_config, dhcps_set_dns, netif_add, netif_set_up, ip_napt_enable, espconn_accept,
  system_os_task, system_update_cpu_freq,
}
use esp_slip_router.Console.Commands.{save}

-- The strings as the fields of `stationConf` hold them.
unfoldable pub user_set_station_config : SysConfig → List Call
unfolding string_at
user_set_station_config c =
    wifi_station_set_config (take 32 (string_at ssid_at c)) (take 64 (string_at password_at c))
    ∷ wifi_station_set_auto_connect (flag c.auto_connect)
    ∷ []

unfoldable pub user_set_softap_wifi_config : SysConfig → List Call
unfolding string_at
user_set_softap_wifi_config c =
    wifi_softap_set_config (record {
      ssid = take 32 (string_at ap_ssid_at c);
      password = take 64 (string_at ap_password_at c);
      channel = c.ap_channel;
      auth_open = flag c.ap_open;
      max_connection = c.max_clients;
      ssid_hidden = c.ssid_hidden;
    })
    ∷ []

-- what `user_init` tells the SDK and lwIP, up to the console's server
unfoldable pub init_calls : SysConfig → List Call
unfolding user_set_station_config user_set_softap_wifi_config
init_calls c =
    (if flag c.use_ap
      then (wifi_set_opmode true ∷ user_set_softap_wifi_config c) ++ dhcps_set_dns c.ap_dns ∷ []
      else wifi_set_opmode false ∷ user_set_station_config c)
    ++ system_update_cpu_freq c.clock_speed ∷ []
    ++ (if flag c.use_ap
        then netif_add c.ip_addr (ip4 255 255 255 0) c.ip_addr_peer ∷ netif_set_up ∷ []
        else netif_add c.ip_addr (ip4 255 255 255 0) (ip4 127 0 0 1)
          ∷ netif_set_up
          ∷ ip_napt_enable c.ip_addr
          ∷ [])

-- the configuration and the table, from the flash or by default
abbrev pub init_table :
    {S : Type 0} → Env S → List Portmap → Bool × SysConfig × S → SysConfig × List Portmap × S
init_table env table (found, config, flash) =
    if found
    then (config, env.table_of_bytes (blob_load env.spi_flash 0 table_size flash), flash)
    else (config, table, blob_zero env.spi_flash 0 table_size flash)

-- The globals after `user_init`, and `g_bit_rate`. `rx` and `tx` are the rings of 80 and of MAX_CON_SEND_SIZE
-- bytes that ringbuf_new gives, `table` is the table of lwIP so far, and `alloc` says whether the
-- server's struct was allocated.
unfoldable pub user_init :
    {S : Type 0} → Env S → Ringbuf → Ringbuf → Bool → List Portmap → S → ℕ × Console S
unfolding config_load blob_load blob_zero init_calls
user_init env rx tx alloc table0 flash0 =
    let (config, table, flash) =
      init_table env table0 (config_load env.spi_flash env.layout flash0) in
    (
      config.bit_rate,
      record {
        console_rx_buffer = rx;
        console_tx_buffer = tx;
        config = config;
        connected = false;
        my_ip = 0;
        dns_ip = 0;
        remote_console_disconnect = false;
        ip_portmap_table = table;
        bytes_in = 0;
        bytes_out = 0;
        scanconn = 0;
        flash = flash;
        calls =
            init_calls config ++ (if alloc then espconn_accept 7777 ∷ system_os_task ∷ [] else []);
      },
    )

-- After `save`, the next start has the configuration and the table of ports that were saved, if the layouts
-- keep them.
pub save-user_init :
    {S : Type 0} (env : Env S) (c : Console S) (rx tx : Ringbuf) (alloc : Bool)
    (table : List Portmap)
    → IsFlash env.spi_flash
    → Keeps env.layout c.config
    → c.config.magic_number ≡ magic
    → c.config.length ≡ env.layout.size
    → length (env.table_bytes c.ip_portmap_table) ≡ table_size
    → env.table_of_bytes (env.table_bytes c.ip_portmap_table) ≡ c.ip_portmap_table
    → ((user_init env rx tx alloc table (save env c).1.flash).1.config ≡ c.config)
      × ((user_init env rx tx alloc table (save env c).1.flash).1.ip_portmap_table
          ≡ c.ip_portmap_table)
unfolding save user_init
save-user_init env c rx tx alloc table laws k m l size back =
    let s = config_save env.spi_flash env.layout c.config c.flash in
    let bytes = env.table_bytes c.ip_portmap_table in
    let loaded =
      config_load-found env.spi_flash laws env.layout c.config (blob_save env.spi_flash 0 bytes s) (
        blob_save-config_load env.spi_flash laws env.layout 0 bytes s k.small (omega arith)
          (omega (arith, size))
        ∙ ap answered
            (config_save-config_load env.spi_flash laws env.layout c.config c.flash k m l)) in
    let table_back : env.table_of_bytes
          (blob_load env.spi_flash 0 table_size (blob_save env.spi_flash 0 bytes s))
        ≡ c.ip_portmap_table =
      ap (λ n. env.table_of_bytes (blob_load env.spi_flash 0 n (blob_save env.spi_flash 0 bytes s)))
        (sym size)
      ∙ ap env.table_of_bytes
          (blob_save-blob_load env.spi_flash laws 0 bytes s (omega (arith, size)))
      ∙ back in
    (
      ap (λ r. (init_table env table r).0) loaded,
      ap (λ r. (init_table env table r).1) loaded ∙ table_back,
    )
