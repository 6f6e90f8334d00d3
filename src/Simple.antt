-- ===== src/Simple.antt =====
-- user_simple/user_main.c: the minimal router, which only joins the serial line to the Wi-Fi.
pub mod Received
mod Tests
use esp_slip_router.Softuart.{Softuart, set_pin_rx, set_pin_tx, init}
use esp_slip_router.Config.{ip4, chars}
use esp_slip_router.Uart.{UnloadFn}
use esp_slip_router.Prelude.{ℕ, Option, some, List, [], ◌∷◌, ◌==◌, if◌then◌else◌, codes}

-- lwIP's side of the SLIP interface, on a state `N`: a byte that is received, and a look whether the
-- bytes received make a packet.
pub record SlipIf (N : Type 0) : Type 0 where
  pub slipif_received_byte : N → ℕ → N
  pub slipif_process_rxqueue : N → N

-- what `user_init` tells the SDK and lwIP
pub data InitCall : Type 0 where
  os_install_putc1 : InitCall
  wifi_set_station_mode : InitCall
  wifi_station_set_config : List ℕ → List ℕ → InitCall
  wifi_station_connect : InitCall
  netif_add : ℕ → ℕ → ℕ → ℕ → InitCall
  netif_set_up : InitCall
  ip_napt_enable : ℕ → InitCall
  system_os_task : ℕ → ℕ → InitCall

abbrev pub uart0_signal : ℕ
uart0_signal = 1

module _ {N : Type 0} (slip : SlipIf N) where
  unfoldable pub write_to_pbuf : N → ℕ → N
  write_to_pbuf n c = slip.slipif_received_byte n c

  -- the task
  unfoldable pub loop : ℕ → N → N
  loop sig n = if sig == uart0_signal then slip.slipif_process_rxqueue n else n

-- The globals that `user_init` sets: the soft UART, with the table of soft UARTs by their receive
-- pins, and `uart0_unload_fn`; and its calls.
pub record Started (N : Type 0) : Type 0 where
  pub softuart : Softuart
  pub instances : List (Option Softuart)
  pub uart0_unload_fn : UnloadFn N
  pub calls : List InitCall

abbrev pub init_calls : List InitCall
init_calls =
    os_install_putc1
    ∷ wifi_set_station_mode
    ∷ wifi_station_set_config (chars 32 (codes "ssid")) (chars 64 (codes "password"))
    ∷ wifi_station_connect
    ∷ netif_add (ip4 192 168 240 1) (ip4 255 255 255 0) (ip4 192 168 240 2) 2
    ∷ netif_set_up
    ∷ ip_napt_enable (ip4 192 168 240 1)
    ∷ system_os_task 0 10
    ∷ []

-- `gpio` are the macros of the SDK that stand in `softuart_reg`.
unfoldable pub user_init :
    {N : Type 0} → SlipIf N → (ℕ → ℕ × ℕ) → Softuart → List (Option Softuart) → Started N
unfolding write_to_pbuf set_pin_rx set_pin_tx init
user_init slip gpio softuart instances =
    let (s, table) = init 19200 (set_pin_tx gpio 12 (set_pin_rx gpio 14 softuart)) instances in
    record {
      softuart = s;
      instances = table;
      uart0_unload_fn = some (write_to_pbuf slip);
      calls = init_calls;
    }
