-- ===== src/Config/Tests.antt =====
-- The theorems on user/config_flash.c at a concrete flash memory and layout.
use esp_slip_router.Prelude.{◌≡◌, true, false}
use esp_slip_router.Config.{config_load, config_save, config_load_default}
use esp_slip_router.Config.Model.{esp_layout, default-Keeps, sectors, sectors-IsFlash, blank}
use esp_slip_router.Config.Store.{config_load-config_load}

config_load-config_load_example :
    (config_load sectors esp_layout blank ≡ (
      false,
      config_load_default esp_layout,
      config_save sectors esp_layout (config_load_default esp_layout) blank,
    ))
    × (config_load sectors esp_layout (config_load sectors esp_layout blank).2 ≡ (
      true,
      (config_load sectors esp_layout blank).1,
      (config_load sectors esp_layout blank).2,
    ))
config_load-config_load_example =
    config_load-config_load sectors sectors-IsFlash esp_layout blank default-Keeps
