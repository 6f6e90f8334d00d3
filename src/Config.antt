-- ===== src/Config.antt =====
-- user/config_flash.c and include/config_flash.h: the configuration and the blobs in flash memory.
pub mod Laws
pub mod Store
pub mod Radio
pub mod Model
mod Tests
use esp_slip_router.Prelude.{
  codes, ℕ, ◌+◌, ◌-◌, ◌*◌, Bool, true, false, List, [], ◌∷◌, ◌++◌, length, replicate, get_or, ◌==◌,
  if◌then◌else◌, u16,
}

-- `sysconfig_t`; an address is the number of its four bytes, the first one lowest.
pub record SysConfig : Type 0 where
  pub magic_number : ℕ
  pub length : ℕ
  pub ssid : List ℕ
  pub password : List ℕ
  pub auto_connect : ℕ
  pub use_ap : ℕ
  pub ap_ssid : List ℕ
  pub ap_password : List ℕ
  pub ap_channel : ℕ
  pub ap_open : ℕ
  pub ap_on : ℕ
  pub ssid_hidden : ℕ
  pub max_clients : ℕ
  pub ap_dns : ℕ
  pub locked : ℕ
  pub ip_addr : ℕ
  pub ip_addr_peer : ℕ
  pub clock_speed : ℕ
  pub bit_rate : ℕ

abbrev pub flash_block_no : ℕ
flash_block_no = 0x68

abbrev pub magic : ℕ
magic = 0x01200583

-- SPI_FLASH_SEC_SIZE of the SDK
abbrev pub sec_size : ℕ
sec_size = 4096

-- IP4_ADDR
abbrev pub ip4 : ℕ → ℕ → ℕ → ℕ → ℕ
ip4 a b c d = a + 256 * b + 65536 * c + 16777216 * d

-- a string in an array of `n` zeros
abbrev pub chars : ℕ → List ℕ → List ℕ
chars n s = s ++ replicate (n - length s) 0

-- a little-endian number of 32 bits
abbrev pub le32 : List ℕ → ℕ
le32 b = ip4 (get_or b 0 0) (get_or b 1 0) (get_or b 2 0) (get_or b 3 0)

-- The functions of the SDK on a flash memory `S`, with addresses and sizes in bytes.
pub record SpiFlash (S : Type 0) : Type 0 where
  pub read : S → ℕ → ℕ → List ℕ
  pub erase_sector : S → ℕ → S
  pub write : S → ℕ → List ℕ → S

-- How the compiler lays `sysconfig_t` out in `size` bytes.
pub record Layout : Type 0 where
  pub size : ℕ
  pub to_bytes : SysConfig → List ℕ
  pub of_bytes : List ℕ → SysConfig

unfoldable pub config_load_default : Layout → SysConfig
config_load_default layout = record {
  magic_number = magic;
  length = u16 layout.size;
  ssid = chars 32 (codes "ssid");
  password = chars 64 (codes "password");
  auto_connect = 1;
  use_ap = 0;
  ap_ssid = chars 32 (codes "MyAP");
  ap_password = chars 64 (codes "password");
  ap_channel = 1;
  ap_open = 1;
  ap_on = 1;
  ssid_hidden = 0;
  max_clients = 8;
  ap_dns = ip4 192 168 240 2;
  locked = 0;
  ip_addr = ip4 192 168 240 1;
  ip_addr_peer = ip4 192 168 240 2;
  clock_speed = 160;
  bit_rate = 115200;
}

module _ {S : Type 0} (flash : SpiFlash S) where
  -- erase the sector and write at its start
  unfoldable pub store : ℕ → List ℕ → S → S
  store sector bytes s = flash.write (flash.erase_sector s sector) (sector * sec_size) bytes

  module _ (layout : Layout) where
    unfoldable pub config_save : SysConfig → S → S
    config_save c s = store flash_block_no (layout.to_bytes c) s

    -- whether 0 is returned (and not -1), the configuration, and the flash
    abbrev pub use_default : S → Bool × SysConfig × S
    use_default s = let c = config_load_default layout in (false, c, config_save c s)

    -- for a `config` that is not NULL
    unfoldable pub config_load : S → Bool × SysConfig × S
    config_load s =
        let addr = flash_block_no * sec_size in
        let c = layout.of_bytes (flash.read s addr layout.size) in
        if le32 (flash.read s addr 4) == magic
        then (if c.length == layout.size then (true, c, s) else use_default s)
        else use_default s

  unfoldable pub blob_save : ℕ → List ℕ → S → S
  blob_save blob_no bytes s = store (u16 (flash_block_no + 1 + blob_no)) bytes s

  unfoldable pub blob_load : ℕ → ℕ → S → List ℕ
  blob_load blob_no len s = flash.read s (u16 (flash_block_no + 1 + blob_no) * sec_size) len

  unfoldable pub blob_zero : ℕ → ℕ → S → S
  blob_zero blob_no len s = store (u16 (flash_block_no + 1 + blob_no)) (replicate len 0) s
