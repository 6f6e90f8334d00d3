-- ===== src/Config/Laws.antt =====
-- What user/config_flash.c relies on: the flash memory's behaviour, which the SDK documents, and a
-- layout that keeps a configuration.
use esp_slip_router.Prelude.{ℕ, ◌*◌, ◌≡◌, ◌≢◌, ◌≤◌, List, length, replicate, take}
use esp_slip_router.Config.{SysConfig, SpiFlash, Layout, sec_size, le32}

-- An erased sector reads as ones, writing there stores the bytes, and nothing changes other sectors.
pub record IsFlash {S : Type 0} (flash : SpiFlash S) : Type 0 where
  pub erased :
      (s : S) (k n : ℕ)
      → n ≤ sec_size
      → flash.read (flash.erase_sector s k) (k * sec_size) n ≡ replicate n 255
  pub written :
      (s : S) (k n : ℕ) (bytes : List ℕ)
      → n ≤ length bytes
      → length bytes ≤ sec_size
      → flash.read s (k * sec_size) (length bytes) ≡ replicate (length bytes) 255
      → flash.read (flash.write s (k * sec_size) bytes) (k * sec_size) n ≡ take n bytes
  pub erased_elsewhere :
      (s : S) (k j n : ℕ)
      → j ≢ k
      → n ≤ sec_size
      → flash.read (flash.erase_sector s k) (j * sec_size) n ≡ flash.read s (j * sec_size) n
  pub written_elsewhere :
      (s : S) (k j n : ℕ) (bytes : List ℕ)
      → j ≢ k
      → n ≤ sec_size
      → length bytes ≤ sec_size
      → flash.read (flash.write s (k * sec_size) bytes) (j * sec_size) n
        ≡ flash.read s (j * sec_size) n

-- The layout keeps `c`, with its magic number in front, in less than a sector.
pub record Keeps (layout : Layout) (c : SysConfig) : Type 0 where
  pub small : layout.size ≤ sec_size
  pub some : 4 ≤ layout.size
  pub bytes : length (layout.to_bytes c) ≡ layout.size
  pub back : layout.of_bytes (layout.to_bytes c) ≡ c
  pub front : le32 (take 4 (layout.to_bytes c)) ≡ c.magic_number
