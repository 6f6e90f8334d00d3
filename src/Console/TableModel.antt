-- ===== src/Console/TableModel.antt =====
-- The bytes of the table of ports as the ESP8266's compiler lays `struct portmap_table` out
-- (include/lwip/lwip_napt.h), and a table of 32 entries.
use esp_slip_router.Prelude.{
  ℕ, zero, suc, ◌+◌, ◌*◌, true, false, not, ◌==◌, if◌then◌else◌, List, [], ◌∷◌, ◌++◌, drop, get_or,
  replicate,
}
use esp_slip_router.Config.{le32}
use esp_slip_router.Config.Model.{two, four}
use esp_slip_router.Console.Types.{Portmap}

-- 16 bytes, the last two of which are not used
abbrev entry_bytes : Portmap → List ℕ
entry_bytes p =
    four p.maddr
    ++ four p.daddr
    ++ two p.mport
    ++ two p.dport
    ++ (p.proto ∷ (if p.valid then 1 else 0) ∷ 0 ∷ 0 ∷ [])

abbrev entry_of_bytes : List ℕ → Portmap
entry_of_bytes b = record {
  maddr = le32 b;
  daddr = le32 (drop 4 b);
  mport = get_or b 8 0 + 256 * get_or b 9 0;
  dport = get_or b 10 0 + 256 * get_or b 11 0;
  proto = get_or b 12 0;
  valid = not (get_or b 13 0 == 0);
}

abbrev pub bytes_of_table : List Portmap → List ℕ
bytes_of_table [] = []
bytes_of_table (p ∷ table) = entry_bytes p ++ bytes_of_table table

-- the first `n` entries
abbrev pub table_of_bytes : ℕ → List ℕ → List Portmap
table_of_bytes zero b = []
table_of_bytes (suc n) b = entry_of_bytes b ∷ table_of_bytes n (drop 16 b)

abbrev pub free_entry : Portmap
free_entry = record { maddr = 0; daddr = 0; mport = 0; dport = 0; proto = 0; valid = false }

-- TCP port 8080 of 192.168.4.1 to port 80 of 192.168.240.2, a UDP port, and 30 free entries
abbrev pub two_mappings : List Portmap
two_mappings =
    record {
      maddr = 0x0104a8c0;
      daddr = 0x02f0a8c0;
      mport = 8080;
      dport = 80;
      proto = 6;
      valid = true;
    }
    ∷ record {
      maddr = 0x0104a8c0;
      daddr = 0x03f0a8c0;
      mport = 5353;
      dport = 53;
      proto = 17;
      valid = true;
    }
    ∷ replicate 30 free_entry
