-- ===== src/Config/Model.antt =====
-- A flash memory and a layout like the ESP8266's, which the theorems on user/config_flash.c hold of.
use esp_slip_router.Prelude.{
  ℕ, zero, suc, ◌+◌, ◌*◌, ◌/◌, ◌%◌, ◌≡◌, ◌≢◌, ◌≤◌, refl, sym, ◌∙◌, ap, false, List, [], ◌∷◌, ◌++◌,
  arith, length, length-append, take, drop, replicate, get_or, ◌==◌, ==_iff, if◌then◌else◌,
}
use esp_slip_router.Config.{SysConfig, SpiFlash, Layout, config_load_default, le32}
use esp_slip_router.Config.Laws.{IsFlash, Keeps}

-- little-endian numbers
abbrev pub two : ℕ → List ℕ
two n = n % 256 ∷ n / 256 % 256 ∷ []

abbrev pub four : ℕ → List ℕ
four n = n % 256 ∷ n / 256 % 256 ∷ n / 65536 % 256 ∷ n / 16777216 % 256 ∷ []

abbrev at : List ℕ → ℕ → ℕ
at b i = get_or b i 0

-- the layout of the ESP8266's compiler: numbers stand at multiples of their size
abbrev pub esp_layout : Layout
esp_layout = record {
  size = 232;
  to_bytes = λ c.
      four c.magic_number
      ++ two c.length
      ++ c.ssid
      ++ c.password
      ++ (c.auto_connect ∷ c.use_ap ∷ c.ap_ssid)
      ++ c.ap_password
      ++ (c.ap_channel ∷ c.ap_open ∷ c.ap_on ∷ c.ssid_hidden ∷ c.max_clients ∷ 0 ∷ 0 ∷ 0 ∷ [])
      ++ four c.ap_dns
      ++ (c.locked ∷ 0 ∷ 0 ∷ 0 ∷ [])
      ++ four c.ip_addr
      ++ four c.ip_addr_peer
      ++ two c.clock_speed
      ++ (0 ∷ 0 ∷ [])
      ++ four c.bit_rate;
  of_bytes = λ b. record {
    magic_number = le32 b;
    length = at b 4 + 256 * at b 5;
    ssid = take 32 (drop 6 b);
    password = take 64 (drop 38 b);
    auto_connect = at b 102;
    use_ap = at b 103;
    ap_ssid = take 32 (drop 104 b);
    ap_password = take 64 (drop 136 b);
    ap_channel = at b 200;
    ap_open = at b 201;
    ap_on = at b 202;
    ssid_hidden = at b 203;
    max_clients = at b 204;
    ap_dns = le32 (drop 208 b);
    locked = at b 212;
    ip_addr = le32 (drop 216 b);
    ip_addr_peer = le32 (drop 220 b);
    clock_speed = at b 224 + 256 * at b 225;
    bit_rate = le32 (drop 228 b);
  };
}

pub default-Keeps : Keeps esp_layout (config_load_default esp_layout)
unfolding config_load_default
default-Keeps = record {
  small = omega arith;
  some = omega arith;
  bytes = refl;
  back = refl;
  front = refl;
}

-- A flash memory that is used a sector at a time: what was written to each since it was erased.
abbrev pub Sectors : Type 0
Sectors = ℕ → List ℕ

abbrev put : Sectors → ℕ → List ℕ → Sectors
put s k bytes j = if j == k then bytes else s j

abbrev pub sectors : SpiFlash Sectors
sectors = record {
  read = λ s addr n. take n (s (addr / 4096) ++ replicate n 255);
  erase_sector = λ s k. put s k [];
  write = λ s addr bytes. put s (addr / 4096) (bytes ++ drop (length bytes) (s (addr / 4096)));
}

sector_of : (k : ℕ) → k * 4096 / 4096 ≡ k
sector_of k = omega arith

put_self : (s : Sectors) (k : ℕ) (bytes : List ℕ) → put s k bytes k ≡ bytes
put_self s k bytes = rw ((==_iff k k).1 refl) refl

put_other : (s : Sectors) (k j : ℕ) (bytes : List ℕ) → j ≢ k → put s k bytes j ≡ s j
put_other s k j bytes d = let e : (j == k) ≡ false = ground arith in rw e refl

take_front : (n : ℕ) (xs ys : List ℕ) → n ≤ length xs → take n (xs ++ ys) ≡ take n xs
take_front zero xs ys h = refl
take_front (suc n) [] ys h = ground arith
take_front (suc n) (x ∷ xs) ys h = ap (λ l. x ∷ l) (take_front n xs ys (omega arith))

take_fill : (n v : ℕ) → take n (replicate n v) ≡ replicate n v
take_fill zero v = refl
take_fill (suc n) v = ap (λ l. v ∷ l) (take_fill n v)

pub sectors-IsFlash : IsFlash sectors
sectors-IsFlash = record {
  erased = λ s k n h.
      ap (λ j. take n (put s k [] j ++ replicate n 255)) (sector_of k)
      ∙ ap (λ l. take n (l ++ replicate n 255)) (put_self s k [])
      ∙ take_fill n 255;
  written = λ s k n bytes h le e.
      ap (λ l. take n (l ++ replicate n 255)) (put_self s (k * 4096 / 4096) _)
      ∙ take_front n (bytes ++ drop (length bytes) (s (k * 4096 / 4096))) (replicate n 255)
          (omega (arith, length-append bytes (drop (length bytes) (s (k * 4096 / 4096)))))
      ∙ take_front n bytes _ h;
  erased_elsewhere = λ s k j n d h.
      ap (λ l. take n (l ++ replicate n 255))
        (put_other s k (j * 4096 / 4096) [] (λ e. d (sym (sector_of j) ∙ e)));
  written_elsewhere = λ s k j n bytes d h le.
      ap (λ l. take n (l ++ replicate n 255))
        (put_other s (k * 4096 / 4096) (j * 4096 / 4096) _
          (λ e. d (sym (sector_of j) ∙ e ∙ sector_of k)));
}

abbrev pub blank : Sectors
blank k = []

abbrev pub default : SysConfig
default = config_load_default esp_layout
