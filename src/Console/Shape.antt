-- ===== src/Console/Shape.antt =====
-- The widths of the fields of the configuration in user/user_main.c, which every command keeps.
use esp_slip_router.Prelude.{
  codes, ℕ, zero, suc, ◌+◌, ◌-◌, ◌<◌, ◌≡◌, refl, ◌∙◌, List, [], ◌∷◌, ◌++◌, length, length-take,
  length-drop, length-blit, replicate, set, blit, take, drop, get_or, arith,
}
use esp_slip_router.Config.{SysConfig, Layout, config_load_default, chars}
use esp_slip_router.Console.Types.{image, of_image, print_at}
use esp_slip_router.Console.Strings.{IsShaped, length-image}

-- every element is a byte
pub data AreBytes : List ℕ → Type 0 where
  no_bytes : AreBytes []
  more_bytes : {b : ℕ} {bs : List ℕ} → b < 256 → AreBytes bs → AreBytes (b ∷ bs)

pub append-AreBytes : {a b : List ℕ} → AreBytes a → AreBytes b → AreBytes (a ++ b)
append-AreBytes no_bytes q = q
append-AreBytes (more_bytes h p) q = more_bytes h (append-AreBytes p q)

take-AreBytes : (n : ℕ) {a : List ℕ} → AreBytes a → AreBytes (take n a)
take-AreBytes zero p = no_bytes
take-AreBytes (suc n) no_bytes = no_bytes
take-AreBytes (suc n) (more_bytes h p) = more_bytes h (take-AreBytes n p)

pub drop-AreBytes : (n : ℕ) {a : List ℕ} → AreBytes a → AreBytes (drop n a)
drop-AreBytes zero p = p
drop-AreBytes (suc n) no_bytes = no_bytes
drop-AreBytes (suc n) (more_bytes h p) = drop-AreBytes n p

get_or-byte : (i : ℕ) {a : List ℕ} → AreBytes a → get_or a i 0 < 256
get_or-byte i no_bytes = omega arith
get_or-byte zero (more_bytes h p) = h
get_or-byte (suc i) (more_bytes h p) = get_or-byte i p

set-AreBytes : (i : ℕ) {v : ℕ} {a : List ℕ} → v < 256 → AreBytes a → AreBytes (set a i v)
set-AreBytes i h no_bytes = no_bytes
set-AreBytes zero h (more_bytes h' p) = more_bytes h p
set-AreBytes (suc i) h (more_bytes h' p) = more_bytes h' (set-AreBytes i h p)

blit-AreBytes : (i : ℕ) {a s : List ℕ} → AreBytes a → AreBytes s → AreBytes (blit a i s)
blit-AreBytes i p no_bytes = p
blit-AreBytes i p (more_bytes h q) = blit-AreBytes (i + 1) (set-AreBytes i h p) q

-- a string that lies in an array of `n` zeros
chars-AreBytes : (n : ℕ) {s : List ℕ} → AreBytes s → AreBytes (chars n s)
chars-AreBytes n {s} p = append-AreBytes p (zeros (n - length s))
  where
    zeros : (k : ℕ) → AreBytes (replicate k 0)
    zeros zero = no_bytes
    zeros (suc k) = more_bytes (omega arith) (zeros k)

-- Each field fits in its type.
pub record IsConfig (c : SysConfig) : Type 0 where
  pub shape : IsShaped c
  pub ssid : AreBytes c.ssid
  pub password : AreBytes c.password
  pub auto_connect : c.auto_connect < 256
  pub use_ap : c.use_ap < 256
  pub ap_ssid : AreBytes c.ap_ssid
  pub ap_password : AreBytes c.ap_password
  pub ap_channel : c.ap_channel < 256
  pub ap_open : c.ap_open < 256
  pub ap_on : c.ap_on < 256
  pub ssid_hidden : c.ssid_hidden < 256
  pub max_clients : c.max_clients < 256
  pub ap_dns : c.ap_dns < 4294967296
  pub locked : c.locked < 256
  pub ip_addr : c.ip_addr < 4294967296
  pub ip_addr_peer : c.ip_addr_peer < 4294967296
  pub clock_speed : c.clock_speed < 65536
  pub bit_rate : c.bit_rate < 4294967296

image-AreBytes : {c : SysConfig} → IsConfig c → AreBytes (image c)
unfolding image
image-AreBytes v = append-AreBytes v.ssid (
    append-AreBytes v.password (
      append-AreBytes (more_bytes v.auto_connect (more_bytes v.use_ap v.ap_ssid)) (
        append-AreBytes v.ap_password (
          more_bytes v.ap_channel (
            more_bytes v.ap_open (
              more_bytes v.ap_on
                (more_bytes v.ssid_hidden (more_bytes v.max_clients no_bytes))))))))

of_image-IsConfig :
    {b : List ℕ} {c : SysConfig}
    → length b ≡ 199
    → AreBytes b
    → IsConfig c
    → IsConfig (of_image b c)
unfolding of_image
of_image-IsConfig {b} l p v = record {
  shape = record {
    ssid = length-take 32 b ∙ omega arith;
    password = length-take 64 (drop 32 b) ∙ omega (arith, length-drop 32 b);
    ap_ssid = length-take 32 (drop 98 b) ∙ omega (arith, length-drop 98 b);
    ap_password = length-take 64 (drop 130 b) ∙ omega (arith, length-drop 130 b);
  };
  ssid = take-AreBytes 32 p;
  password = take-AreBytes 64 (drop-AreBytes 32 p);
  auto_connect = get_or-byte 96 p;
  use_ap = get_or-byte 97 p;
  ap_ssid = take-AreBytes 32 (drop-AreBytes 98 p);
  ap_password = take-AreBytes 64 (drop-AreBytes 130 p);
  ap_channel = get_or-byte 194 p;
  ap_open = get_or-byte 195 p;
  ap_on = get_or-byte 196 p;
  ssid_hidden = get_or-byte 197 p;
  max_clients = get_or-byte 198 p;
  ap_dns = v.ap_dns;
  locked = v.locked;
  ip_addr = v.ip_addr;
  ip_addr_peer = v.ip_addr_peer;
  clock_speed = v.clock_speed;
  bit_rate = v.bit_rate;
}

pub print_at-IsConfig :
    (offset : ℕ) {s : List ℕ} {c : SysConfig}
    → AreBytes s
    → IsConfig c
    → IsConfig (print_at offset s c)
unfolding print_at
print_at-IsConfig offset {s} {c} p v =
    of_image-IsConfig (length-blit (s ++ 0 ∷ []) (image c) offset ∙ length-image v.shape)
      (blit-AreBytes offset (image-AreBytes v)
        (append-AreBytes p (more_bytes (omega arith) no_bytes)))
      v

password-AreBytes : AreBytes (codes "password")
password-AreBytes = more_bytes (omega arith) (
    more_bytes (omega arith) (
      more_bytes (omega arith) (
        more_bytes (omega arith) (
          more_bytes (omega arith) (
            more_bytes (omega arith)
              (more_bytes (omega arith) (more_bytes (omega arith) no_bytes)))))))

name-AreBytes :
    (a b c d : ℕ) → a < 256 → b < 256 → c < 256 → d < 256 → AreBytes (a ∷ b ∷ c ∷ d ∷ [])
name-AreBytes a b c d p q r s = more_bytes p (more_bytes q (more_bytes r (more_bytes s no_bytes)))

pub config_load_default-IsConfig : (layout : Layout) → IsConfig (config_load_default layout)
unfolding config_load_default
config_load_default-IsConfig layout = record {
  shape = record { ssid = refl; password = refl; ap_ssid = refl; ap_password = refl };
  ssid =
      chars-AreBytes 32
        (name-AreBytes b's' b's' b'i' b'd' (omega arith) (omega arith) (omega arith) (omega arith));
  password = chars-AreBytes 64 password-AreBytes;
  auto_connect = omega arith;
  use_ap = omega arith;
  ap_ssid =
      chars-AreBytes 32
        (name-AreBytes b'M' b'y' b'A' b'P' (omega arith) (omega arith) (omega arith) (omega arith));
  ap_password = chars-AreBytes 64 password-AreBytes;
  ap_channel = omega arith;
  ap_open = omega arith;
  ap_on = omega arith;
  ssid_hidden = omega arith;
  max_clients = omega arith;
  ap_dns = omega arith;
  locked = omega arith;
  ip_addr = omega arith;
  ip_addr_peer = omega arith;
  clock_speed = omega arith;
  bit_rate = omega arith;
}
