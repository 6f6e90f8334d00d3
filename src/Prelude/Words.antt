-- ===== src/Prelude/Words.antt =====
-- Unsigned machine words: a w-bit value is a natural number below 2 ^ w, and each operation of the
-- source that can leave the range writes its wrap-around out. Also the characters of a string.
use Prim.Native.Nat.{ℕ, ◌+◌, ◌-◌, ◌%◌}
use Prim.Native.String.{String}
use Prim.Native.Char.{code}
use mathlib.Core.List.{List, [], ◌∷◌}

abbrev pub u8 : ℕ → ℕ
u8 n = n % 256

abbrev pub u16 : ℕ → ℕ
u16 n = n % 65536

-- `size_t` and `unsigned` of the ESP8266 have 32 bits.
abbrev pub u32 : ℕ → ℕ
u32 n = n % 4294967296

-- a - b of two 32-bit values
abbrev pub sub32 : ℕ → ℕ → ℕ
sub32 a b = (a + 4294967296 - b) % 4294967296

-- the characters of a string literal
abbrev pub codes : String → List ℕ
codes String.[] = []
codes (String.◌∷◌ c s) = code c ∷ codes s
