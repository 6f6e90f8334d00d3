-- ===== src/Text.antt =====
-- C strings as lists of characters, and what the source uses of the C library and os_sprintf on them.
-- `char` is unsigned on the ESP8266, so a character is a number below 256.
pub mod Laws
use esp_slip_router.Prelude.{
  codes, ℕ, zero, suc, ◌+◌, ◌-◌, ◌*◌, ◌/◌, ◌%◌, Bool, true, false, ◌&&◌, ◌||◌, List, [], ◌∷◌, ◌++◌,
  ltb, leb, ◌==◌, if◌then◌else◌, u32,
}

-- what a C string holds, up to its terminator
abbrev pub c_str : List ℕ → List ℕ
c_str [] = []
c_str (c ∷ s) = if c == 0 then [] else c ∷ c_str s

-- %u: the decimal digits of `n`, of which a 32-bit number has ten at most
abbrev digits : ℕ → ℕ → List ℕ → List ℕ
digits zero n acc = acc
digits (suc f) n acc =
    let acc' = ((48 + n % 10) ∷ acc) in
    let rest = digits f (n / 10) acc' in if ltb n 10 then acc' else rest

unfoldable pub decimal : ℕ → List ℕ
decimal n = digits 10 n []

-- %d of the 32-bit pattern `n`
unfoldable pub signed : ℕ → List ℕ
unfolding decimal
signed n = if ltb n 2147483648 then decimal n else codes "-" ++ decimal (4294967296 - n)

-- strcmp(s, t) == 0
unfoldable pub str_eq : List ℕ → List ℕ → Bool
str_eq [] [] = true
str_eq [] (d ∷ t) = false
str_eq (c ∷ s) [] = false
str_eq (c ∷ s) (d ∷ t) = c == d && str_eq s t

unfoldable pub is_digit : ℕ → Bool
is_digit c = leb b'0' c && leb c b'9'

unfoldable pub atoi_digits : ℕ → List ℕ → ℕ
unfolding is_digit
atoi_digits acc [] = acc
atoi_digits acc (c ∷ s) =
    let rest = atoi_digits (u32 (acc * 10 + (c - 48))) s in if is_digit c then rest else acc

-- The 32-bit pattern that atoi returns, with wrap-around where C leaves an overflow open.
unfoldable pub atoi : List ℕ → ℕ
unfolding atoi_digits
atoi [] = 0
atoi (c ∷ s) =
    let rest = atoi s in
    if c == 32 || (leb 9 c && leb c 13)
    then rest
    else if c == b'-'
    then u32 (4294967296 - atoi_digits 0 s)
    else if c == b'+'
    then atoi_digits 0 s
    else atoi_digits 0 (c ∷ s)

unfoldable pub toupper : ℕ → ℕ
toupper c = if leb b'a' c && leb c b'z' then c - 32 else c
