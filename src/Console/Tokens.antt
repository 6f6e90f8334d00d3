-- ===== src/Console/Tokens.antt =====
-- How user/user_main.c cuts a command line into tokens. The text is unquoted in place; since the
-- writing position never passes the reading position, it is here one list that becomes another.
use esp_slip_router.Prelude.{
  ℕ, ◌+◌, ◌-◌, ◌*◌, Bool, true, false, List, [], ◌∷◌, leb, ◌==◌, if◌then◌else◌, u8,
}
use mathlib.Core.List.{reverse}
use esp_slip_router.Text.{c_str, toupper}

-- a hexadecimal digit, as an unsigned byte whatever the character is
unfoldable pub hex_digit : ℕ → ℕ
unfolding toupper
hex_digit c = if leb c b'9' then u8 (c + 256 - 48) else u8 (toupper c + 256 - 65 + 10)

-- %hl
unfoldable pub hex_byte : ℕ → ℕ → ℕ
unfolding hex_digit
hex_byte h l = u8 (u8 (hex_digit h * 16) + hex_digit l)

-- the character written last is taken back, if there is one
abbrev pub back : List ℕ → List ℕ
back [] = []
back (c ∷ out) = out

-- A character that quotes nothing; `out` is what was written, the last character first.
unfoldable pub unquoted : ℕ → List ℕ → List ℕ
unquoted c out = if c == 8 then back out else if leb c 32 then 0 ∷ out else c ∷ out

-- The first loop of `parse_str_into_tokens` on the text up to its terminator.
unfoldable pub unquote : List ℕ → List ℕ → List ℕ
unfolding unquoted hex_byte
unquote out [] = out
unquote out (c ∷ []) = unquoted c out
unquote out (c ∷ d ∷ []) =
    let plain = unquote (unquoted c out) (d ∷ []) in if c == b'\\' then d ∷ out else plain
unquote out (c ∷ d ∷ e ∷ str) =
    let hex = unquote (hex_byte d e ∷ out) str in
    let next = unquote (d ∷ out) (e ∷ str) in
    let plain = unquote (unquoted c out) (d ∷ e ∷ str) in
    if c == b'%' then hex else if c == b'\\' then next else plain

-- The second loop, which cuts at the zeros; a token is the C string at its pointer.
unfoldable pub cut : ℕ → ℕ → Bool → List ℕ → List (List ℕ)
cut max_tokens token_count in_token [] = []
cut max_tokens token_count in_token (c ∷ str) =
    let between = cut max_tokens token_count false str in
    let inside = cut max_tokens token_count true str in
    let more = cut max_tokens (token_count + 1) true str in
    if c == 0
    then between
    else if in_token
    then inside
    else (c_str (c ∷ str) ∷ (if token_count + 1 == max_tokens then [] else more))

-- The tokens; their number is what the C function returns.
unfoldable pub parse_str_into_tokens : List ℕ → ℕ → List (List ℕ)
unfolding unquote cut
parse_str_into_tokens str max_tokens = cut max_tokens 0 false (reverse (unquote [] str))

-- The loop at the start of `console_handle_command`, which takes backspaces out of the line.
unfoldable pub rub_out : List ℕ → List ℕ → List ℕ
rub_out out [] = out
rub_out out (c ∷ line) = rub_out (if c == 8 then back out else c ∷ out) line

-- the command line as the C string that is left of the bytes received
unfoldable pub cmd_line : List ℕ → List ℕ
unfolding rub_out
cmd_line bytes = c_str (reverse (rub_out [] bytes))

-- the words of a command
unfoldable pub command_tokens : List ℕ → List (List ℕ)
unfolding cmd_line parse_str_into_tokens
command_tokens bytes = parse_str_into_tokens (cmd_line bytes) 6
