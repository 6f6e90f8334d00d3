-- ===== src/Console/RoundTrip.antt =====
-- A command line whose characters are quoted, through user/user_main.c and back to its words.
use esp_slip_router.Prelude.{
  ℕ, zero, suc, ◌+◌, ◌≡◌, ◌≢◌, refl, ◌∙◌, ap, true, false, List, [], ◌∷◌, ◌++◌, append-nil,
  reverse_reverse, take, arith, ◌==◌, if◌then◌else◌,
}
use mathlib.Core.List.{reverse, reverse_aux}
use esp_slip_router.Text.{c_str}
use esp_slip_router.Console.Strings.{IsString, none_left, one_more, c_str_of_string}
use esp_slip_router.Console.Tokens.{
  unquoted, unquote, cut, parse_str_into_tokens, command_tokens, rub_out, cmd_line,
}

-- a word of characters that a line can hold: neither the terminator nor a backspace
pub data IsWord : List ℕ → Type 0 where
  one : {c : ℕ} → c ≢ 0 → c ≢ 8 → IsWord (c ∷ [])
  longer : {c : ℕ} {w : List ℕ} → c ≢ 0 → c ≢ 8 → IsWord w → IsWord (c ∷ w)

pub data AreWords : List (List ℕ) → Type 0 where
  no_words : AreWords []
  more_words : {w : List ℕ} {ws : List (List ℕ)} → IsWord w → AreWords ws → AreWords (w ∷ ws)

-- the word with a backslash before each character
unfoldable pub quote : List ℕ → List ℕ → List ℕ
quote [] rest = rest
quote (c ∷ w) rest = b'\\' ∷ c ∷ quote w rest

-- the words quoted, each followed by a space
unfoldable pub line : List (List ℕ) → List ℕ
unfolding quote
line [] = []
line (w ∷ ws) = quote w (32 ∷ line ws)

-- what is cut into words
flat : List (List ℕ) → List ℕ
flat [] = []
flat (w ∷ ws) = w ++ 0 ∷ flat ws

unquote-backslash :
    (d : ℕ) (rest out : List ℕ) → unquote out (b'\\' ∷ d ∷ rest) ≡ unquote (d ∷ out) rest
unfolding unquote
unquote-backslash d [] out = refl
unquote-backslash d (e ∷ rest) out = refl

unquote-space : (rest out : List ℕ) → unquote out (32 ∷ rest) ≡ unquote (0 ∷ out) rest
unfolding unquote unquoted
unquote-space [] out = refl
unquote-space (d ∷ []) out = refl
unquote-space (d ∷ e ∷ rest) out = refl

unquote-quote :
    (w rest out : List ℕ) → unquote out (quote w rest) ≡ unquote (reverse_aux w out) rest
unfolding quote
unquote-quote [] rest out = refl
unquote-quote (c ∷ w) rest out =
    unquote-backslash c (quote w rest) out ∙ unquote-quote w rest (c ∷ out)

unquote-line :
    (ws : List (List ℕ)) (out : List ℕ)
    → reverse_aux (unquote out (line ws)) [] ≡ reverse_aux out (flat ws)
unfolding line flat unquote
unquote-line [] out = refl
unquote-line (w ∷ ws) out =
    ap (λ l. reverse_aux l [])
      (unquote-quote w (32 ∷ line ws) out ∙ unquote-space (line ws) (reverse_aux w out))
    ∙ unquote-line ws (0 ∷ reverse_aux w out)
    ∙ reverse_reverse w out (0 ∷ flat ws)

cut-inside :
    (m k : ℕ) {w : List ℕ} (rest : List ℕ)
    → IsString w
    → cut m k true (w ++ 0 ∷ rest) ≡ cut m k false rest
unfolding cut
cut-inside m k rest none_left = refl
cut-inside m k rest (one_more {c = c} {s = s} n t) =
    let e : (c == 0) ≡ false = ground arith in rw e (cut-inside m k rest t)

word-IsString : {w : List ℕ} → IsWord w → IsString w
word-IsString (one n b) = one_more n none_left
word-IsString (longer n b t) = one_more n (word-IsString t)

-- one word of many
cut-word :
    (m k : ℕ) {w : List ℕ} (rest : List ℕ)
    → IsWord w
    → cut m k false (w ++ 0 ∷ rest) ≡ w ∷ (if k + 1 == m then [] else cut m (k + 1) false rest)
unfolding cut
cut-word m k rest (one {c = c} n b) = let e : (c == 0) ≡ false = ground arith in rw e refl
cut-word m k rest (longer {c = c} {w = w} n b t) =
    let e : (c == 0) ≡ false = ground arith in
    let i = cut-inside m (k + 1) rest (word-IsString t) in
    rw e (rw i (rw (c_str_of_string rest (word-IsString t)) refl))

cut-flat :
    (m k n : ℕ) {ws : List (List ℕ)}
    → AreWords ws
    → k + suc n ≡ m
    → cut m k false (flat ws) ≡ take (suc n) ws
unfolding flat cut
cut-flat m k n no_words h = refl
cut-flat m k zero (more_words {w = w} {ws = ws} t ts) h =
    let e : (k + 1 == m) ≡ true = ground arith in
    cut-word m k (flat ws) t ∙ ap (λ b. w ∷ (if b then [] else cut m (k + 1) false (flat ws))) e
cut-flat m k (suc n) (more_words {w = w} {ws = ws} t ts) h =
    let e : (k + 1 == m) ≡ false = ground arith in
    cut-word m k (flat ws) t
    ∙ ap (λ b. w ∷ (if b then [] else cut m (k + 1) false (flat ws))) e
    ∙ ap (λ l. w ∷ l) (cut-flat m (k + 1) n ts (omega arith))

-- nothing in the line ends it or takes a character back
data IsPlain : List ℕ → Type 0 where
  plain_end : IsPlain []
  plain_char : {c : ℕ} {s : List ℕ} → c ≢ 0 → c ≢ 8 → IsPlain s → IsPlain (c ∷ s)

quote-IsPlain : {w rest : List ℕ} → IsWord w → IsPlain rest → IsPlain (quote w rest)
unfolding quote
quote-IsPlain (one n b) p = plain_char (omega arith) (omega arith) (plain_char n b p)
quote-IsPlain (longer n b t) p =
    plain_char (omega arith) (omega arith) (plain_char n b (quote-IsPlain t p))

line-IsPlain : {ws : List (List ℕ)} → AreWords ws → IsPlain (line ws)
unfolding line
line-IsPlain no_words = plain_end
line-IsPlain (more_words t ts) =
    quote-IsPlain t (plain_char (omega arith) (omega arith) (line-IsPlain ts))

rub_out-plain : {s : List ℕ} (out : List ℕ) → IsPlain s → rub_out out s ≡ reverse_aux s out
unfolding rub_out
rub_out-plain out plain_end = refl
rub_out-plain out (plain_char {c = c} {s = s} n b p) =
    let e : (c == 8) ≡ false = ground arith in rw e (rub_out-plain (c ∷ out) p)

c_str-plain : {s : List ℕ} → IsPlain s → c_str s ≡ s
c_str-plain plain_end = refl
c_str-plain (plain_char {c = c} {s = s} n b p) =
    let e : (c == 0) ≡ false = ground arith in rw e (ap (λ l. c ∷ l) (c_str-plain p))

cmd_line-plain : {s : List ℕ} → IsPlain s → cmd_line s ≡ s
unfolding cmd_line
cmd_line-plain {s} p =
    ap (λ l. c_str (reverse l)) (rub_out-plain [] p)
    ∙ ap c_str (reverse_reverse s [] [] ∙ append-nil s)
    ∙ c_str-plain p

-- Words of any characters but the terminator and the backspace come back from a line in which each of
-- their characters follows a backslash and a space follows each word: all of them, or the first six.
pub command_tokens-line : (ws : List (List ℕ)) → AreWords ws → command_tokens (line ws) ≡ take 6 ws
unfolding command_tokens parse_str_into_tokens
command_tokens-line ws t =
    ap (λ l. parse_str_into_tokens l 6) (cmd_line-plain (line-IsPlain t))
    ∙ ap (cut 6 0 false) (unquote-line ws [])
    ∙ cut-flat 6 0 5 t refl
