-- ===== src/Console/Quote.antt =====
-- Tokens in user/user_main.c: what may be a token, and that quoted words come back.
use esp_slip_router.Prelude.{
  ℕ, ◌+◌, ◌≤◌, ◌<◌, ◌≡◌, ◌≢◌, Bool, true, false, List, [], ◌∷◌, length, arith, ◌==◌, on_test,
}
use mathlib.Core.List.{reverse}
use esp_slip_router.Text.{c_str}
use esp_slip_router.Console.Strings.{IsString, none_left, one_more}
use esp_slip_router.Console.Tokens.{unquote, cut, parse_str_into_tokens}

-- a string with a first character
pub data IsToken : List ℕ → Type 0 where
  token : {c : ℕ} {s : List ℕ} → c ≢ 0 → IsString s → IsToken (c ∷ s)

pub data AreTokens : List (List ℕ) → Type 0 where
  no_tokens : AreTokens []
  some_tokens :
      {t : List ℕ} {tokens : List (List ℕ)} → IsToken t → AreTokens tokens → AreTokens (t ∷ tokens)

pub c_str-IsString : (s : List ℕ) → IsString (c_str s)
c_str-IsString [] = none_left
c_str-IsString (c ∷ s) =
    on_test IsString (c == 0) (λ e. none_left) (λ e. one_more (ground arith) (c_str-IsString s))

record Cut (max_tokens token_count : ℕ) (tokens : List (List ℕ)) : Type 0 where
  pub are : AreTokens tokens
  pub few : token_count + length tokens ≤ max_tokens

c_str-IsToken : (c : ℕ) (s : List ℕ) → (c == 0) ≡ false → IsToken (c_str (c ∷ s))
c_str-IsToken c s e = rw e (token (ground arith) (c_str-IsString s))

more-Cut :
    {m k : ℕ} {t : List ℕ} {tokens : List (List ℕ)}
    → IsToken t
    → Cut m (k + 1) tokens
    → Cut m k (t ∷ tokens)
more-Cut t r = record { are = some_tokens t r.are; few = omega (arith, r.few) }

cut-Cut : (m k : ℕ) (b : Bool) (str : List ℕ) → k < m → Cut m k (cut m k b str)
unfolding cut
cut-Cut m k b [] h = record { are = no_tokens; few = omega arith }
cut-Cut m k b (c ∷ str) h =
    on_test (Cut m k) (c == 0) (λ e. cut-Cut m k false str h)
      (λ e.
        on_test (Cut m k) b (λ e'. cut-Cut m k true str h)
          (λ e'. more-Cut (c_str-IsToken c str e) (
            on_test (Cut m (k + 1)) (k + 1 == m)
              (λ e''. record { are = no_tokens; few = omega arith })
              (λ e''. cut-Cut m (k + 1) true str (ground arith)))))

-- parse_str_into_tokens gives at most `max_tokens` tokens, if some are allowed, and each is a string with one
-- character at least.
pub parse_str_into_tokens-AreTokens :
    (str : List ℕ) (max_tokens : ℕ)
    → 0 < max_tokens
    → AreTokens (parse_str_into_tokens str max_tokens)
      × (length (parse_str_into_tokens str max_tokens) ≤ max_tokens)
unfolding parse_str_into_tokens
parse_str_into_tokens-AreTokens str m h =
    let r = cut-Cut m 0 false (reverse (unquote [] str)) h in (r.are, omega (arith, r.few))
