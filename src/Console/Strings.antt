-- ===== src/Console/Strings.antt =====
-- The strings of the configuration in user/user_main.c: what os_sprintf writes and %s reads.
use esp_slip_router.Prelude.{
  ℕ, zero, suc, ◌+◌, ◌≤◌, ◌<◌, ◌≡◌, ◌≢◌, refl, sym, ◌∙◌, ap, false, List, [], ◌∷◌, ◌++◌,
  append_assoc, length, length-append, length-blit, take, drop, get_or, blit, take-append-drop,
  drop-eq-cons, drop-drop, drop-length, drop-blit, drop-blit_after, append-drop, arith, ◌==◌,
}
use esp_slip_router.Text.{c_str}
use esp_slip_router.Config.{SysConfig}
use esp_slip_router.Console.Types.{image, of_image, string_at, print_at}

-- The arrays have the sizes that `sysconfig_t` gives them.
pub record IsShaped (c : SysConfig) : Type 0 where
  pub ssid : length c.ssid ≡ 32
  pub password : length c.password ≡ 64
  pub ap_ssid : length c.ap_ssid ≡ 32
  pub ap_password : length c.ap_password ≡ 64

-- no character is the terminator
pub data IsString : List ℕ → Type 0 where
  none_left : IsString []
  one_more : {c : ℕ} {s : List ℕ} → c ≢ 0 → IsString s → IsString (c ∷ s)

pub c_str_of_string : {s : List ℕ} (rest : List ℕ) → IsString s → c_str (s ++ 0 ∷ rest) ≡ s
c_str_of_string rest none_left = refl
c_str_of_string rest (one_more {c = c} n t) =
    let e : (c == 0) ≡ false = ground arith in rw e (ap (λ l. c ∷ l) (c_str_of_string rest t))

drop-IsString : (k : ℕ) {s : List ℕ} → IsString s → IsString (drop k s)
drop-IsString zero t = t
drop-IsString (suc k) none_left = none_left
drop-IsString (suc k) (one_more n t) = drop-IsString k t

length-parts :
    (a b d e f : List ℕ)
    → length (a ++ (b ++ (d ++ (e ++ f))))
      ≡ length a + (length b + (length d + (length e + length f)))
length-parts a b d e f = omega (
  arith,
  length-append a (b ++ (d ++ (e ++ f))),
  length-append b (d ++ (e ++ f)),
  length-append d (e ++ f),
  length-append e f,
)

pub length-image : {c : SysConfig} → IsShaped c → length (image c) ≡ 199
unfolding image
length-image {c} v =
    length-parts c.ssid c.password (c.auto_connect ∷ c.use_ap ∷ c.ap_ssid) c.ap_password
      (c.ap_channel ∷ c.ap_open ∷ c.ap_on ∷ c.ssid_hidden ∷ c.max_clients ∷ [])
    ∙ omega (arith, v.ssid, v.password, v.ap_ssid, v.ap_password)

split_off : (k n : ℕ) (b : List ℕ) → drop k b ≡ take n (drop k b) ++ drop (k + n) b
split_off k n b =
    sym (take-append-drop n (drop k b)) ∙ ap (λ l. take n (drop k b) ++ l) (drop-drop n k b)

pub image-of_image : (b : List ℕ) (c : SysConfig) → length b ≡ 199 → image (of_image b c) ≡ b
unfolding image of_image
image-of_image b c l = sym (
    sym (take-append-drop 32 b)
    ∙ ap (λ t. take 32 b ++ t)
        (split_off 32 64 b
          ∙ ap (λ t. take 64 (drop 32 b) ++ t)
              (drop-eq-cons 96 b 0 (omega arith)
                ∙ ap (λ t. get_or b 96 0 ∷ t)
                    (drop-eq-cons 97 b 0 (omega arith)
                      ∙ ap (λ t. get_or b 97 0 ∷ t)
                          (split_off 98 32 b
                            ∙ ap (λ t. take 32 (drop 98 b) ++ t)
                                (split_off 130 64 b ∙ ap (λ t. take 64 (drop 130 b) ++ t) last))))))
  where
    last :
        drop 194 b
        ≡ get_or b 194 0 ∷ get_or b 195 0 ∷ get_or b 196 0 ∷ get_or b 197 0 ∷ get_or b 198 0 ∷ []
    last =
        drop-eq-cons 194 b 0 (omega arith)
        ∙ ap (λ t. get_or b 194 0 ∷ t)
            (drop-eq-cons 195 b 0 (omega arith)
              ∙ ap (λ t. get_or b 195 0 ∷ t)
                  (drop-eq-cons 196 b 0 (omega arith)
                    ∙ ap (λ t. get_or b 196 0 ∷ t)
                        (drop-eq-cons 197 b 0 (omega arith)
                          ∙ ap (λ t. get_or b 197 0 ∷ t)
                              (drop-eq-cons 198 b 0 (omega arith)
                                ∙ ap (λ t. get_or b 198 0 ∷ t) (drop-length 199 b (omega arith))))))

module _ {c : SysConfig} (v : IsShaped c) {s : List ℕ} (t : IsString s) (at : ℕ)
    (room : at + length s < 199) where
  fits : at + length (s ++ 0 ∷ []) ≤ length (image c)
  fits = omega (arith, length-image v, length-append s (0 ∷ []))

  printed : image (print_at at s c) ≡ blit (image c) at (s ++ 0 ∷ [])
  unfolding print_at
  printed =
      image-of_image (blit (image c) at (s ++ 0 ∷ [])) c
        (length-blit (s ++ 0 ∷ []) (image c) at ∙ length-image v)

  -- What os_sprintf wrote is read back, from any place in it on, past the end of the field too.
  pub string_at-print_at : (k : ℕ) → k ≤ length s → string_at (at + k) (print_at at s c) ≡ drop k s
  unfolding string_at
  string_at-print_at k h =
      ap (λ b. c_str (drop (at + k) b)) printed
      ∙ ap c_str (
          drop-blit at k (image c) (s ++ 0 ∷ []) fits (omega (arith, length-append s (0 ∷ [])))
          ∙ ap (λ l. l ++ rest) (append-drop k s (0 ∷ []) h)
          ∙ append_assoc (drop k s) (0 ∷ []) rest)
      ∙ c_str_of_string rest (drop-IsString k t)
    where
      rest : List ℕ
      rest = drop (at + length (s ++ 0 ∷ [])) (image c)

  -- what stands after the terminator is left
  pub string_at-print_at_after :
      (n : ℕ) → at + length s < n → string_at n (print_at at s c) ≡ string_at n c
  unfolding string_at
  string_at-print_at_after n h =
      ap (λ b. c_str (drop n b)) printed
      ∙ ap c_str (
          drop-blit_after at n (image c) (s ++ 0 ∷ []) fits
            (omega (arith, length-append s (0 ∷ []))))
