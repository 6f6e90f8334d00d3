-- ===== src/Console/Passwords.antt =====
-- What the commands of user/user_main.c on names and passwords set, and what `show` tells of them.
use esp_slip_router.Prelude.{
  codes, ℕ, ◌<◌, ◌≡◌, refl, sym, ◌∙◌, ap, not, List, [], ◌∷◌, ◌++◌, length, drop-append, ltb,
  ltb→lt, drop, arith, Bool-cases, inl, inr, ◌==◌, if◌then◌else◌,
}
use esp_slip_router.Text.{str_eq, c_str}
use esp_slip_router.Console.Types.{
  image, ap_ssid_at, Console, Env, flag, string_at, ssid_at, password_at,
}
use esp_slip_router.Console.Set.{set_parameter, set_ssid, set_password}
use esp_slip_router.Console.Show.{show, show_sta, show_ap, shown_password}
use esp_slip_router.Console.Commands.{reply, set_command, lock, unlock}
use esp_slip_router.Console.Strings.{
  IsShaped, IsString, string_at-print_at, string_at-print_at_after,
}

module _ {S : Type 0} (env : Env S) (conn : ℕ) (c : Console S) where
  reply-set_ssid :
      (value : List ℕ)
      → c.config.locked ≡ 0
      → reply env conn (codes "set" ∷ codes "ssid" ∷ value ∷ []) c ≡ set_ssid value c
  unfolding reply set_command set_parameter
  reply-set_ssid value u = rw u refl

  reply-set_password :
      (value : List ℕ)
      → c.config.locked ≡ 0
      → reply env conn (codes "set" ∷ codes "password" ∷ value ∷ []) c ≡ set_password value c
  unfolding reply set_command set_parameter
  reply-set_password value u = rw u refl

  -- `set ssid` of an unlocked configuration sets the name, of any length. A name of 32 characters or more
  -- also overwrites the password, which is then the rest of the name; a shorter one leaves it.
  pub set_ssid_lem :
      (value : List ℕ)
      → IsShaped c.config
      → IsString value
      → length value < 199
      → c.config.locked ≡ 0
      → (string_at ssid_at (reply env conn (codes "set" ∷ codes "ssid" ∷ value ∷ []) c).1.config
          ≡ value)
        × (string_at password_at
              (reply env conn (codes "set" ∷ codes "ssid" ∷ value ∷ []) c).1.config
            ≡ (if ltb (length value) 32 then string_at password_at c.config else drop 32 value))
  unfolding set_ssid
  set_ssid_lem value v t h u = rw (reply-set_ssid value u) (
    string_at-print_at v t 0 (omega arith) 0 (omega arith),
    elim (Bool-cases (ltb (length value) 32)) [
      | inl e ↦ rw e (
          string_at-print_at_after v t 0 (omega arith) 32
            (omega (arith, ltb→lt (length value) 32 e)))
      | inr e ↦ rw e (string_at-print_at v t 0 (omega arith) 32 (ground arith))
    ],
  )

  -- `set password`, then `lock`, then `unlock` with a word: the configuration is unlocked exactly if the word
  -- is the password set.
  pub unlock-lock :
      (value attempt : List ℕ)
      → IsShaped c.config
      → IsString value
      → length value < 167
      → c.config.locked ≡ 0
      → flag
          (reply env conn
            (codes "unlock" ∷ attempt ∷ [])
            (reply env conn
              (codes "lock" ∷ [])
              (reply env conn (codes "set" ∷ codes "password" ∷ value ∷ []) c).1).1).1.config.locked
        ≡ not (str_eq attempt value)
  unfolding set_password reply unlock lock
  unlock-lock value attempt v t h u = rw (reply-set_password value u) (
      rw (string_at-print_at v t 32 (omega arith) 0 (omega arith))
        (elim (Bool-cases (str_eq attempt value)) [ inl e ↦ rw e refl | inr e ↦ rw e refl ]))

-- an array that holds a terminator
pub data IsTerminated : List ℕ → Type 0 where
  here : {s : List ℕ} → IsTerminated (0 ∷ s)
  there : {c : ℕ} {s : List ℕ} → IsTerminated s → IsTerminated (c ∷ s)

c_str-append : {s : List ℕ} → IsTerminated s → (rest : List ℕ) → c_str (s ++ rest) ≡ c_str s
c_str-append here rest = refl
c_str-append (there {c = c} t) rest = ap (λ l. if c == 0 then [] else c ∷ l) (c_str-append t rest)

-- the offset of the access point's name
to_ap_ssid :
    (a b : List ℕ)
    → length a ≡ 32
    → length b ≡ 64
    → (x y : ℕ) (rest : List ℕ) → drop 98 (a ++ (b ++ (x ∷ y ∷ rest))) ≡ rest
to_ap_ssid a b p q x y rest =
    drop-append a (b ++ (x ∷ y ∷ rest)) 32 66 p ∙ drop-append b (x ∷ y ∷ rest) 64 2 q

-- other passwords
abbrev pub with_passwords : {S : Type 0} → List ℕ → List ℕ → Console S → Console S
with_passwords password ap_password c = record c {
  config = record c.config { password = password; ap_password = ap_password };
}

module _ {S : Type 0} (c : Console S) (password ap_password : List ℕ)
    (l : c.config.locked ≡ 1) where
  -- the name of the station's network
  same_ssid :
      IsTerminated c.config.ssid
      → string_at ssid_at (with_passwords password ap_password c).config
        ≡ string_at ssid_at c.config
  unfolding string_at image
  same_ssid t = c_str-append t _ ∙ sym (c_str-append t _)

  same_ap_ssid :
      IsShaped c.config
      → length password ≡ 64
      → IsTerminated c.config.ap_ssid
      → string_at ap_ssid_at (with_passwords password ap_password c).config
        ≡ string_at ap_ssid_at c.config
  unfolding string_at image
  same_ap_ssid v p t =
      ap c_str (to_ap_ssid _ _ v.ssid p _ _ _)
      ∙ c_str-append t _
      ∙ sym (c_str-append t _)
      ∙ ap c_str (sym (to_ap_ssid _ _ v.ssid v.password _ _ _))

  same_sta :
      IsTerminated c.config.ssid → show_sta (with_passwords password ap_password c) ≡ show_sta c
  unfolding show_sta shown_password
  same_sta t = rw l (rw (same_ssid t) refl)

  same_ap :
      IsShaped c.config
      → length password ≡ 64
      → IsTerminated c.config.ap_ssid
      → show_ap (with_passwords password ap_password c) ≡ show_ap c
  unfolding show_ap shown_password
  same_ap v p t = rw l (rw (same_ap_ssid v p t) refl)

  -- While the configuration is locked, what `show` prints does not depend on the two passwords, if the
  -- arrays of the two names hold a terminator.
  pub show-locked :
      (env : Env S)
      → IsShaped c.config
      → length password ≡ 64
      → IsTerminated c.config.ssid
      → IsTerminated c.config.ap_ssid
      → show env (with_passwords password ap_password c) ≡ show env c
  unfolding show
  show-locked env v p t t' = rw (same_sta t) (rw (same_ap v p t') refl)
