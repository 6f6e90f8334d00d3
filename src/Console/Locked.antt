-- ===== src/Console/Locked.antt =====
-- The lock of the configuration in user/user_main.c.
use esp_slip_router.Prelude.{
  codes, ℕ, ◌≡◌, refl, sym, ap, Bool, false, not, ◌&&◌, List, [], ◌∷◌, length, on_if, on_test, ◌==◌,
  arith,
}
use esp_slip_router.Text.{str_eq}
use esp_slip_router.Config.{SysConfig}
use esp_slip_router.Console.Types.{Portmap, Console, Env, string_at, password_at}
use esp_slip_router.Console.Set.{Reply, say, invalid_locked}
use esp_slip_router.Console.Commands.{
  word, is_reset, save, scan, portmap, lock, unlock, invalid_command, set_command, show_command,
  reply, answer,
}

-- the configuration and the table of ports
abbrev pub settings_of : {S : Type 0} → Console S → SysConfig × List Portmap
settings_of c = (c.config, c.ip_portmap_table)

record Kept {S : Type 0} (a : Console S) (r : Reply S) : Type 0 where
  pub same : settings_of r.1 ≡ settings_of a

kept : {S : Type 0} {a : Console S} (r : Reply S) → settings_of r.1 ≡ settings_of a → Kept a r
kept r e = record { same = e }

-- `unlock` with the password, which is the string of the station's
unfoldable pub is_unlock : {S : Type 0} → List (List ℕ) → Console S → Bool
unfolding str_eq string_at
is_unlock tokens c =
    str_eq (word tokens 0) (codes "unlock")
    && (length tokens == 2)
    && str_eq (word tokens 1) (string_at password_at c.config)

module _ {S : Type 0} (env : Env S) (c : Console S) where
  invalid_command-Kept : Kept c (invalid_command c)
  unfolding invalid_command
  invalid_command-Kept = kept _ refl

  show_command-Kept : (tokens : List (List ℕ)) → Kept c (show_command env tokens c)
  unfolding show_command
  show_command-Kept tokens = on_if (Kept c) (length tokens == 1) (kept _ refl) (
      on_if (Kept c) (length tokens == 2 && str_eq (word tokens 1) (codes "stats")) (kept _ refl)
        invalid_command-Kept)

  unlock-Kept :
      (tokens : List (List ℕ))
      → ((length tokens == 2) && str_eq (word tokens 1) (string_at password_at c.config)) ≡ false
      → Kept c (unlock tokens c)
  unfolding unlock
  unlock-Kept tokens h =
      on_test (Kept c) (not (length tokens == 2)) (λ e. kept _ refl)
        (λ e.
          on_test (Kept c) (str_eq (word tokens 1) (string_at password_at c.config))
            (λ e'. absurd (ground arith)) (λ e'. kept _ refl))

  locked-set_command :
      (tokens : List (List ℕ))
      → c.config.locked ≡ 1
      → set_command env tokens c ≡ say invalid_locked c
  unfolding set_command
  locked-set_command tokens l = rw l

  locked-portmap :
      (tokens : List (List ℕ)) → c.config.locked ≡ 1 → portmap env tokens c ≡ say invalid_locked c
  unfolding portmap
  locked-portmap tokens l = rw l

  lock-Kept : c.config.locked ≡ 1 → Kept c (lock c)
  unfolding lock
  lock-Kept l = kept _ (ap (λ x. (record c.config { locked = x }, c.ip_portmap_table)) (sym l))

  reply-Kept :
      (conn : ℕ) (tokens : List (List ℕ))
      → c.config.locked ≡ 1
      → is_unlock tokens c ≡ false
      → is_reset tokens ≡ false
      → Kept c (reply env conn tokens c)
  unfolding reply save scan is_unlock
  reply-Kept conn tokens l u r =
      let name = word tokens 0 in
      on_if (Kept c) (str_eq name (codes "help")) (kept _ refl) (
        on_if (Kept c) (str_eq name (codes "show")) (show_command-Kept tokens) (
          on_if (Kept c) (str_eq name (codes "save")) (kept _ refl) (
            on_if (Kept c) (str_eq name (codes "scan")) (kept _ refl) (
              on_test (Kept c) (str_eq name (codes "reset")) (λ e. absurd (ground (arith)))
                (λ e. on_if (Kept c) (str_eq name (codes "quit")) (kept _ refl) (
                  on_if (Kept c) (str_eq name (codes "portmap"))
                    (rw (locked-portmap tokens l) (kept _ refl))
                    (on_if (Kept c) (str_eq name (codes "lock")) (lock-Kept l) (
                      on_test (Kept c) (str_eq name (codes "unlock"))
                        (λ e'. unlock-Kept tokens (ground arith))
                        (λ e'.
                          on_if (Kept c) (str_eq name (codes "set"))
                            (rw (locked-set_command tokens l) (kept _ refl))
                            invalid_command-Kept)))))))))

  pub answer-locked :
      (conn : ℕ) (tokens : List (List ℕ))
      → c.config.locked ≡ 1
      → is_unlock tokens c ≡ false
      → is_reset tokens ≡ false
      → settings_of (answer env conn tokens c).1 ≡ settings_of c
  unfolding answer
  answer-locked conn [] l u r = refl
  answer-locked conn (t ∷ tokens) l u r = (reply-Kept conn (t ∷ tokens) l u r).same
