-- ===== src/Console/Invalid.antt =====
-- The commands that the console of user/user_main.c refuses.
use esp_slip_router.Prelude.{
  codes, ℕ, ◌≡◌, refl, sym, subst, on_if, on_test, Bool, true, false, not, ◌&&◌, ◌||◌, List, [],
  ◌∷◌, length, ltb, leb, ◌==◌, if◌then◌else◌, arith,
}
use esp_slip_router.Text.{str_eq}
use esp_slip_router.Console.Types.{Console, Env, flag}
use esp_slip_router.Console.Set.{
  Reply, say, invalid_locked, invalid_numargs, invalid_arg, set_parameter,
}
use esp_slip_router.Console.Commands.{
  word, portmap, unlock, invalid_command, set_command, show_command, reply,
}

unfoldable pub one_of : List (List ℕ) → List ℕ → Bool
unfolding str_eq
one_of [] name = false
one_of (n ∷ names) name = str_eq name n || one_of names name

abbrev pub parameters : List (List ℕ)
parameters =
    codes "ssid"
    ∷ codes "password"
    ∷ codes "auto_connect"
    ∷ codes "ap_ssid"
    ∷ codes "ap_password"
    ∷ codes "ap_open"
    ∷ codes "use_ap"
    ∷ codes "ap_channel"
    ∷ codes "ssid_hidden"
    ∷ codes "max_clients"
    ∷ codes "dns"
    ∷ codes "speed"
    ∷ codes "addr"
    ∷ codes "addr_peer"
    ∷ codes "bitrate"
    ∷ []

-- The commands that are carried out while the configuration is not locked, by their words.
unfoldable pub well_formed : List (List ℕ) → Bool
unfolding one_of str_eq
well_formed tokens =
    let name = word tokens 0 in
    let n = length tokens in
    if str_eq name (codes "help")
    then true
    else if str_eq name (codes "show")
    then n == 1 || (n == 2 && str_eq (word tokens 1) (codes "stats"))
    else if str_eq name (codes "save")
    then true
    else if str_eq name (codes "scan")
    then true
    else if str_eq name (codes "reset")
    then true
    else if str_eq name (codes "quit")
    then true
    else if str_eq name (codes "portmap")
    then (str_eq (word tokens 2) (codes "TCP") || str_eq (word tokens 2) (codes "UDP"))
      && ((n == 6 && str_eq (word tokens 1) (codes "add"))
          || (leb 4 n && str_eq (word tokens 1) (codes "remove")))
    else if str_eq name (codes "lock")
    then true
    else if str_eq name (codes "unlock")
    then n == 2
    else if str_eq name (codes "set")
    then leb 3 n && one_of parameters (word tokens 1)
    else false

-- the answer is one of the four refusals, and nothing changes
pub data Refused {S : Type 0} (c : Console S) : Reply S → Type 0 where
  is_locked : Refused c (say invalid_locked c)
  wrong_number : Refused c (say invalid_numargs c)
  wrong_argument : Refused c (say invalid_arg c)
  no_command : Refused c (invalid_command c)

module _ {S : Type 0} (env : Env S) (c : Console S) where
  skip :
      {A : Type 0} (a : Bool) {b : Bool} (x : A) {y z : A}
      → (a || b) ≡ false
      → (b ≡ false → y ≡ z)
      → (if a then x else y) ≡ z
  skip true x h k = cc
  skip false x h k = k h

  set_parameter-unknown :
      (o : Reply S) (name value : List ℕ)
      → one_of parameters name ≡ false
      → set_parameter env o name value c ≡ o
  unfolding set_parameter one_of
  set_parameter-unknown o name value h = skip (str_eq name (codes "ssid")) _ h (λ h.
      skip (str_eq name (codes "password")) _ h (λ h.
        skip (str_eq name (codes "auto_connect")) _ h (λ h.
          skip (str_eq name (codes "ap_ssid")) _ h (λ h.
            skip (str_eq name (codes "ap_password")) _ h (λ h.
              skip (str_eq name (codes "ap_open")) _ h (λ h.
                skip (str_eq name (codes "use_ap")) _ h (λ h.
                  skip (str_eq name (codes "ap_channel")) _ h (λ h.
                    skip (str_eq name (codes "ssid_hidden")) _ h (λ h.
                      skip (str_eq name (codes "max_clients")) _ h (λ h.
                        skip (str_eq name (codes "dns")) _ h (λ h.
                          skip (str_eq name (codes "speed")) _ h (λ h.
                            skip (str_eq name (codes "addr")) _ h (λ h.
                              skip (str_eq name (codes "addr_peer")) _ h (λ h.
                                skip (str_eq name (codes "bitrate")) _ h (λ h. refl)))))))))))))))

  -- two chains of tests side by side
  both :
      (a : Bool) {p q : Bool} {x y : Reply S}
      → (p ≡ false → Refused c x)
      → (q ≡ false → Refused c y)
      → (if a then p else q) ≡ false
      → Refused c (if a then x else y)
  both true f g h = f h
  both false f g h = g h

  accepted :
      (a : Bool) {q : Bool} (x : Reply S) {y : Reply S}
      → (q ≡ false → Refused c y)
      → (if a then true else q) ≡ false
      → Refused c (if a then x else y)
  accepted true x g h = absurd cc
  accepted false x g h = g h

  show_command-Refused :
      (tokens : List (List ℕ))
      → (length tokens == 1 || (length tokens == 2 && str_eq (word tokens 1) (codes "stats")))
        ≡ false
      → Refused c (show_command env tokens c)
  unfolding show_command
  show_command-Refused tokens h =
      subst (Refused c) (sym (skip (length tokens == 1) _ h (λ h. rw h refl))) no_command

  unlock-Refused :
      (tokens : List (List ℕ)) → (length tokens == 2) ≡ false → Refused c (unlock tokens c)
  unfolding unlock
  unlock-Refused tokens h = rw h wrong_number

  set_command-Refused :
      (tokens : List (List ℕ))
      → (leb 3 (length tokens) && one_of parameters (word tokens 1)) ≡ false
      → Refused c (set_command env tokens c)
  unfolding set_command
  set_command-Refused tokens h = on_if (Refused c) (flag c.config.locked) is_locked (
      on_test (Refused c) (ltb (length tokens) 3) (λ e. wrong_number)
        (λ e.
          subst (Refused c)
            (sym (
              set_parameter-unknown (invalid_command c) (word tokens 1) (word tokens 2)
                (ground arith)))
            no_command))

  portmap-Refused :
      (tokens : List (List ℕ))
      → ((str_eq (word tokens 2) (codes "TCP") || str_eq (word tokens 2) (codes "UDP"))
          && ((length tokens == 6 && str_eq (word tokens 1) (codes "add"))
              || (leb 4 (length tokens) && str_eq (word tokens 1) (codes "remove"))))
        ≡ false
      → Refused c (portmap env tokens c)
  unfolding portmap
  portmap-Refused tokens h =
      let add = str_eq (word tokens 1) (codes "add") in
      let remove = str_eq (word tokens 1) (codes "remove") in
      on_if (Refused c) (flag c.config.locked) is_locked (
        on_test (Refused c) (ltb (length tokens) 4 || (add && not (length tokens == 6)))
          (λ e. wrong_number)
          (λ e.
            on_test (Refused c) (not add && not remove) (λ e'. wrong_argument)
              (λ e'.
                on_test (Refused c) (str_eq (word tokens 2) (codes "TCP"))
                  (λ e''. absurd (ground arith))
                  (λ e''.
                    on_test (Refused c) (str_eq (word tokens 2) (codes "UDP"))
                      (λ e3. absurd (ground arith)) (λ e3. wrong_argument)))))

  -- A command that is not well-formed gets one of the four refusals, and changes nothing.
  pub reply-Refused :
      (conn : ℕ) (tokens : List (List ℕ))
      → well_formed tokens ≡ false
      → Refused c (reply env conn tokens c)
  unfolding reply well_formed
  reply-Refused conn tokens =
      let name = word tokens 0 in
      accepted (str_eq name (codes "help")) _ (
        both (str_eq name (codes "show")) (show_command-Refused tokens) (
          accepted (str_eq name (codes "save")) _ (
            accepted (str_eq name (codes "scan")) _ (
              accepted (str_eq name (codes "reset")) _ (
                accepted (str_eq name (codes "quit")) _ (
                  both (str_eq name (codes "portmap")) (portmap-Refused tokens) (
                    accepted (str_eq name (codes "lock")) _ (
                      both (str_eq name (codes "unlock")) (unlock-Refused tokens) (
                        both (str_eq name (codes "set")) (set_command-Refused tokens)
                          (λ h. no_command))))))))))
