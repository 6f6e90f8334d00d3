-- ===== src/Hayes/Escape.antt =====
-- The escape sequence of driver/hayes.c, as `write_to_pbuf` of user/user_main.c meets it.
use esp_slip_router.Prelude.{
  ℕ, zero, suc, ◌+◌, ◌%◌, ◌≤◌, ◌<◌, ◌≡◌, ◌⊎◌, inl, inr, refl, sym, ◌∙◌, ap, ap₂, subst, true, false,
  some, List, [], ◌∷◌, ◌++◌, arith, replicate, ◌==◌, ==_iff, Bool-cases, ◌&&◌,
}
use esp_slip_router.Hayes.Types.{Modem, Env, reg_esc}
use esp_slip_router.Hayes.Output.{okay, h_result}
use esp_slip_router.Hayes.Handler.{replay, h_handler}
use esp_slip_router.Hayes.Feed.{write_to_pbuf, feed, prepend, few_escapes, plain}

module _ (env : Env) where
  -- one character that is no escape, in data mode
  pub write_to_pbuf-calm :
      (c : ℕ) (m : Modem)
      → m.online ≡ true
      → m.in_esc ≡ false
      → (c == reg_esc m) ≡ false
      → write_to_pbuf env c m ≡ some (c ∷ [], m)
  unfolding write_to_pbuf h_handler replay
  write_to_pbuf-calm c m on e d = rw (on, e, d)

  pub write_to_pbuf-replay :
      (c : ℕ) (m : Modem)
      → m.online ≡ true
      → m.in_esc ≡ true
      → (c == reg_esc m) ≡ false
      → write_to_pbuf env c m
        ≡ some (replicate m.n_escs (reg_esc m) ++ c ∷ [], record m { in_esc = false; n_escs = 3 })
  unfolding write_to_pbuf h_handler replay
  write_to_pbuf-replay c m on e d = rw (on, e, d)

  pub write_to_pbuf-hold :
      (c : ℕ) (m : Modem)
      → m.online ≡ true
      → (c == reg_esc m) ≡ true
      → (m.in_esc && m.n_escs == 2) ≡ false
      → write_to_pbuf env c m ≡ some ([], record m { in_esc = true; n_escs = (m.n_escs + 1) % 4 })
  unfolding write_to_pbuf h_handler
  write_to_pbuf-hold c m on d e = rw (on, d, e)

  pub write_to_pbuf-leave :
      (c : ℕ) (m : Modem)
      → m.online ≡ true
      → (c == reg_esc m) ≡ true
      → m.in_esc ≡ true
      → m.n_escs ≡ 2
      → write_to_pbuf env c m
        ≡ some ([], h_result env okay (record m { in_esc = false; n_escs = 0; online = false }))
  unfolding write_to_pbuf h_handler
  write_to_pbuf-leave c m on d e n = rw (on, e, d, n)

  pub feed-[] : (m : Modem) → feed env [] m ≡ some ([], m)
  unfolding feed
  feed-[] m = refl

  pub feed-∷ :
      (c : ℕ) (cs : List ℕ) (m : Modem) {m' : Modem} {sent : List ℕ}
      → write_to_pbuf env c m ≡ some (sent, m')
      → feed env (c ∷ cs) m ≡ prepend sent (feed env cs m')
  unfolding feed
  feed-∷ c cs m e = rw (feed, e)

-- At most `held` escape characters are counted, and no more than two.
abbrev pub Held : ℕ → Modem → Type 0
Held held m =
    (m.in_esc ≡ false) × ((m.n_escs ≡ 0) ⊎ (m.n_escs ≡ 3)) × (held ≡ 0)
    ⊎ (m.in_esc ≡ true) × (m.n_escs ≤ held) × (held ≤ 2)

plain-append : (esc : ℕ) (xs ys : List ℕ) → plain esc (xs ++ ys) ≡ plain esc xs ++ plain esc ys
unfolding plain
plain-append esc [] ys = refl
plain-append esc (x ∷ xs) ys = elim (Bool-cases (x == esc)) [
  | inl e ↦ rw (e, plain-append esc xs ys)
  | inr e ↦ rw (e, plain-append esc xs ys)
]

plain-replicate : (esc n : ℕ) → plain esc (replicate n esc) ≡ []
unfolding plain
plain-replicate esc zero = refl
plain-replicate esc (suc n) = rw ((==_iff esc esc).1 refl, plain-replicate esc n)

hold-Held :
    (held : ℕ) (m : Modem)
    → Held held m
    → held < 2
    → ((m.in_esc && m.n_escs == 2) ≡ false)
      × Held (held + 1) (record m { in_esc = true; n_escs = (m.n_escs + 1) % 4 })
hold-Held held m (inl (e, inl n, z)) lt = (ground arith, inr (refl, ground arith, ground arith))
hold-Held held m (inl (e, inr n, z)) lt = (ground arith, inr (refl, ground arith, ground arith))
hold-Held held m (inr (e, n, two)) lt = (ground arith, inr (refl, ground arith, ground arith))

few_escapes-again :
    (esc held c : ℕ) (cs : List ℕ)
    → (c == esc) ≡ true
    → few_escapes esc held (c ∷ cs) ≡ true
    → (held < 2) × (few_escapes esc (held + 1) cs ≡ true)
unfolding few_escapes
few_escapes-again esc held c cs d few = ground arith

few_escapes-other :
    (esc held c : ℕ) (cs : List ℕ)
    → (c == esc) ≡ false
    → few_escapes esc held (c ∷ cs) ≡ true
    → few_escapes esc 0 cs ≡ true
unfolding few_escapes
few_escapes-other esc held c cs d few = ground arith

plain-[] : (esc : ℕ) → plain esc [] ≡ []
unfolding plain
plain-[] esc = refl

plain-again : (esc c : ℕ) (cs : List ℕ) → (c == esc) ≡ true → plain esc (c ∷ cs) ≡ plain esc cs
unfolding plain
plain-again esc c cs d = rw d

plain-other : (esc c : ℕ) (cs : List ℕ) → (c == esc) ≡ false → plain esc (c ∷ cs) ≡ c ∷ plain esc cs
unfolding plain
plain-other esc c cs d = rw d

module _ (env : Env) where
  abbrev pub Passes : Modem → List ℕ → Type 0
  Passes m cs =
      (sent : List ℕ) × (m' : Modem) × (feed env cs m ≡ some (sent, m'))
      × (m'.online ≡ true)
      × (plain (reg_esc m) sent ≡ plain (reg_esc m) cs)

  -- what the modem does in data mode with a character that is no escape
  other :
      (c : ℕ) (m : Modem)
      → m.online ≡ true
      → (c == reg_esc m) ≡ false
      → (held : ℕ) → Held held m
      → (sent : List ℕ) × (m' : Modem) × (write_to_pbuf env c m ≡ some (sent, m'))
        × (m'.online ≡ true)
        × Held 0 m'
        × (reg_esc m' ≡ reg_esc m)
        × (plain (reg_esc m) sent ≡ c ∷ [])
  other c m on d held (inl (e, n, z)) = (
    c ∷ [],
    m,
    write_to_pbuf-calm env c m on e d,
    on,
    inl (e, n, refl),
    refl,
    plain-other (reg_esc m) c [] d ∙ ap (c ∷◌) (plain-[] (reg_esc m)),
  )
  other c m on d held (inr (e, n, two)) = (
    replicate m.n_escs (reg_esc m) ++ c ∷ [],
    record m { in_esc = false; n_escs = 3 },
    write_to_pbuf-replay env c m on e d,
    on,
    inl (refl, inr refl, refl),
    refl,
    plain-append (reg_esc m) (replicate m.n_escs (reg_esc m)) (c ∷ [])
        ∙ ap₂ ◌++◌ (plain-replicate (reg_esc m) m.n_escs)
            (plain-other (reg_esc m) c [] d ∙ ap (c ∷◌) (plain-[] (reg_esc m))),
  )

  -- In data mode, a stream without three escape characters in a row, those held back counted, leaves
  -- the modem in data mode, and every other character of it is passed on in order.
  pub feed-few_escapes :
      (cs : List ℕ) (held : ℕ) (m : Modem)
      → m.online ≡ true
      → Held held m
      → few_escapes (reg_esc m) held cs ≡ true
      → Passes m cs
  feed-few_escapes [] held m on h few = ([], m, feed-[] env m, on, refl)
  feed-few_escapes (c ∷ cs) held m on h few = elim (Bool-cases (c == reg_esc m)) [
    | inl d ↦
        let (lt, goes_on) = few_escapes-again (reg_esc m) held c cs d few in
        let (two, held') = hold-Held held m h lt in
        let (sent, m', e, on', p) =
          feed-few_escapes cs (held + 1) (record m { in_esc = true; n_escs = (m.n_escs + 1) % 4 })
            on held' goes_on in
        (
          sent,
          m',
          feed-∷ env c cs m (write_to_pbuf-hold env c m on d two) ∙ ap (prepend []) e,
          on',
          p ∙ sym (plain-again (reg_esc m) c cs d),
        )
    | inr d ↦
        let (sent, m', e, on', calm, same, p) = other c m on d held h in
        let few' = few_escapes-other (reg_esc m) held c cs d few in
        let (sent', m'', e', on'', p') =
          feed-few_escapes cs 0 m' on' calm
            (subst (λ esc. few_escapes esc 0 cs ≡ true) (sym same) few') in
        (
          sent ++ sent',
          m'',
          feed-∷ env c cs m e ∙ ap (prepend sent) e',
          on'',
          plain-append (reg_esc m) sent sent'
              ∙ ap₂ ◌++◌ p (subst (λ esc. plain esc sent' ≡ plain esc cs) same p')
              ∙ sym (plain-other (reg_esc m) c cs d),
        )
  ]
