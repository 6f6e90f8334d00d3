-- ===== src/Hayes/Ends.antt =====
-- `h_cmdparse` of driver/hayes.c ends or restarts the chip: each round of its loop moves on, and keeps
-- the command line.
use esp_slip_router.Prelude.{
  ℕ, zero, suc, ◌+◌, ◌≤◌, ◌<◌, ◌≡◌, refl, true, not, ◌&&◌, ◌||◌, some, arith, ltb, ltb→lt, ap, ◌⊎◌,
  ◌∙◌, subst, get_or, ◌==◌, Bool-cases, inl, inr, u8,
}
use esp_slip_router.Hayes.Types.{Modem, Env, cmd_at}
use esp_slip_router.Hayes.Output.{okay, h_result}
use esp_slip_router.Hayes.Parse.{Round, parse_round, parse_loop, h_cmdparse}
use esp_slip_router.Hayes.Keeps.{
  KeepsLine, Keeps-KeepsLine, KeepsLine-trans, Kept, Keeps-refl, says,
}
use esp_slip_router.Hayes.Moves.{Moves, parse_round-Moves}

-- From place `i` on the chip is not restarted, or one of the characters there is Z or &.
abbrev pub Restarts : Env → ℕ → Modem → Modem → Type 0
Restarts env i m m' =
    (m'.restarted ≡ m.restarted)
    ⊎ (j : ℕ) × (i ≤ j)
      × (j < m.cmd_i)
      × ((cmd_at env m j == b'Z' || cmd_at env m j == b'&') ≡ true)

module _ (env : Env) where
  Restarts-round :
      (i : ℕ) (m : Modem) (r : Round)
      → i < m.cmd_i
      → Moves i m (cmd_at env m i) r
      → Restarts env i m r.2
  Restarts-round i m r lt moved =
      elim (Bool-cases (cmd_at env m i == b'Z' || cmd_at env m i == b'&')) [
        | inl e ↦ inr (i, omega arith, lt, e)
        | inr e ↦ inl (moved.runs e)
      ]

  Restarts-next :
      (i k : ℕ) (m m1 m' : Modem)
      → KeepsLine m m1
      → i ≤ k
      → Restarts env i m m1
      → Restarts env k m1 m'
      → Restarts env i m m'
  Restarts-next i k m m1 m' keeps le (inr (j, a, b, c)) later = inr (j, a, b, c)
  Restarts-next i k m m1 m' keeps le (inl e) (inl f) = inl (f ∙ e)
  Restarts-next i k m m1 m' keeps le (inl e) (inr (j, a, b, c)) =
      let same : m1.cmd_i ≡ m.cmd_i = ap (λ (x : Kept). x.1) keeps.line in
      let buf : cmd_at env m1 j ≡ cmd_at env m j =
        ap (λ (x : Kept). get_or x.0 j (env.stray j)) keeps.line in
      inr (
        j,
        omega (arith, a, le),
        omega (arith, b, same),
        subst (λ ch. (ch == b'Z' || ch == b'&') ≡ true) buf c,
      )

line_refl : (m : Modem) → KeepsLine m m
line_refl m = Keeps-KeepsLine (Keeps-refl m)

module _ (env : Env) (no_value : env.no_value ≤ 200) where
  -- The loop ends, and what it leaves has the same command line.
  parse_loop-Ends :
      (fuel i : ℕ) (m : Modem)
      → m.cmd_i ≤ 39
      → m.cmd_i ≤ fuel + i
      → (m' : Modem) × (parse_loop env fuel i m ≡ some m') × KeepsLine m m' × Restarts env i m m'
  unfolding parse_loop
  parse_loop-Ends zero i m le enough = (m, ground arith, line_refl m, inl refl)
  parse_loop-Ends (suc fuel) i m le enough = elim (Bool-cases (ltb i m.cmd_i)) [
    | inr e ↦ (m, rw e refl, line_refl m, inl refl)
    | inl e ↦
        let r = parse_round env i m in
        let moved = parse_round-Moves env no_value i m (ltb→lt _ _ e) le in
        let here = Restarts-round env i m r (ltb→lt _ _ e) moved in
        elim (Bool-cases (r.0 && not r.2.restarted)) [
          | inr f ↦ (r.2, rw (e, f) refl, moved.keeps, here)
          | inl f ↦
              let same : r.2.cmd_i ≡ m.cmd_i = ap (λ (k : Kept). k.1) moved.keeps.line in
              let (m', ends, keeps, later) =
                parse_loop-Ends fuel (u8 (r.1 + 1)) r.2 (omega (arith, same))
                  (omega (arith, same, moved.ahead, moved.below)) in
              (
                m',
                rw (e, f) ends,
                KeepsLine-trans moved.keeps keeps,
                Restarts-next env i (u8 (r.1 + 1)) m r.2 m' moved.keeps
                    (omega (arith, moved.ahead, moved.below)) here later,
              )
        ]
  ]

  -- A command line of 39 characters at most is parsed to its end, unless it restarts the chip, which only a
  -- Z or an & in it does: either the parse returns with the chip running as before, or there is such a
  -- character. The command line, the escape state and the sizes of what is written stay as they are.
  -- The value that `h_cmdparse_amp` does not return is 200 at most.
  pub h_cmdparse-Ends :
      (m : Modem)
      → m.cmd_i ≤ 39
      → (m' : Modem) × (h_cmdparse env m ≡ some m') × KeepsLine m m' × Restarts env 0 m m'
  unfolding h_cmdparse
  h_cmdparse-Ends m le = elim (Bool-cases (m.cmd_i == 0)) [
    | inl e ↦ (
      h_result env okay m,
      rw e refl,
      Keeps-KeepsLine (says env okay m),
      inl (says env okay m).runs,
    )
    | inr e ↦
        let (m', ends, keeps, restarts) = parse_loop-Ends m.cmd_i 0 m le (omega arith) in
        (m', rw e ends, keeps, restarts)
  ]
