-- ===== src/Hayes/Moves.antt =====
-- A round of the loop of `h_cmdparse` in driver/hayes.c: how far it moves, and what it keeps.
use esp_slip_router.Prelude.{
  ℕ, ◌+◌, ◌-◌, ◌≤◌, ◌<◌, ◌≡◌, refl, Bool, true, false, not, ◌&&◌, ◌||◌, arith, if◌then◌else◌, ltb,
  ◌==◌, u8,
}
use esp_slip_router.Hayes.Types.{Modem, Env, cmd_at, h_is_num, h_multi_parse_num}
use esp_slip_router.Hayes.Output.{okay, error}
use esp_slip_router.Hayes.Commands.{
  use_reg, h_ats, is_reserved, hz_atd, hz_atx, ht_at_dollar, ht_at_amp_dollar,
}
use esp_slip_router.Hayes.Parse.{
  h_cmdparse_amp, Round, taking_flag, taking_count, is_last, parse_round,
}
use esp_slip_router.Hayes.Keeps.{
  Keeps, KeepsLine, Keeps-KeepsLine, Keeps-if, Keeps-refl, KeepsBeside, says, hz_ata-Keeps,
  h_ata-Keeps, h_ate-Keeps, ht_atd-Keeps, hz_ate-Keeps, hz_ati-Keeps, htz_ath-Keeps, ht_ath-Keeps,
  ht_ato-Keeps, h_atq-Keeps, hz_atq-Keeps, h_atv-Keeps, hz_atv-Keeps, h_atx-Keeps, h_ats-Keeps,
  ht_atz-KeepsLine,
}
use esp_slip_router.Hayes.KeepsInfo.{ht_ati-Keeps, h_cmdparse_amp-KeepsLine}

-- `i += taken` moves at most one place back.
record Counts (i : ℕ) (r : ℕ × Modem) : Type 0 where
  ahead : i ≤ u8 (i + r.0) + 1
  below : u8 (i + r.0) ≤ 254

Counts-if :
    {i : ℕ} (t : Bool) {x y : ℕ × Modem} → Counts i x → Counts i y → Counts i (if t then x else y)
Counts-if true p q = p
Counts-if false p q = q

module _ (env : Env) where
  use_reg-Counts :
      (i reg taken : ℕ) (m : Modem)
      → i ≤ 38
      → 1 ≤ taken
      → taken ≤ 2
      → Counts i (use_reg env i reg taken m)
  unfolding use_reg
  use_reg-Counts i reg taken m h one two =
      Counts-if (cmd_at env m (i + taken) == b'?')
        (record { ahead = omega arith; below = omega arith })
        (Counts-if (cmd_at env m (i + taken) == b'=')
          (record { ahead = omega arith; below = omega arith })
          (record { ahead = omega arith; below = omega arith }))

  h_ats-Counts : (i : ℕ) (m : Modem) → i ≤ 38 → Counts i (h_ats env i m)
  unfolding h_ats
  h_ats-Counts i m h =
      Counts-if (cmd_at env m i == b'$') (record { ahead = omega arith; below = omega arith })
        (Counts-if (not (h_is_num (cmd_at env m i)))
          (record { ahead = omega arith; below = omega arith })
          (Counts-if (is_reserved (h_multi_parse_num env m i))
            (record { ahead = omega arith; below = omega arith })
            (use_reg-Counts i (h_multi_parse_num env m i) _ m h (ground arith) (ground arith))))

  h_cmdparse_amp-Counts :
      (i : ℕ) (m : Modem) → i ≤ 38 → env.no_value ≤ 200 → Counts i (h_cmdparse_amp env i m)
  unfolding h_cmdparse_amp
  h_cmdparse_amp-Counts i m h n =
      Counts-if (cmd_at env m i == b'F') (record { ahead = omega arith; below = omega arith })
        (record { ahead = omega arith; below = omega arith })

-- A round on the command `c` does not go back, and keeps the command line. Only Z and & may restart the
-- chip.
pub record Moves (i : ℕ) (m : Modem) (c : ℕ) (r : Round) : Type 0 where
  pub ahead : i ≤ r.1
  pub below : r.1 ≤ 254
  pub keeps : KeepsLine m r.2
  pub runs : (c == b'Z' || c == b'&') ≡ false → r.2.restarted ≡ m.restarted

Moves-if :
    {i : ℕ} {m : Modem} {c : ℕ} (t : Bool) {x y : Round}
    → (t ≡ true → Moves i m c x)
    → (t ≡ false → Moves i m c y)
    → Moves i m c (if t then x else y)
Moves-if true p q = p refl
Moves-if false p q = q refl

module _ {i : ℕ} {m : Modem} {c : ℕ} (h : i ≤ 38) where
  stays : {b : Bool} {m' : Modem} → Keeps m m' → Moves i m c (b, i, m')
  stays k = record {
    ahead = omega arith;
    below = omega arith;
    keeps = Keeps-KeepsLine k;
    runs = λ _. k.runs;
  }

  takes : {b : Bool} {m' : Modem} → Keeps m m' → Moves i m c (b, i + 1, m')
  takes k = record {
    ahead = omega arith;
    below = omega arith;
    keeps = Keeps-KeepsLine k;
    runs = λ _. k.runs;
  }

  flag : {p : Bool × Modem} → KeepsBeside m p → Moves i m c (taking_flag i p)
  flag {p} k = record {
    ahead = ground arith;
    below = ground arith;
    keeps = Keeps-KeepsLine k.keeps;
    runs = λ _. k.keeps.runs;
  }

  count : {p : ℕ × Modem} → KeepsBeside m p → Counts (i + 1) p → Moves i m c (taking_count i p)
  count {p} k c = record {
    ahead = omega (arith, c.ahead);
    below = c.below;
    keeps = Keeps-KeepsLine k.keeps;
    runs = λ _. k.keeps.runs;
  }

  restarts_in :
      {p : ℕ × Modem}
      → KeepsLine m p.1
      → Counts (i + 1) p
      → (c == b'&') ≡ true
      → Moves i m c (taking_count i p)
  restarts_in {p} k n e = record {
    ahead = omega (arith, n.ahead);
    below = n.below;
    keeps = k;
    runs = λ f. absurd (ground arith);
  }

  restarts : {m' : Modem} → KeepsLine m m' → (c == b'Z') ≡ true → Moves i m c (false, i, m')
  restarts k e = record {
    ahead = omega arith;
    below = omega arith;
    keeps = k;
    runs = λ f. absurd (ground arith);
  }

module _ (env : Env) (no_value : env.no_value ≤ 200) where
  pub parse_round-Moves :
      (i : ℕ) (m : Modem)
      → i < m.cmd_i
      → m.cmd_i ≤ 39
      → Moves i m (cmd_at env m i) (parse_round env i m)
  unfolding parse_round hz_atd hz_atx ht_at_dollar ht_at_amp_dollar
  parse_round-Moves i m lt le =
      let h : i ≤ 38 = omega arith in
      let c = cmd_at env m i in
      let a = cmd_at env m (i + 1) in
      let last = is_last i m in
      Moves-if (c == b'A')
        (λ _. Moves-if last (λ _. stays h (hz_ata-Keeps env m)) (λ _. flag h (h_ata-Keeps env a m)))
        (λ _.
          Moves-if (c == b'D')
            (λ _.
              Moves-if last (λ _. stays h (says env error m))
                (λ _. stays h (ht_atd-Keeps env (i + 1) m).keeps))
            (λ _.
              Moves-if (c == b'E')
                (λ _.
                  Moves-if last (λ _. stays h (hz_ate-Keeps env m))
                    (λ _. flag h (h_ate-Keeps env a m)))
                (λ _.
                  Moves-if (c == b'H')
                    (λ _.
                      Moves-if last (λ _. stays h (htz_ath-Keeps env m))
                        (λ _. flag h (ht_ath-Keeps env a m)))
                    (λ _.
                      Moves-if (c == b'I')
                        (λ _.
                          Moves-if last (λ _. stays h (hz_ati-Keeps env m))
                            (λ _. takes h (ht_ati-Keeps env (i + 1) m)))
                        (λ _.
                          Moves-if (c == b'L' || c == b'M')
                            (λ _.
                              Moves-if last (λ _. stays h (says env error m))
                                (λ _.
                                  takes h
                                    (Keeps-if (h_is_num a) (says env okay m) (says env error m))))
                            (λ _.
                              Moves-if (c == b'O') (λ _. stays h (ht_ato-Keeps env m))
                                (λ _.
                                  Moves-if (c == b'Q')
                                    (λ _.
                                      Moves-if last (λ _. stays h (hz_atq-Keeps env m))
                                        (λ _. flag h (h_atq-Keeps env a m)))
                                    (λ _.
                                      Moves-if (c == b'S')
                                        (λ _.
                                          Moves-if last (λ _. stays h (says env error m))
                                            (λ e.
                                              count h (h_ats-Keeps env (i + 1) m)
                                                (h_ats-Counts env (i + 1) m (ground arith))))
                                        (λ _.
                                          Moves-if (c == b'V')
                                            (λ _.
                                              Moves-if last (λ _. stays h (hz_atv-Keeps env m))
                                                (λ _. flag h (h_atv-Keeps env a m)))
                                            (λ _.
                                              Moves-if (c == b'X')
                                                (λ _.
                                                  Moves-if last (λ _. stays h (says env error m))
                                                    (λ _. flag h (h_atx-Keeps env a m)))
                                                (λ _.
                                                  Moves-if (c == b'Z')
                                                    (λ e. restarts h (ht_atz-KeepsLine env m) e)
                                                    (λ _.
                                                      Moves-if (c == b'&')
                                                        (λ amp.
                                                          Moves-if last
                                                            (λ _. stays h (says env error m))
                                                            (λ e.
                                                            restarts_in h
                                                            (h_cmdparse_amp-KeepsLine env (i + 1) m)
                                                            (h_cmdparse_amp-Counts env (i + 1) m
                                                            (ground arith) no_value)
                                                            amp))
                                                        (λ _.
                                                          Moves-if (c == b'$')
                                                            (λ _.
                                                            Moves-if
                                                            (ltb 0 i
                                                            && cmd_at env m (i - 1) == b'&')
                                                            (λ _. stays h (says env okay m))
                                                            (λ _. stays h (says env okay m)))
                                                            (λ _.
                                                            stays h (Keeps-refl m)))))))))))))))
