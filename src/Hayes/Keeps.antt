-- ===== src/Hayes/Keeps.antt =====
-- The commands of driver/hayes.c keep the command line and the escape state, and the sizes of what
-- they write.
use esp_slip_router.Prelude.{
  ℕ, ◌<◌, ◌≡◌, refl, ◌∙◌, ap, Bool, true, false, List, arith, length, length-set, Bool-cases, inl,
  inr, ltb, ◌-◌, ◌+◌, ◌==◌, not, ◌&&◌, ◌||◌, if◌then◌else◌,
}
use esp_slip_router.Hayes.Types.{Modem, Env, cmd_at, h_is_num, h_multi_parse_num}
use esp_slip_router.Hayes.Output.{Result, okay, error, connect_baud, no_carrier, h_result}
use esp_slip_router.Hayes.Commands.{
  h_dial, ht_atd_dollar, hz_ata, h_ata, ht_atdl, ht_atdn, ht_atd, h_ate, hz_ate, hz_ati, htz_ath,
  ht_ath, ht_ato, h_atq, hz_atq, hz_ats_dollar, use_reg, h_ats, is_reserved, h_atv, hz_atv, h_atx,
  ht_atz, ht_amp_f,
}
use esp_slip_router.Hayes.Frame.{Prints, h_print-Prints, h_result-Prints}

abbrev pub Kept : Type 0
Kept = List ℕ × ℕ × ℕ × Bool × ℕ

abbrev pub kept : Modem → Kept
kept m = (m.cmdbuf, m.cmd_i, m.l_cmd_i, m.in_esc, m.n_escs)

-- what a restart keeps too
pub record KeepsLine (a m : Modem) : Type 0 where
  pub line : kept m ≡ kept a
  pub regs : length m.regs ≡ length a.regs
  pub report : a.report < 8 → m.report < 8

-- and the chip runs on
pub record Keeps (a m : Modem) : Type 0 where
  pub line : kept m ≡ kept a
  pub regs : length m.regs ≡ length a.regs
  pub report : a.report < 8 → m.report < 8
  pub runs : m.restarted ≡ a.restarted

pub Keeps-KeepsLine : {a m : Modem} → Keeps a m → KeepsLine a m
Keeps-KeepsLine k = record { line = k.line; regs = k.regs; report = k.report }

pub KeepsLine-trans : {a b c : Modem} → KeepsLine a b → KeepsLine b c → KeepsLine a c
KeepsLine-trans p q = record {
  line = q.line ∙ p.line;
  regs = q.regs ∙ p.regs;
  report = λ h. q.report (p.report h);
}

pub KeepsLine-if :
    (t : Bool) {a x y : Modem} → KeepsLine a x → KeepsLine a y → KeepsLine a (if t then x else y)
KeepsLine-if true p q = p
KeepsLine-if false p q = q

pub Keeps-refl : (m : Modem) → Keeps m m
Keeps-refl m = record { line = refl; regs = refl; report = λ h. h; runs = refl }

pub Keeps-trans : {a b c : Modem} → Keeps a b → Keeps b c → Keeps a c
Keeps-trans p q = record {
  line = q.line ∙ p.line;
  regs = q.regs ∙ p.regs;
  report = λ h. q.report (p.report h);
  runs = q.runs ∙ p.runs;
}

pub Keeps-if : (t : Bool) {a x y : Modem} → Keeps a x → Keeps a y → Keeps a (if t then x else y)
Keeps-if true p q = p
Keeps-if false p q = q

-- of a value beside the modem
pub record KeepsBeside {A : Type 0} (a : Modem) (r : A × Modem) : Type 0 where
  pub keeps : Keeps a r.1

pub beside : {A : Type 0} {v : A} {a m : Modem} → Keeps a m → KeepsBeside a (v, m)
beside k = record { keeps = k }

pub KeepsBeside-if :
    {A : Type 0} (t : Bool) {a : Modem} {x y : A × Modem}
    → KeepsBeside a x
    → KeepsBeside a y
    → KeepsBeside a (if t then x else y)
KeepsBeside-if true p q = p
KeepsBeside-if false p q = q

pub prints : {a m m' : Modem} → Keeps a m → Prints m m' → Keeps a m'
prints k p = record {
  line = ap kept p.same ∙ k.line;
  regs = ap (λ (m : Modem). length m.regs) p.same ∙ k.regs;
  report = λ h. ground (arith, ap (λ (m : Modem). m.report) p.same, k.report h);
  runs = ap (λ (m : Modem). m.restarted) p.same ∙ k.runs;
}

pub flags :
    {a m : Modem} (echo quiet verbose on_hook in_call online : Bool)
    → Keeps a m
    → Keeps a (record m {
      echo = echo;
      quiet = quiet;
      verbose = verbose;
      on_hook = on_hook;
      in_call = in_call;
      online = online;
    })
flags echo quiet verbose on_hook in_call online k = record {
  line = k.line;
  regs = k.regs;
  report = k.report;
  runs = k.runs;
}

module _ (env : Env) where
  pub result-Keeps : (r : Result) {a m : Modem} → Keeps a m → Keeps a (h_result env r m)
  result-Keeps r {m = m} k = prints k (h_result-Prints env r m)

  pub says : (r : Result) (m : Modem) → Keeps m (h_result env r m)
  says r m = result-Keeps r (Keeps-refl m)

  h_dial-Keeps : (b : Bool) {a m : Modem} → Keeps a m → Keeps a (h_dial env b m)
  unfolding h_dial
  h_dial-Keeps b k = result-Keeps connect_baud (flags _ _ _ _ _ _ k)

  pub hz_ata-Keeps : (m : Modem) → Keeps m (hz_ata env m)
  unfolding hz_ata
  hz_ata-Keeps m = result-Keeps okay (flags _ _ _ _ _ _ (Keeps-refl m))

  pub h_ata-Keeps : (a : ℕ) (m : Modem) → KeepsBeside m (h_ata env a m)
  unfolding h_ata
  h_ata-Keeps a m =
      KeepsBeside-if (a == b'0') (beside (result-Keeps okay (flags _ _ _ _ _ _ (Keeps-refl m))))
        (beside (Keeps-refl m))

  pub h_ate-Keeps : (a : ℕ) (m : Modem) → KeepsBeside m (h_ate env a m)
  unfolding h_ate
  h_ate-Keeps a m =
      KeepsBeside-if (not (a == b'0') && not (a == b'1')) (beside (flags _ _ _ _ _ _ (says okay m)))
        (beside (flags _ _ _ _ _ _ (says okay m)))

  ht_atdn-Keeps : (i : ℕ) (m : Modem) → KeepsBeside m (ht_atdn env i m)
  unfolding ht_atdn
  ht_atdn-Keeps i m = beside (h_dial-Keeps _ (flags _ _ _ _ _ _ (Keeps-refl m)))

  pub ht_atd-Keeps : (i : ℕ) (m : Modem) → KeepsBeside m (ht_atd env i m)
  unfolding ht_atd ht_atdl ht_atd_dollar
  ht_atd-Keeps i m =
      KeepsBeside-if (cmd_at env m i == b'L')
        (beside (h_dial-Keeps true (flags _ _ _ _ _ _ (Keeps-refl m))))
        (KeepsBeside-if (cmd_at env m i == b'P' || cmd_at env m i == b'R' || cmd_at env m i == b'T')
          (ht_atdn-Keeps i m)
          (KeepsBeside-if (cmd_at env m i == b'S') (beside (says error m)) (
            KeepsBeside-if (cmd_at env m i == b'$') (beside (says okay m)) (
              KeepsBeside-if (h_is_num (cmd_at env m i)) (beside (ht_atdn-Keeps _ m).keeps)
                (beside (says error m))))))

  pub hz_ate-Keeps : (m : Modem) → Keeps m (hz_ate env m)
  unfolding hz_ate
  hz_ate-Keeps m = result-Keeps okay (flags _ _ _ _ _ _ (Keeps-refl m))

  pub hz_ati-Keeps : (m : Modem) → Keeps m (hz_ati env m)
  unfolding hz_ati
  hz_ati-Keeps m = says error m

  pub htz_ath-Keeps : (m : Modem) → Keeps m (htz_ath env m)
  unfolding htz_ath
  htz_ath-Keeps m = result-Keeps okay (flags _ _ _ _ _ _ (Keeps-refl m))

  pub ht_ath-Keeps : (c : ℕ) (m : Modem) → KeepsBeside m (ht_ath env c m)
  unfolding ht_ath
  ht_ath-Keeps c m =
      KeepsBeside-if (not (c == b'0') && not (c == b'1')) (beside (htz_ath-Keeps m))
        (beside (flags _ _ _ _ _ _ (Keeps-refl m)))

  pub ht_ato-Keeps : (m : Modem) → Keeps m (ht_ato env m)
  unfolding ht_ato
  ht_ato-Keeps m =
      Keeps-if (m.on_hook || not m.in_call) (says no_carrier m)
        (result-Keeps okay (flags _ _ _ _ _ _ (Keeps-refl m)))

  pub h_atq-Keeps : (a : ℕ) (m : Modem) → KeepsBeside m (h_atq env a m)
  unfolding h_atq
  h_atq-Keeps a m =
      KeepsBeside-if (not (a == b'0') && not (a == b'1')) (beside (flags _ _ _ _ _ _ (says okay m)))
        (beside (flags _ _ _ _ _ _ (says okay m)))

  pub hz_atq-Keeps : (m : Modem) → Keeps m (hz_atq env m)
  unfolding hz_atq
  hz_atq-Keeps m = result-Keeps okay (flags _ _ _ _ _ _ (Keeps-refl m))

  pub h_atv-Keeps : (a : ℕ) (m : Modem) → KeepsBeside m (h_atv env a m)
  unfolding h_atv
  h_atv-Keeps a m =
      KeepsBeside-if (not (a == b'0') && not (a == b'1')) (beside (flags _ _ _ _ _ _ (says okay m)))
        (beside (flags _ _ _ _ _ _ (says okay m)))

  pub hz_atv-Keeps : (m : Modem) → Keeps m (hz_atv env m)
  unfolding hz_atv
  hz_atv-Keeps m = result-Keeps okay (flags _ _ _ _ _ _ (Keeps-refl m))

  pub h_atx-Keeps : (c : ℕ) (m : Modem) → KeepsBeside m (h_atx env c m)
  unfolding h_atx
  h_atx-Keeps c m = elim (Bool-cases (ltb 7 (c - 48))) [
    | inl e ↦
        rw e (KeepsBeside-if (not (h_is_num c)) (beside (Keeps-refl m)) (beside (says error m)))
    | inr e ↦ rw e (
        KeepsBeside-if (not (h_is_num c)) (beside (Keeps-refl m))
          (beside (record { line = refl; regs = refl; report = λ h. ground arith; runs = refl })))
  ]

  pub use_reg-Keeps : (i reg taken : ℕ) (m : Modem) → KeepsBeside m (use_reg env i reg taken m)
  unfolding use_reg
  use_reg-Keeps i reg taken m =
      KeepsBeside-if (cmd_at env m (i + taken) == b'?')
        (beside (result-Keeps okay (prints (Keeps-refl m) (h_print-Prints _ m))))
        (KeepsBeside-if (cmd_at env m (i + taken) == b'=')
          (beside (
            result-Keeps okay (record {
              line = refl;
              regs = length-set m.regs reg _;
              report = λ h. h;
              runs = refl;
            })))
          (beside (says error m)))

  pub h_ats-Keeps : (i : ℕ) (m : Modem) → KeepsBeside m (h_ats env i m)
  unfolding h_ats hz_ats_dollar
  h_ats-Keeps i m = KeepsBeside-if (cmd_at env m i == b'$') (beside (says okay m)) (
      KeepsBeside-if (not (h_is_num (cmd_at env m i))) (beside (says error m)) (
        KeepsBeside-if (is_reserved (h_multi_parse_num env m i)) (beside (says error m))
          (use_reg-Keeps i _ _ m)))

  pub ht_atz-KeepsLine : (m : Modem) → KeepsLine m (ht_atz m)
  unfolding ht_atz
  ht_atz-KeepsLine m = record { line = refl; regs = refl; report = λ h. h }

  pub ht_amp_f-KeepsLine : (c : ℕ) (m : Modem) → KeepsLine m (ht_amp_f env c m)
  unfolding ht_amp_f
  ht_amp_f-KeepsLine c m =
      KeepsLine-if (c == b'0') (ht_atz-KeepsLine m)
        (KeepsLine-trans (Keeps-KeepsLine (says error m)) (ht_atz-KeepsLine (h_result env error m)))
