-- ===== src/Hayes/WellFormed.antt =====
-- The well-formedness of the modem's state in driver/hayes.c, which every character keeps.
use esp_slip_router.Prelude.{
  ℕ, ◌≤◌, ◌<◌, ◌≡◌, refl, sym, ◌∙◌, ap, subst, Bool, true, false, not, ◌&&◌, ◌||◌, ◌⊎◌, inl, inr,
  Option, some, arith, length, length-set, ltb, ◌==◌, if◌then◌else◌,
}
use esp_slip_router.Hayes.Types.{Modem, Env, cmd_at, reg_cr, reg_bs, h_init}
use esp_slip_router.Hayes.Output.{error}
use esp_slip_router.Hayes.Parse.{h_cmdparse}
use esp_slip_router.Hayes.Handler.{after_parse, recv_cmd, recv_idle, set_l_chr}
use esp_slip_router.Hayes.Frame.{Prints, h_result-Prints}
use esp_slip_router.Hayes.Keeps.{KeepsLine, Keeps-KeepsLine, Kept, Keeps-refl, prints}
use esp_slip_router.Hayes.Ends.{Restarts, h_cmdparse-Ends}

-- The arrays have their sizes and the bit fields their ranges.
pub record IsValid (m : Modem) : Type 0 where
  pub regs : length m.regs ≡ 39
  pub cmdbuf : length m.cmdbuf ≡ 40
  pub cmd_i : m.cmd_i ≤ 40
  pub l_cmd_i : m.l_cmd_i ≤ 40
  pub n_escs : m.n_escs < 4
  pub report : m.report < 8

pub h_init-IsValid : (b : Bool) → IsValid (h_init b)
unfolding h_init
h_init-IsValid b = record {
  regs = refl;
  cmdbuf = refl;
  cmd_i = omega arith;
  l_cmd_i = omega arith;
  n_escs = omega arith;
  report = omega arith;
}

Keeps-IsValid : {a m : Modem} → IsValid a → KeepsLine a m → IsValid m
Keeps-IsValid {a} {m} v k =
    let buf : m.cmdbuf ≡ a.cmdbuf = ap (λ (x : Kept). x.0) k.line in
    let i : m.cmd_i ≡ a.cmd_i = ap (λ (x : Kept). x.1) k.line in
    let l : m.l_cmd_i ≡ a.l_cmd_i = ap (λ (x : Kept). x.2) k.line in
    let n : m.n_escs ≡ a.n_escs = ap (λ (x : Kept). x.4) k.line in
    record {
      regs = k.regs ∙ v.regs;
      cmdbuf = ap length buf ∙ v.cmdbuf;
      cmd_i = omega (arith, v.cmd_i, i);
      l_cmd_i = omega (arith, v.l_cmd_i, l);
      n_escs = omega (arith, v.n_escs, n);
      report = k.report v.report;
    }

pub IsValid-if : (t : Bool) {x y : Modem} → IsValid x → IsValid y → IsValid (if t then x else y)
IsValid-if true p q = p
IsValid-if false p q = q

pub Prints-IsValid : {a m : Modem} → IsValid a → Prints a m → IsValid m
Prints-IsValid {a} v p = Keeps-IsValid v (Keeps-KeepsLine (prints (Keeps-refl a) p))

-- The chip runs on, or there is a Z or an & among the characters of a line of `m`, the one typed or
-- the last one.
abbrev pub Runs : Env → Modem → Modem → Type 0
Runs env m m' =
    (m'.restarted ≡ m.restarted)
    ⊎ (j : ℕ) × ((j < m.cmd_i) ⊎ (j < m.l_cmd_i))
      × ((cmd_at env m j == b'Z' || cmd_at env m j == b'&') ≡ true)

-- a valid modem comes out
pub record Gives (env : Env) (m : Modem) (o : Option Modem) : Type 0 where
  pub modem : Modem
  pub is : o ≡ some modem
  pub valid : IsValid modem
  pub runs : Runs env m modem

gives : {env : Env} {a m : Modem} → IsValid m → Runs env a m → Gives env a (some m)
gives {m = m} v r = record { modem = m; is = refl; valid = v; runs = r }

Gives-if :
    {env : Env} {a : Modem} (t : Bool) {x y : Option Modem}
    → (t ≡ true → Gives env a x)
    → (t ≡ false → Gives env a y)
    → Gives env a (if t then x else y)
Gives-if true p q = p refl
Gives-if false p q = q refl

pub record GivesBeside (env : Env) (m : Modem) (p : Bool × Option Modem) : Type 0 where
  pub gives_beside : Gives env m p.1

pub GivesBeside-if :
    {env : Env} {a : Modem} (t : Bool) {x y : Bool × Option Modem}
    → (t ≡ true → GivesBeside env a x)
    → (t ≡ false → GivesBeside env a y)
    → GivesBeside env a (if t then x else y)
GivesBeside-if true p q = p refl
GivesBeside-if false p q = q refl

-- the changes that the handler makes itself
IsValid-line :
    {m : Modem} (in_cmd : Bool) (cmd_i l_cmd_i l_chr : ℕ)
    → IsValid m
    → cmd_i ≤ 40
    → l_cmd_i ≤ 40
    → IsValid (record m { in_cmd = in_cmd; cmd_i = cmd_i; l_cmd_i = l_cmd_i; l_chr = l_chr })
IsValid-line in_cmd cmd_i l_cmd_i l_chr v h k = record {
  regs = v.regs;
  cmdbuf = v.cmdbuf;
  cmd_i = h;
  l_cmd_i = k;
  n_escs = v.n_escs;
  report = v.report;
}

pub set_l_chr-Gives :
    {env : Env} {a : Modem} (c : ℕ) (p : Bool × Option Modem)
    → Gives env a p.1
    → Gives env a (set_l_chr c p)
set_l_chr-Gives {env} {a} c p g =
    let m = g.modem in
    subst (λ o. Gives env a (set_l_chr c (p.0, o))) (sym g.is)
      (Gives-if (p.0 && not m.restarted)
        (λ _.
          gives (IsValid-line m.in_cmd m.cmd_i m.l_cmd_i c g.valid g.valid.cmd_i g.valid.l_cmd_i)
            g.runs)
        (λ _. gives g.valid g.runs))

-- a parse of the line typed, and of the last one
typed_line : (env : Env) (m m' : Modem) → Restarts env 0 m m' → Runs env m m'
typed_line env m m' (inl e) = inl e
typed_line env m m' (inr (j, _, lt, e)) = inr (j, inl lt, e)

last_line :
    (env : Env) (m m' : Modem)
    → Restarts env 0 (record m { in_cmd = true; cmd_i = m.l_cmd_i }) m'
    → Runs env m m'
last_line env m m' (inl e) = inl e
last_line env m m' (inr (j, _, lt, e)) = inr (j, inr lt, e)

module _ (env : Env) (no_value : env.no_value ≤ 200) where
  -- a parse, and what is set after it
  parses :
      (f : Modem → Modem) (a m : Modem)
      → ((x : Modem) → IsValid x → IsValid (f x))
      → ((x : Modem) → (f x).restarted ≡ x.restarted)
      → ((x : Modem) → Restarts env 0 m x → Runs env a x)
      → IsValid m
      → m.cmd_i ≤ 39
      → Gives env a (after_parse f (h_cmdparse env m))
  parses f a m keeps same runs v le =
      let (m', ends, k, rs) = h_cmdparse-Ends env no_value m le in
      let v' = Keeps-IsValid v k in
      let r = runs m' rs in
      subst (λ o. Gives env a (after_parse f o)) (sym ends)
        (Gives-if m'.restarted (λ _. gives v' r)
          (λ _. gives (keeps m' v') (subst (λ b. RunsAs b) (sym (same m')) r)))
    where
      RunsAs : Bool → Type 0
      RunsAs b =
          (b ≡ a.restarted)
          ⊎ (j : ℕ) × ((j < a.cmd_i) ⊎ (j < a.l_cmd_i))
            × ((cmd_at env a j == b'Z' || cmd_at env a j == b'&') ≡ true)

  pub recv_cmd-Gives :
      (c : ℕ) (m : Modem)
      → IsValid m
      → ((c == reg_cr m) ≡ true → m.cmd_i ≤ 39)
      → GivesBeside env m (recv_cmd env c m)
  unfolding recv_cmd
  recv_cmd-Gives c m v le =
      GivesBeside-if (c == reg_cr m)
        (λ e. record {
          gives_beside =
              parses _ m m (λ x w. IsValid-line false 0 x.cmd_i x.l_chr w (omega arith) w.cmd_i)
                (λ x. refl) (typed_line env m) v (le e);
        })
        (λ _.
          GivesBeside-if (c == reg_bs m && ltb 0 m.cmd_i)
            (λ _. record {
              gives_beside =
                  gives (IsValid-line m.in_cmd _ m.l_cmd_i _ v (omega (arith, v.cmd_i)) v.l_cmd_i)
                    (inl refl);
            })
            (λ _.
              GivesBeside-if (m.cmd_i == 40)
                (λ _.
                  let p = h_result-Prints env error m in
                  record {
                    gives_beside =
                        gives
                          (IsValid-line false 0 0 _ (Prints-IsValid v p) (omega arith)
                            (omega arith))
                          (inl (ap (λ (x : Modem). x.restarted) p.same));
                  })
                (λ e. record {
                  gives_beside =
                      gives
                        (record {
                          regs = v.regs;
                          cmdbuf = length-set m.cmdbuf m.cmd_i c ∙ v.cmdbuf;
                          cmd_i = ground (arith, v.cmd_i);
                          l_cmd_i = v.l_cmd_i;
                          n_escs = v.n_escs;
                          report = v.report;
                        })
                        (inl refl);
                })))

  pub recv_idle-Gives :
      (c : ℕ) (m : Modem) → IsValid m → m.l_cmd_i ≤ 39 → Gives env m (recv_idle env c m)
  unfolding recv_idle
  recv_idle-Gives c m v le =
      Gives-if (m.l_chr == b'A')
        (λ _.
          Gives-if (c == b'/')
            (λ _.
              parses _ m (record m { in_cmd = true; cmd_i = m.l_cmd_i })
                (λ x w. IsValid-line false 0 x.l_cmd_i x.l_chr w (omega arith) w.l_cmd_i)
                (λ x. refl) (last_line env m)
                (IsValid-line true m.l_cmd_i m.l_cmd_i m.l_chr v v.l_cmd_i v.l_cmd_i) le)
            (λ _.
              Gives-if (c == b'T')
                (λ _.
                  gives (IsValid-line true m.cmd_i m.l_cmd_i m.l_chr v v.cmd_i v.l_cmd_i)
                    (inl refl))
                (λ _. gives v (inl refl))))
        (λ _. gives v (inl refl))
