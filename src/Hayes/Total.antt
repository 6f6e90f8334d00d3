-- ===== src/Hayes/Total.antt =====
-- `h_handler` of driver/hayes.c returns or restarts the chip, and leaves a valid modem.
use esp_slip_router.Prelude.{
  ℕ, ◌+◌, ◌%◌, ◌≤◌, ◌<◌, ◌≡◌, refl, sym, ap, subst, Bool, true, false, not, ◌&&◌, ◌||◌, some, [],
  arith, ◌==◌, Bool-cases, inl, inr,
}
use esp_slip_router.Hayes.Types.{Modem, Env, reg_esc, reg_cr}
use esp_slip_router.Hayes.Output.{okay, h_echo, h_result}
use esp_slip_router.Hayes.Handler.{h_recv, Handled, handled_by_recv, replay, h_handler}
use esp_slip_router.Hayes.Frame.{h_result-Prints, h_echo-Prints}
use esp_slip_router.Hayes.WellFormed.{
  IsValid, Runs, Gives, GivesBeside-if, Prints-IsValid, set_l_chr-Gives, recv_cmd-Gives,
  recv_idle-Gives,
}

IsValid-escape :
    {m : Modem} (online in_esc : Bool) (n_escs : ℕ)
    → IsValid m
    → n_escs < 4
    → IsValid (record m { online = online; in_esc = in_esc; n_escs = n_escs })
IsValid-escape online in_esc n_escs v h = record {
  regs = v.regs;
  cmdbuf = v.cmdbuf;
  cmd_i = v.cmd_i;
  l_cmd_i = v.l_cmd_i;
  n_escs = h;
  report = v.report;
}

replay-IsValid : (m : Modem) → IsValid m → IsValid (replay m).1
unfolding replay
replay-IsValid m v = elim (Bool-cases m.in_esc) [
  | inl e ↦ rw e (IsValid-escape m.online false 3 v (omega arith))
  | inr e ↦ rw e (IsValid-escape m.online false m.n_escs v v.n_escs)
]

replay-restarted : (m : Modem) → (replay m).1.restarted ≡ m.restarted
unfolding replay
replay-restarted m = elim (Bool-cases m.in_esc) [ inl e ↦ rw e refl | inr e ↦ rw e refl ]

module _ (env : Env) (no_value : env.no_value ≤ 200) where
  h_recv-Gives :
      (c : ℕ) (m : Modem)
      → IsValid m
      → ((c == reg_cr m) ≡ true → m.cmd_i ≤ 39)
      → m.l_cmd_i ≤ 39
      → Gives env m (h_recv env c m)
  unfolding h_recv
  h_recv-Gives c m v le last =
      let m' = h_echo c m in
      let p = h_echo-Prints c m in
      let v' = Prints-IsValid v p in
      let cr : reg_cr m' ≡ reg_cr m = ap reg_cr p.same in
      let i : m'.cmd_i ≡ m.cmd_i = ap (λ (x : Modem). x.cmd_i) p.same in
      let l : m'.l_cmd_i ≡ m.l_cmd_i = ap (λ (x : Modem). x.l_cmd_i) p.same in
      let g =
        set_l_chr-Gives c _
          (GivesBeside-if m'.in_cmd
            (λ _.
              recv_cmd-Gives env no_value c m' v'
                (λ e. subst (λ n. n ≤ 39) (sym i) (le (subst (λ r. (c == r) ≡ true) cr e))))
            (λ _. record {
              gives_beside =
                  recv_idle-Gives env no_value c m' v' (subst (λ n. n ≤ 39) (sym l) last);
            })).gives_beside in
      let h = subst (λ x. Gives env x (h_recv env c m)) p.same g in
      record { modem = h.modem; is = h.is; valid = h.valid; runs = h.runs }

  -- On a character h_handler returns or restarts the chip, unless a full command line is to be parsed, and
  -- it restarts the chip only when there is a Z or an & in the line typed or the last one: the
  -- modem stays valid, it handles what arrives in command mode and the escape character, and it
  -- passes nothing on with a character that it handles. The lines typed and repeated have 39
  -- characters at most, and the value that `h_cmdparse_amp` does not return is 200 at most.
  pub h_handler-Total :
      (c : ℕ) (m : Modem)
      → IsValid m
      → ((c == reg_cr m) ≡ true → m.cmd_i ≤ 39)
      → m.l_cmd_i ≤ 39
      → (r : Handled) × (h_handler env c m ≡ some r)
        × Runs env m r.modem
        × IsValid r.modem
        × (r.handled ≡ (not m.online || c == reg_esc m))
        × (r.handled ≡ true → r.slip ≡ [])
  unfolding h_handler
  h_handler-Total c m v le last = elim (Bool-cases (not m.online)) [
    | inl off ↦
        let g = h_recv-Gives c m v le last in
        (
          record { handled = true; slip = []; modem = g.modem },
          rw off (ap handled_by_recv g.is),
          g.runs,
          g.valid,
          rw off refl,
          λ _. refl,
        )
    | inr on ↦ elim (Bool-cases (c == reg_esc m)) [
      | inl e ↦ elim (Bool-cases (m.in_esc && m.n_escs == 2)) [
        | inl third ↦ (
          record { handled = true; slip = []; modem = h_result env okay left },
          rw (on, e, third) refl,
          inl (ap (λ (x : Modem). x.restarted) (h_result-Prints env okay left).same),
          Prints-IsValid (IsValid-escape false false 0 v (omega arith))
              (h_result-Prints env okay left),
          rw (on, e) refl,
          λ _. refl,
        )
        | inr early ↦ (
          record { handled = true; slip = []; modem = held },
          rw (on, e, early) refl,
          inl refl,
          IsValid-escape m.online true _ v (omega arith),
          rw (on, e) refl,
          λ _. refl,
        )
      ]
      | inr e ↦ (
        record { handled = false; slip = (replay m).0; modem = (replay m).1 },
        rw (on, e) refl,
        inl (replay-restarted m),
        replay-IsValid m v,
        rw (on, e) refl,
        λ h. ground arith,
      )
    ]
  ]
    where
      left : Modem
      left = record m { in_esc = false; n_escs = 0; online = false }

      held : Modem
      held = record m { in_esc = true; n_escs = (m.n_escs + 1) % 4 }
