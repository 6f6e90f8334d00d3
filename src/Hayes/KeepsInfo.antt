-- ===== src/Hayes/KeepsInfo.antt =====
-- The ATI commands and AT& of driver/hayes.c keep the command line as well.
use esp_slip_router.Prelude.{ℕ, zero, suc, ◌+◌, ◌%◌, ◌==◌, Bool-cases, inl, inr}
use esp_slip_router.Hayes.Types.{Modem, Env, cmd_at, h_is_num, h_multi_parse_num, reg_cr}
use esp_slip_router.Hayes.Output.{okay, error, h_print_nocr, h_result}
use esp_slip_router.Hayes.Info.{h_print_h, cmdbuf_text, dump_cmdbuf, print_state, inform, ht_ati}
use esp_slip_router.Hayes.Parse.{h_cmdparse_amp}
use esp_slip_router.Hayes.Frame.{
  Prints, Prints-refl, Prints-trans, Prints-if, char_out-Prints, h_print_nocr-Prints,
  h_print-Prints,
}
use esp_slip_router.Hayes.Keeps.{
  Keeps, Keeps-refl, Keeps-if, KeepsLine, KeepsLine-if, Keeps-KeepsLine, prints, says, result-Keeps,
  ht_amp_f-KeepsLine,
}

module _ (env : Env) where
  dump_cmdbuf-Prints : (left iter : ℕ) (m : Modem) → Prints m (dump_cmdbuf env left iter m)
  unfolding dump_cmdbuf
  dump_cmdbuf-Prints zero iter m = Prints-refl m
  dump_cmdbuf-Prints (suc left) iter m =
      let text = h_print_nocr-Prints (cmdbuf_text env m iter) m in
      let m' = h_print_nocr (cmdbuf_text env m iter) m in
      Prints-trans text (
        Prints-trans (Prints-if (iter % 4 == 0) (char_out-Prints (reg_cr m') m') (Prints-refl m'))
          (dump_cmdbuf-Prints left (iter + 1) _))

  print_state-Prints : (m : Modem) → Prints m (print_state env m)
  unfolding print_state
  print_state-Prints m = Prints-trans (h_print-Prints _ m) (
      Prints-trans (h_print-Prints _ _) (
        Prints-trans (dump_cmdbuf-Prints 40 0 _) (
          Prints-trans (char_out-Prints _ _)
            (Prints-trans (h_print-Prints _ _) (h_print-Prints _ _)))))

  informs : (m : Modem) {m' : Modem} → Prints m m' → Keeps m (h_result env okay m')
  informs m p = result-Keeps env okay (prints (Keeps-refl m) p)

  inform-Keeps : (k : ℕ) (m : Modem) → Keeps m (inform env k m)
  unfolding inform h_print_h
  inform-Keeps k m = Keeps-if (k == 0) (informs m (h_print-Prints _ m)) (
      Keeps-if (k == 1) (informs m (h_print-Prints _ m)) (
        Keeps-if (k == 2) (says env okay m) (
          Keeps-if (k == 3) (informs m (h_print-Prints _ m)) (
            Keeps-if (k == 4) (informs m (Prints-trans (h_print-Prints _ m) (h_print-Prints _ _))) (
              Keeps-if (k == 5) (says env okay m) (
                Keeps-if (k == 6) (says env okay m) (
                  Keeps-if (k == 7) (says env okay m) (
                    Keeps-if (k == 9) (informs m (h_print-Prints _ m)) (
                      Keeps-if (k == 10) (says env okay m) (
                        Keeps-if (k == 11) (says env okay m) (
                          Keeps-if (k == 19)
                            (result-Keeps env error (prints (Keeps-refl m) (print_state-Prints m)))
                            (says env error m))))))))))))

  pub ht_ati-Keeps : (i : ℕ) (m : Modem) → Keeps m (ht_ati env i m)
  unfolding ht_ati
  ht_ati-Keeps i m =
      Keeps-if (h_is_num (cmd_at env m i)) (inform-Keeps (h_multi_parse_num env m i) m)
        (says env error m)

  pub h_cmdparse_amp-KeepsLine : (i : ℕ) (m : Modem) → KeepsLine m (h_cmdparse_amp env i m).1
  unfolding h_cmdparse_amp
  h_cmdparse_amp-KeepsLine i m = elim (Bool-cases (cmd_at env m i == b'F')) [
    | inl e ↦ rw e (
        KeepsLine-if (i + 1 == m.cmd_i) (Keeps-KeepsLine (says env error m))
          (ht_amp_f-KeepsLine env _ m))
    | inr e ↦ rw e (Keeps-KeepsLine (Keeps-refl m))
  ]
