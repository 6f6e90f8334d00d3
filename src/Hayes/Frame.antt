-- ===== src/Hayes/Frame.antt =====
-- What the commands of driver/hayes.c leave alone.
use esp_slip_router.Prelude.{ℕ, ◌≡◌, refl, ◌∙◌, ap, Bool, true, false, List, [], ◌∷◌, if◌then◌else◌}
use esp_slip_router.Hayes.Types.{Modem, Env, char_out}
use esp_slip_router.Hayes.Output.{
  Result, okay, connect, ring, no_carrier, error, connect_baud, no_dial_tone, line_busy, no_answer,
  ringing, h_print_nocr, h_print, h_print_i, h_result_send, h_result_connbaud, result_case,
  h_result, h_echo,
}

-- `m'` is `m` but for what was printed.
pub record Prints (m m' : Modem) : Type 0 where
  pub same : m' ≡ record m { out = m'.out }

pub Prints-refl : (m : Modem) → Prints m m
Prints-refl m = record { same = refl }

pub Prints-trans : {a b c : Modem} → Prints a b → Prints b c → Prints a c
Prints-trans {a} {b} {c} p q = record {
  same = q.same ∙ ap (λ (m : Modem). record m { out = c.out }) p.same;
}

pub Prints-if : (t : Bool) {m x y : Modem} → Prints m x → Prints m y → Prints m (if t then x else y)
Prints-if true p q = p
Prints-if false p q = q

pub char_out-Prints : (c : ℕ) (m : Modem) → Prints m (char_out c m)
char_out-Prints c m = record { same = refl }

pub h_print_nocr-Prints : (s : List ℕ) (m : Modem) → Prints m (h_print_nocr s m)
unfolding h_print_nocr
h_print_nocr-Prints [] m = Prints-refl m
h_print_nocr-Prints (c ∷ s) m =
    Prints-trans (char_out-Prints c m) (h_print_nocr-Prints s (char_out c m))

pub h_print-Prints : (s : List ℕ) (m : Modem) → Prints m (h_print s m)
unfolding h_print
h_print-Prints s m = Prints-trans (h_print_nocr-Prints s m) (char_out-Prints _ _)

h_print_i-Prints : (n : ℕ) (m : Modem) → Prints m (h_print_i n m)
unfolding h_print_i
h_print_i-Prints n m = h_print-Prints _ m

h_result_send-Prints : (s : List ℕ) (n : ℕ) (m : Modem) → Prints m (h_result_send s n m)
unfolding h_result_send
h_result_send-Prints s n m =
    Prints-if m.quiet (Prints-refl m)
      (Prints-if m.verbose (h_print-Prints s m) (h_print_i-Prints n m))

h_result_connbaud-Prints : (env : Env) (m : Modem) → Prints m (h_result_connbaud env m)
unfolding h_result_connbaud
h_result_connbaud-Prints env m =
    Prints-if m.quiet (Prints-refl m)
      (Prints-if m.verbose (h_print-Prints _ m) (h_print_i-Prints _ m))

result_case-Prints : (env : Env) (r : Result) (m : Modem) → Prints m (result_case env r m)
result_case-Prints env connect_baud m = h_result_connbaud-Prints env m
result_case-Prints env okay m = h_result_send-Prints _ _ m
result_case-Prints env connect m = h_result_send-Prints _ _ m
result_case-Prints env ring m = h_result_send-Prints _ _ m
result_case-Prints env no_carrier m = h_result_send-Prints _ _ m
result_case-Prints env error m = h_result_send-Prints _ _ m
result_case-Prints env no_dial_tone m = h_result_send-Prints _ _ m
result_case-Prints env line_busy m = h_result_send-Prints _ _ m
result_case-Prints env no_answer m = h_result_send-Prints _ _ m
result_case-Prints env ringing m = h_result_send-Prints _ _ m

-- A result code changes nothing but the output.
pub h_result-Prints : (env : Env) (r : Result) (m : Modem) → Prints m (h_result env r m)
unfolding h_result
h_result-Prints env r m = Prints-if m.quiet (Prints-refl m) (result_case-Prints env r m)

-- With quiet results nothing is printed either.
pub h_result-quiet : (env : Env) (r : Result) (m : Modem) → m.quiet ≡ true → h_result env r m ≡ m
unfolding h_result
h_result-quiet env r m e = rw e

pub h_echo-Prints : (c : ℕ) (m : Modem) → Prints m (h_echo c m)
unfolding h_echo
h_echo-Prints c m =
    Prints-if m.echo (Prints-if _ (Prints-refl m) (char_out-Prints c m)) (Prints-refl m)
