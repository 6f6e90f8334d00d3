-- ===== src/Softuart/Readline.antt =====
-- The lines that Softuart_Readline of driver/softuart.c takes from the receive ring.
use esp_slip_router.Prelude.{
  ℕ, zero, suc, ◌+◌, ◌-◌, ◌≤◌, ◌<◌, ◌≡◌, ◌≢◌, refl, ◌∙◌, ap, Bool, true, false, some, List, [], ◌∷◌,
  ◌++◌, length, ltb, arith, Option, ◌==◌, if◌then◌else◌, append-nil, reverse_reverse,
}
use mathlib.Core.List.{reverse, reverse_aux}
use esp_slip_router.Window.{length-window}
use esp_slip_router.Softuart.{Softuart, read, available, readline_loop, readline, in_order}
use esp_slip_router.Softuart.Queue.{IsValid, queue-few, queue, read_lem}

-- the same on the list of the bytes that wait
unfoldable pub readline_list : ℕ → List ℕ → ℕ → List ℕ → List ℕ × List ℕ
readline_list max_len line len [] = (line, [])
readline_list max_len line len (c ∷ q) =
    let again = readline_list max_len line len q in
    let longer = readline_list max_len (c ∷ line) (len + 1) q in
    if c == b'\r'
    then again
    else if c == b'\n'
    then (if ltb 0 len then (line, q) else again)
    else if ltb len (max_len - 1)
    then longer
    else (line, q)

-- a result of the loop, in place of the queue
pub record Lines (expected : List ℕ × List ℕ) (r : Option (List ℕ × Softuart)) : Type 0 where
  pub port : Softuart
  pub ends : r ≡ some (expected.0, port)
  pub valid : IsValid port
  pub left : queue port ≡ expected.1

Lines-if :
    (t : Bool) {e e' : List ℕ × List ℕ} {r r' : Option (List ℕ × Softuart)}
    → Lines e r
    → Lines e' r'
    → Lines (if t then e else e') (if t then r else r')
Lines-if true p p' = p
Lines-if false p p' = p'

pub readline_loop_lem :
    (q : List ℕ) (fuel max_len : ℕ) (line : List ℕ) (len : ℕ) {s : Softuart}
    → IsValid s
    → queue s ≡ q
    → length q < fuel
    → Lines (readline_list max_len line len q) (readline_loop fuel max_len line len s)
unfolding readline_loop readline_list
readline_loop_lem q zero m line len v h r = absurd (omega arith)
readline_loop_lem [] (suc fuel) m line len {s} v h r =
    let e : (available s == 0) ≡ true =
      ground (
        arith,
        length-window s.receive_buffer 64 s.receive_buffer_head (available s),
        ap length h,
      ) in
    rw e (record { port = s; ends = refl; valid = v; left = h })
readline_loop_lem (c ∷ q) (suc fuel) m line len {s} v h r =
    let e : (available s == 0) ≡ false =
      ground (
        arith,
        length-window s.receive_buffer 64 s.receive_buffer_head (available s),
        ap length h,
      ) in
    let d = read_lem v h in
    let next = λ (line' : List ℕ) (len' : ℕ).
      readline_loop_lem q fuel m line' len' d.valid d.bytes (omega arith) in
    let done : Lines (line, q) (some (line, (read s).1)) = record {
      port = (read s).1;
      ends = refl;
      valid = d.valid;
      left = d.bytes;
    } in
    rw e (
      rw d.byte (
        Lines-if (c == b'\r') (next line len) (
          Lines-if (c == b'\n') (Lines-if (ltb 0 len) done (next line len))
            (Lines-if (ltb len (m - 1)) (next (c ∷ line) (len + 1)) done))))

-- characters that do not end a line
pub data IsText : List ℕ → Type 0 where
  text_end : IsText []
  text_char : {c : ℕ} {w : List ℕ} → c ≢ b'\r' → c ≢ b'\n' → IsText w → IsText (c ∷ w)

readline_list-text :
    (m len : ℕ) {w : List ℕ} (line rest : List ℕ)
    → IsText w
    → len + length w ≤ m - 1
    → readline_list m line len (w ++ rest)
      ≡ readline_list m (reverse_aux w line) (len + length w) rest
unfolding readline_list
readline_list-text m len line rest text_end h = ap (λ n. readline_list m line n rest) (omega arith)
readline_list-text m len line rest (text_char {c = c} {w = w} r n t) h =
    let e : (c == b'\r') ≡ false = ground arith in
    let e' : (c == b'\n') ≡ false = ground arith in
    let e'' : ltb len (m - 1) ≡ true = ground arith in
    rw e (
      rw e' (
        rw e'' (
          readline_list-text m (len + 1) (c ∷ line) rest t (omega arith)
          ∙ ap (λ n. readline_list m (reverse_aux w (c ∷ line)) n rest) (omega arith))))

readline_list-end :
    (m len : ℕ) (line rest : List ℕ)
    → 0 < len
    → readline_list m line len (b'\n' ∷ rest) ≡ (line, rest)
unfolding readline_list
readline_list-end m len line rest h = let e : ltb 0 len ≡ true = ground arith in rw e refl

readline_list-full :
    (m c : ℕ) (line rest : List ℕ)
    → c ≢ b'\r'
    → c ≢ b'\n'
    → readline_list m line (m - 1) (c ∷ rest) ≡ (line, rest)
unfolding readline_list
readline_list-full m c line rest r n =
    let e : (c == b'\r') ≡ false = ground arith in
    let e' : (c == b'\n') ≡ false = ground arith in
    let e'' : ltb (m - 1) (m - 1) ≡ false = ground arith in rw e (rw e' (rw e'' refl))

-- the call of readline on a port, by the same on its queue
by_list :
    (m : ℕ) {s : Softuart} {w rest : List ℕ}
    → IsValid s
    → readline_list m [] 0 (queue s) ≡ (reverse_aux w [], rest)
    → (s' : Softuart) × (readline m s ≡ some (w, s')) × IsValid s' × (queue s' ≡ rest)
unfolding readline
by_list m {s} {w} {rest} v h =
    let l = readline_loop_lem (queue s) 64 m [] 0 v refl (queue-few s) in
    (
      l.port,
      ap in_order l.ends
          ∙ (ap (λ (p : List ℕ × List ℕ). some (reverse p.0, l.port)) h
              ∙ ap (λ t. some (t, l.port)) (reverse_reverse w [] [] ∙ append-nil w)),
      l.valid,
      l.left ∙ ap (λ (p : List ℕ × List ℕ). p.1) h,
    )

-- When a text that is not empty and shorter than `MaxLen` waits with a line feed after it,
-- Softuart_Readline returns it and leaves what is behind the line feed.
pub readline_lem :
    (max_len : ℕ) {s : Softuart} {w rest : List ℕ}
    → IsValid s
    → IsText w
    → queue s ≡ w ++ b'\n' ∷ rest
    → 0 < length w
    → length w < max_len
    → (s' : Softuart) × (readline max_len s ≡ some (w, s')) × IsValid s' × (queue s' ≡ rest)
readline_lem m {w = w} {rest = rest} v t q h h' = by_list m v (
    ap (readline_list m [] 0) q
    ∙ readline_list-text m 0 [] (b'\n' ∷ rest) t (omega arith)
    ∙ readline_list-end m (0 + length w) (reverse_aux w []) rest (omega arith))

-- When more text waits than fits, Softuart_Readline returns what fits and loses the character after it.
pub readline_loses :
    (c : ℕ) {s : Softuart} {w rest : List ℕ}
    → IsValid s
    → IsText w
    → c ≢ b'\r'
    → c ≢ b'\n'
    → queue s ≡ w ++ c ∷ rest
    → (s' : Softuart) × (readline (length w + 1) s ≡ some (w, s')) × IsValid s' × (queue s' ≡ rest)
readline_loses c {w = w} {rest = rest} v t r n q =
    let m = length w + 1 in
    by_list m v (
      ap (readline_list m [] 0) q
      ∙ readline_list-text m 0 [] (c ∷ rest) t (omega arith)
      ∙ ap (λ k. readline_list m (reverse_aux w []) k (c ∷ rest)) (omega arith)
      ∙ readline_list-full m c (reverse_aux w []) rest r n)
