-- ===== src/Console/Wide.antt =====
-- The words of a line of bytes are bytes, so that a whole command of user/user_main.c keeps the widths of
-- the configuration's fields.
use esp_slip_router.Prelude.{
  ℕ, zero, suc, ◌+◌, ◌<◌, ◌≡◌, Bool, true, false, some, List, [], ◌∷◌, on_if, arith, ◌==◌, leb,
}
use mathlib.Core.List.{reverse_aux}
use esp_slip_router.Text.{c_str}
use esp_slip_router.Ringbuf.{Ringbuf}
use esp_slip_router.Console.Tokens.{
  back, unquoted, unquote, hex_byte, cut, parse_str_into_tokens, rub_out, cmd_line, command_tokens,
}
use esp_slip_router.Console.Types.{Console, Env}
use esp_slip_router.Console.Commands.{is_reset, word, console_handle_command}
use esp_slip_router.Console.Rings.{Holds}
use esp_slip_router.Console.Shape.{AreBytes, no_bytes, more_bytes, IsConfig}
use esp_slip_router.Console.Widths.{answer-IsConfig}
use esp_slip_router.Console.Answer.{ended, replied, console_handle_command_lem}

back-AreBytes : {a : List ℕ} → AreBytes a → AreBytes (back a)
back-AreBytes no_bytes = no_bytes
back-AreBytes (more_bytes h p) = p

reverse_aux-AreBytes : {a r : List ℕ} → AreBytes a → AreBytes r → AreBytes (reverse_aux a r)
reverse_aux-AreBytes no_bytes q = q
reverse_aux-AreBytes (more_bytes h p) q = reverse_aux-AreBytes p (more_bytes h q)

c_str-AreBytes : {a : List ℕ} → AreBytes a → AreBytes (c_str a)
c_str-AreBytes no_bytes = no_bytes
c_str-AreBytes (more_bytes {b = b} h p) =
    on_if AreBytes (b == 0) no_bytes (more_bytes h (c_str-AreBytes p))

rub_out-AreBytes :
    {line : List ℕ} → AreBytes line → (out : List ℕ) → AreBytes out → AreBytes (rub_out out line)
unfolding rub_out
rub_out-AreBytes no_bytes out o = o
rub_out-AreBytes (more_bytes {b = b} h p) out o =
    rub_out-AreBytes p _ (on_if AreBytes (b == 8) (back-AreBytes o) (more_bytes h o))

unquoted-AreBytes : {c : ℕ} {out : List ℕ} → c < 256 → AreBytes out → AreBytes (unquoted c out)
unfolding unquoted
unquoted-AreBytes {c} h o =
    on_if AreBytes (c == 8) (back-AreBytes o)
      (on_if AreBytes (leb c 32) (more_bytes (omega arith) o) (more_bytes h o))

hex_byte-lt : (h l : ℕ) → hex_byte h l < 256
unfolding hex_byte
hex_byte-lt h l = omega arith

unquote-AreBytes :
    (str : List ℕ) → AreBytes str → (out : List ℕ) → AreBytes out → AreBytes (unquote out str)
unfolding unquote
unquote-AreBytes [] p out o = o
unquote-AreBytes (c ∷ []) (more_bytes h p) out o = unquoted-AreBytes h o
unquote-AreBytes (c ∷ d ∷ []) (more_bytes h (more_bytes h' p)) out o =
    on_if AreBytes (c == b'\\') (more_bytes h' o)
      (unquote-AreBytes (d ∷ []) (more_bytes h' p) _ (unquoted-AreBytes h o))
unquote-AreBytes (c ∷ d ∷ e ∷ str) (more_bytes h (more_bytes h' (more_bytes h'' p))) out o =
    on_if AreBytes (c == b'%') (unquote-AreBytes str p _ (more_bytes (hex_byte-lt d e) o)) (
      on_if AreBytes (c == b'\\')
        (unquote-AreBytes (e ∷ str) (more_bytes h'' p) _ (more_bytes h' o))
        (unquote-AreBytes (d ∷ e ∷ str) (more_bytes h' (more_bytes h'' p)) _
          (unquoted-AreBytes h o)))

-- each of the words
data AllBytes : List (List ℕ) → Type 0 where
  no_words : AllBytes []
  more_words : {w : List ℕ} {ws : List (List ℕ)} → AreBytes w → AllBytes ws → AllBytes (w ∷ ws)

cut-AllBytes : (m k : ℕ) (b : Bool) {str : List ℕ} → AreBytes str → AllBytes (cut m k b str)
unfolding cut
cut-AllBytes m k b no_bytes = no_words
cut-AllBytes m k b (more_bytes {b = c} h p) = on_if AllBytes (c == 0) (cut-AllBytes m k false p) (
    on_if AllBytes b (cut-AllBytes m k true p) (
      more_words (c_str-AreBytes (more_bytes h p))
        (on_if AllBytes (k + 1 == m) no_words (cut-AllBytes m (k + 1) true p))))

word-AreBytes : (i : ℕ) {ws : List (List ℕ)} → AllBytes ws → AreBytes (word ws i)
word-AreBytes i no_words = no_bytes
word-AreBytes zero (more_words p q) = p
word-AreBytes (suc i) (more_words p q) = word-AreBytes i q

command_tokens-AllBytes : {line : List ℕ} → AreBytes line → AllBytes (command_tokens line)
unfolding command_tokens parse_str_into_tokens cmd_line
command_tokens-AllBytes {line} p =
    let typed = c_str-AreBytes (reverse_aux-AreBytes (rub_out-AreBytes p [] no_bytes) no_bytes) in
    cut-AllBytes 6 0 false (reverse_aux-AreBytes (unquote-AreBytes _ typed [] no_bytes) no_bytes)

ended-IsConfig :
    {S : Type 0} (b : Bool) (conn : ℕ) (tx : Ringbuf) (c : Console S)
    → IsConfig c.config
    → IsConfig (ended b conn tx c).config
ended-IsConfig true conn tx c v = v
ended-IsConfig false conn tx c v = v

-- the widths after the reply to a line
pub replied-IsConfig :
    {S : Type 0} (env : Env S) (conn : ℕ) (c : Console S) (line : List ℕ) (rx : Ringbuf)
    → AreBytes line
    → ((s : List ℕ) → env.ipaddr_addr s < 4294967296)
    → IsConfig c.config
    → IsConfig (replied env conn line rx c).1.config
replied-IsConfig env conn c line rx b a v =
    answer-IsConfig env a (record c { console_rx_buffer = rx }) v conn (command_tokens line)
      (word-AreBytes 2 (command_tokens-AllBytes b))

-- When a command is handled whose line consists of bytes, each field of the configuration fits in its type again,
-- also after a string that is longer than its array.
pub console_handle_command-IsConfig :
    {S : Type 0} (env : Env S) (conn : ℕ) (c : Console S) {n m : ℕ} {line out : List ℕ}
    → Holds c.console_rx_buffer n line
    → Holds c.console_tx_buffer m out
    → AreBytes line
    → ((s : List ℕ) → env.ipaddr_addr s < 4294967296)
    → IsConfig c.config
    → (c' : Console S) × (console_handle_command env conn c ≡ some c') × IsConfig c'.config
console_handle_command-IsConfig env conn c {line = line} hr ht b a v =
    let (rx, tx, e, _, _) = console_handle_command_lem env conn c hr ht in
    (
      ended (is_reset (command_tokens line)) conn tx (replied env conn line rx c).1,
      e,
      ended-IsConfig (is_reset (command_tokens line)) conn tx (replied env conn line rx c).1
          (replied-IsConfig env conn c line rx b a v),
    )
