-- ===== src/Console/Rings.antt =====
-- What user/user_main.c does to its two rings, as lists of bytes.
use esp_slip_router.Prelude.{
  ℕ, ◌-◌, ◌≤◌, ◌≡◌, refl, sym, ◌∙◌, ap, some, List, [], ◌∷◌, ◌++◌, append_assoc, append-nil, arith,
  length, length-append, length-drop, take-length, drop, append-drop, drop-drop, drop-length,
}
use esp_slip_router.Ringbuf.{Ringbuf, moved, reset, memcpy_into, memcpy_from, bytes_used, capacity}
use esp_slip_router.Window.{window, length-window}
use esp_slip_router.Ringbuf.Inv.{IsValid, contents, capacity-size, used-le, reset_lem}
use esp_slip_router.Ringbuf.Into.{keep, memcpy_into_lem}
use esp_slip_router.Ringbuf.From.{memcpy_from_lem}
use esp_slip_router.Console.Commands.{print}

-- a valid ring of a capacity, with the bytes that it holds
pub record Holds (rb : Ringbuf) (room : ℕ) (bytes : List ℕ) : Type 0 where
  pub valid : IsValid rb
  pub space : capacity rb ≡ room
  pub held : contents rb ≡ bytes

pub length-Holds :
    {rb : Ringbuf} {room : ℕ} {bytes : List ℕ} → Holds rb room bytes → length bytes ≤ room
length-Holds {rb} {room} {bytes} h = rw (← h.held) (
    omega (
      arith,
      length-window rb.buf rb.size rb.tail (bytes_used rb),
      used-le h.valid,
      capacity-size h.valid,
      h.space,
    ))

pub into-Holds :
    {rb : Ringbuf} {room : ℕ} {bytes : List ℕ} (src : List ℕ)
    → Holds rb room bytes
    → (rb' : Ringbuf) × (memcpy_into rb src ≡ some rb') × Holds rb' room (keep room (bytes ++ src))
into-Holds {rb} {room} {bytes} src h =
    let (rb', e, v, c, l) = memcpy_into_lem src h.valid in
    (
      rb',
      e,
      record {
        valid = v;
        space = c ∙ h.space;
        held =
            l
            ∙ ap (λ k. keep k (contents rb ++ src)) h.space
            ∙ ap (λ b. keep room (b ++ src)) h.held;
      },
    )

pub keep-all : (n : ℕ) (xs : List ℕ) → length xs ≤ n → keep n xs ≡ xs
keep-all n xs h = let e : length xs - n ≡ 0 = omega arith in rw e

pub keep-keep : (n : ℕ) (xs ys : List ℕ) → keep n (keep n xs ++ ys) ≡ keep n (xs ++ ys)
keep-keep n xs ys =
    let k = length xs - n in
    ap (λ l. keep n l) (sym (append-drop k xs ys (omega arith)))
    ∙ drop-drop (length (drop k (xs ++ ys)) - n) k (xs ++ ys)
    ∙ ap (λ i. drop i (xs ++ ys)) (omega (arith, length-drop k (xs ++ ys), length-append xs ys))

-- the texts one after the other
abbrev pub concat : List (List ℕ) → List ℕ
concat [] = []
concat (t ∷ texts) = t ++ concat texts

pub print-Holds :
    (texts : List (List ℕ)) {rb : Ringbuf} {room : ℕ} {bytes : List ℕ}
    → Holds rb room bytes
    → (rb' : Ringbuf) × (print texts rb ≡ some rb')
      × Holds rb' room (keep room (bytes ++ concat texts))
unfolding print
print-Holds [] {rb} {room} {bytes} h = (
  rb,
  refl,
  record {
    valid = h.valid;
    space = h.space;
    held = h.held ∙ sym (ap (keep room) (append-nil bytes) ∙ keep-all room bytes (length-Holds h));
  },
)
print-Holds (t ∷ texts) {rb} {room} {bytes} h =
    let (rb', e, h') = into-Holds t h in
    let (rb'', e', h'') = print-Holds texts h' in
    (
      rb'',
      rw (e, print) e',
      record {
        valid = h''.valid;
        space = h''.space;
        held =
            h''.held
            ∙ keep-keep room (bytes ++ t) (concat texts)
            ∙ ap (keep room) (append_assoc bytes t (concat texts));
      },
    )

-- everything that a ring holds is taken
pub drain-Holds :
    {rb : Ringbuf} {room : ℕ} {bytes : List ℕ}
    → Holds rb room bytes
    → (rb' : Ringbuf) × (memcpy_from rb (bytes_used rb) ≡ moved (rb', bytes)) × Holds rb' room []
drain-Holds {rb} {room} {bytes} h =
    let (rb', e, v, c, u, l) = memcpy_from_lem (bytes_used rb) h.valid (omega arith) in
    let n = length-window rb.buf rb.size rb.tail (bytes_used rb) in
    (
      rb',
      e
          ∙ ap (λ b. moved (rb', b))
              (take-length (bytes_used rb) (contents rb) (omega (arith, n)) ∙ h.held),
      record {
        valid = v;
        space = c ∙ h.space;
        held = l ∙ drop-length (bytes_used rb) (contents rb) (omega (arith, n));
      },
    )

pub reset-Holds :
    {rb : Ringbuf} {room : ℕ} {bytes : List ℕ} → Holds rb room bytes → Holds (reset rb) room []
reset-Holds {rb} h =
    let (v, u, c) = reset_lem h.valid in
    record {
      valid = v;
      space = c ∙ h.space;
      held = ap (λ n. window (reset rb).buf (reset rb).size (reset rb).tail n) u;
    }
