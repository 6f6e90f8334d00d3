-- ===== src/Softuart/Receive.antt =====
-- A byte from one port of driver/softuart.c over a line to the receive ring of another.
use esp_slip_router.Prelude.{
  ℕ, zero, suc, ◌+◌, ◌*◌, ◌/◌, ◌≤◌, ◌<◌, ◌≡◌, refl, ◌∙◌, ap, some, none, Option, false, List, [],
  ◌∷◌, ◌++◌, length, get_or, set, arith, ◌==◌, if◌then◌else◌,
}
use esp_slip_router.Softuart.{Softuart, Edge, bitcount, sample, shift_in, store_byte, putchar}
use esp_slip_router.Softuart.Clock.{masked, wait, Early, wait_lem}
use esp_slip_router.Softuart.Interrupt.{sample_bits, receive, intr_handler}
use esp_slip_router.Softuart.Queue.{IsValid, queue, store_byte_lem}
use esp_slip_router.Softuart.Frame.{level_at, data_levels, putchar_lem}

-- A line that was idle has the levels of the edges from `begin` on, which a sender sets `bit_time`
-- microseconds apart.
pub record Carries (line : ℕ → ℕ) (begin bit_time : ℕ) (edges : List Edge) : Type 0 where
  pub level :
      (slot t : ℕ)
      → begin + bit_time * slot ≤ t
      → t < begin + bit_time * (slot + 1)
      → line t ≡ level_at slot 1 edges

-- The looks for `n` bits from the `i`-th on, while the clock does not overflow: each loop looks at the
-- clock until the bit's time has come, and the pin is looked at `late` microseconds after that time
-- at most.
pub data Looks (start bit_time late : ℕ) : ℕ → ℕ → List ℕ → Type 0 where
  no_look : {i : ℕ} → Looks start bit_time late i 0 []
  one_look :
      {i n : ℕ} (t at : ℕ) (early rest : List ℕ)
      → Early start (start + bit_time * (i + 1)) early
      → start + bit_time * (i + 1) ≤ masked t
      → start + bit_time * (i + 1) ≤ at
      → at ≤ start + bit_time * (i + 1) + late
      → Looks start bit_time late (i + 1) n rest
      → Looks start bit_time late i (suc n) (early ++ t ∷ at ∷ rest)

-- the levels of `n` bit times from `slot` on
abbrev slots : List Edge → ℕ → ℕ → List ℕ
slots edges zero slot = []
slots edges (suc n) slot = level_at slot 1 edges ∷ slots edges n (slot + 1)

eight : (byte : ℕ) → sample 0 (slots (putchar byte) 8 1) ≡ sample 0 (data_levels (putchar byte))
unfolding data_levels
eight byte = refl

-- The place of the samples within the sender's bit times.
record Inside (begin sent_time start bit_time late i : ℕ) : Type 0 where
  from : begin + sent_time * (i + 1) ≤ start + bit_time * (i + 1)
  to : start + bit_time * (i + 1) + late < begin + sent_time * (i + 1 + 1)

next_sample :
    (line : ℕ → ℕ) (start bit_time n i d at : ℕ) (later looks : List ℕ)
    → wait start (start + bit_time * (i + 1)) looks ≡ some (at ∷ later)
    → sample_bits line start bit_time (suc n) i d looks
      ≡ sample_bits line start bit_time n (i + 1) (shift_in d (line at)) later
unfolding sample_bits
next_sample line start bit_time n i d at later looks e = rw (e, sample_bits) refl

-- The samples are the levels of the bit times, as long as each falls inside its own.
samples :
    {line : ℕ → ℕ} {begin sent_time start bit_time late : ℕ} {edges : List Edge} (n i d : ℕ)
    {looks : List ℕ}
    → Carries line begin sent_time edges
    → ((j : ℕ) → j < i + n → Inside begin sent_time start bit_time late j)
    → Looks start bit_time late i n looks
    → sample_bits line start bit_time n i d looks ≡ some (sample d (slots edges n (i + 1)))
unfolding sample_bits sample
samples zero i d c inside no_look = refl
samples {line} {begin} {sent_time} {start} {bit_time} {late} {edges} (suc n) i d c inside
      (one_look t at early rest e reached from to more) =
    let here = inside i (omega arith) in
    let level = c.level (i + 1) at (omega (arith, here.from, from)) (omega (arith, here.to, to)) in
    next_sample line start bit_time n i d at rest (early ++ t ∷ at ∷ rest)
      (wait_lem t (at ∷ rest) e reached)
    ∙ samples n (i + 1) (shift_in d (line at)) c (λ j h. inside j (omega arith)) more
    ∙ ap (λ l. some (sample (shift_in d l) (slots edges n (i + 1 + 1)))) level

-- Half a bit time after the start, the samples fall inside the bit times of a sender whose bit time
-- is not too different.
centred :
    {begin sent_time now bit_time late : ℕ}
    → begin ≤ now
    → now + bit_time / 2 + bit_time + late < begin + 2 * sent_time
    → now + bit_time / 2 + 8 * bit_time + late < begin + 9 * sent_time
    → 8 * sent_time ≤ 8 * bit_time + bit_time / 2
    → (j : ℕ) → j < 8
    → Inside begin sent_time (now + bit_time / 2) bit_time late j
centred b h k l zero lt = record { from = omega arith; to = omega arith }
centred b h k l (suc zero) lt = record { from = omega arith; to = omega arith }
centred b h k l (suc (suc zero)) lt = record { from = omega arith; to = omega arith }
centred b h k l (suc (suc (suc zero))) lt = record { from = omega arith; to = omega arith }
centred b h k l (suc (suc (suc (suc zero)))) lt = record { from = omega arith; to = omega arith }
centred b h k l (suc (suc (suc (suc (suc zero))))) lt = record {
  from = omega arith;
  to = omega arith;
}
centred b h k l (suc (suc (suc (suc (suc (suc zero)))))) lt = record {
  from = omega arith;
  to = omega arith;
}
centred b h k l (suc (suc (suc (suc (suc (suc (suc zero))))))) lt = record {
  from = omega arith;
  to = omega arith;
}
centred b h k l (suc (suc (suc (suc (suc (suc (suc (suc j)))))))) lt = absurd (omega arith)

-- the handler on a start bit at a pin with a port
handled :
    (status now d : ℕ) (line : ℕ → ℕ) (looks : List ℕ) (instances : List (Option Softuart))
    {s : Softuart}
    → (bitcount status == 255) ≡ false
    → get_or instances (bitcount status) none ≡ some s
    → line now ≡ 0
    → sample_bits line (masked (now + s.bit_time / 2)) s.bit_time 8 0 0 looks ≡ some d
    → intr_handler status line (now ∷ looks) instances
      ≡ some (set instances (bitcount status) (some (store_byte d s)))
unfolding intr_handler receive
handled status now d line looks instances e e' low got =
    rw e (rw (e', intr_handler) (rw (low, receive) (rw (got, intr_handler) refl)))

-- When the start bit of a frame that Softuart_Putchar sends interrupts at a pin with a port, in whose
-- queue fewer than 63 bytes wait, Softuart_Intr_Handler appends the byte sent to that queue and
-- leaves the other ports. The clock does not overflow meanwhile, and the bit times of the sender and
-- of the port, the time from the start bit to the handler's look at the pin and the delays of the
-- looks after their times are such that half a bit time of the port makes up for the differences.
pub intr_handler-putchar :
    (status byte begin sent_time late now : ℕ) (line : ℕ → ℕ) (looks : List ℕ)
    (instances : List (Option Softuart)) {s : Softuart}
    → bitcount status < 255
    → get_or instances (bitcount status) none ≡ some s
    → IsValid s
    → byte < 256
    → length (queue s) < 63
    → Carries line begin sent_time (putchar byte)
    → begin ≤ now
    → now < begin + sent_time
    → now + s.bit_time / 2 < 2147483648
    → Looks (now + s.bit_time / 2) s.bit_time late 0 8 looks
    → now + s.bit_time / 2 + s.bit_time + late < begin + 2 * sent_time
    → now + s.bit_time / 2 + 8 * s.bit_time + late < begin + 9 * sent_time
    → 8 * sent_time ≤ 8 * s.bit_time + s.bit_time / 2
    → (s' : Softuart) × (intr_handler status line (now ∷ looks) instances
        ≡ some (set instances (bitcount status) (some s')))
      × IsValid s'
      × (queue s' ≡ queue s ++ byte ∷ [])
intr_handler-putchar status byte begin sent_time late now line looks instances {s} h e v b room c
      after before small seen first last slow =
    let r = store_byte_lem byte v in
    let free : (length (queue s) == 63) ≡ false = ground arith in
    let start : masked (now + s.bit_time / 2) ≡ now + s.bit_time / 2 = omega arith in
    let low : line now ≡ 0 = c.level 0 now (omega arith) (omega arith) ∙ (putchar_lem byte b).0 in
    let sampled : sample_bits line (masked (now + s.bit_time / 2)) s.bit_time 8 0 0 looks
        ≡ some byte =
      ap (λ t. sample_bits line t s.bit_time 8 0 0 looks) start
      ∙ samples 8 0 0 c (centred after first last slow) seen
      ∙ ap some (eight byte ∙ (putchar_lem byte b).1) in
    (
      store_byte byte s,
      handled status now byte line looks instances (ground arith) e low sampled,
      r.valid,
      r.bytes ∙ ap (λ t. if t then queue s else queue s ++ byte ∷ []) free,
    )
