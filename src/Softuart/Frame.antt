-- ===== src/Softuart/Frame.antt =====
-- The frame that Softuart_Putchar of driver/softuart.c puts on the line, and its byte as the receiver
-- samples it.
use esp_slip_router.Prelude.{
  ℕ, ◌+◌, ◌*◌, ◌/◌, ◌%◌, ◌<◌, ◌≡◌, refl, true, ◌≤◌, ◌∙◌, ap, List, [], ◌∷◌, map, leb, if◌then◌else◌,
  arith,
}
use esp_slip_router.Softuart.{Edge, putchar, sample, shift_in}

-- the level of the line in a bit time, by what was set last; `level` is the one before the edges
unfoldable pub level_at : ℕ → ℕ → List Edge → ℕ
level_at slot level [] = level
level_at slot level (e ∷ edges) = level_at slot (if leb e.after slot then e.high else level) edges

-- the levels of the data bits on a line that was idle, as Softuart_Intr_Handler samples them
unfoldable pub data_levels : List Edge → List ℕ
unfolding level_at
data_levels edges = map (λ slot. level_at slot 1 edges) (1 ∷ 2 ∷ 3 ∷ 4 ∷ 5 ∷ 6 ∷ 7 ∷ 8 ∷ [])

halve : (d m : ℕ) {b : ℕ} → d ≡ 2 * m → b < 2 → shift_in d b ≡ m + 128 * b
unfolding shift_in
halve d m e h = ground arith

gather :
    (a b c d e f g h : ℕ)
    → a < 2
    → b < 2
    → c < 2
    → d < 2
    → e < 2
    → f < 2
    → g < 2
    → h < 2
    → sample 0 (a ∷ b ∷ c ∷ d ∷ e ∷ f ∷ g ∷ h ∷ [])
      ≡ a + 2 * b + 4 * c + 8 * d + 16 * e + 32 * f + 64 * g + 128 * h
unfolding sample
gather a b c d e f g h pa pb pc pd pe pf pg ph =
    let s1 = halve 0 0 {b = a} refl pa in
    let s2 = halve (shift_in 0 a) (64 * a) {b = b} (s1 ∙ omega arith) pb in
    let s3 = halve (shift_in (shift_in 0 a) b) (32 * a + 64 * b) {b = c} (s2 ∙ omega arith) pc in
    let s4 =
      halve (shift_in (shift_in (shift_in 0 a) b) c) (16 * a + 32 * b + 64 * c) {b = d}
        (s3 ∙ omega arith) pd in
    let s5 =
      halve (sample 0 (a ∷ b ∷ c ∷ d ∷ [])) (8 * a + 16 * b + 32 * c + 64 * d) {b = e}
        (s4 ∙ omega arith) pe in
    let s6 =
      halve (sample 0 (a ∷ b ∷ c ∷ d ∷ e ∷ [])) (4 * a + 8 * b + 16 * c + 32 * d + 64 * e) {b = f}
        (s5 ∙ omega arith) pf in
    let s7 =
      halve (sample 0 (a ∷ b ∷ c ∷ d ∷ e ∷ f ∷ []))
        (2 * a + 4 * b + 8 * c + 16 * d + 32 * e + 64 * f) {b = g} (s6 ∙ omega arith) pg in
    let s8 =
      halve (sample 0 (a ∷ b ∷ c ∷ d ∷ e ∷ f ∷ g ∷ []))
        (a + 2 * b + 4 * c + 8 * d + 16 * e + 32 * f + 64 * g) {b = h} (s7 ∙ omega arith) ph in
    s8

levels :
    (byte : ℕ)
    → data_levels (putchar byte)
      ≡ byte / 1 % 2
        ∷ byte / 2 % 2
        ∷ byte / 4 % 2
        ∷ byte / 8 % 2
        ∷ byte / 16 % 2
        ∷ byte / 32 % 2
        ∷ byte / 64 % 2
        ∷ byte / 128 % 2
        ∷ []
unfolding data_levels putchar
levels byte = refl

-- The frame of a byte: the line is low in the first bit time, the receiver gets the byte from the samples in the
-- next eight, and the line is high after them.
pub putchar_lem :
    (byte : ℕ)
    → byte < 256
    → (level_at 0 1 (putchar byte) ≡ 0)
      × (sample 0 (data_levels (putchar byte)) ≡ byte)
      × ((slot : ℕ) → 9 ≤ slot → level_at slot 1 (putchar byte) ≡ 1)
unfolding putchar level_at
putchar_lem byte h = (
  refl,
  ap (sample 0) (levels byte)
      ∙ gather (byte / 1 % 2) (byte / 2 % 2) (byte / 4 % 2) (byte / 8 % 2) (byte / 16 % 2)
          (byte / 32 % 2) (byte / 64 % 2) (byte / 128 % 2) (omega arith) (omega arith) (omega arith)
          (omega arith) (omega arith) (omega arith) (omega arith) (omega arith)
      ∙ omega arith,
  λ slot l. let e : leb 9 slot ≡ true = ground arith in rw e refl,
)
