-- ===== src/Softuart/Timing.antt =====
-- The bit time of driver/softuart.c, and the pin of an interrupt.
use esp_slip_router.Prelude.{
  ℕ, ◌+◌, ◌*◌, ◌/◌, ◌%◌, ◌<◌, ◌≤◌, ◌≡◌, ltb, arith, Bool-cases, inl, inr, ltb→lt, dec_le, u16,
  sub32, mod-lt,
}
use native.Mathlib.Nat.{div-add-mod, div-le_self, div-le_of_le-mul, mul-le-mul_left}
use esp_slip_router.Softuart.{bit_time_of}

-- what a quotient by hundredths says of the remainder
module _ (b q r p r' : ℕ) (e : b * q + r ≡ 1000000) (e' : b * p + r' ≡ 100000000) (h : r < b)
    (h' : r' < b) where
  above : 50 + 100 * q < p → 51 * b ≤ 100 * r
  above l = omega (arith, mul-le-mul_left {m = 51 + 100 * q} {n = p} b (omega arith))

  below : p ≤ 50 + 100 * q → 100 * r < 51 * b
  below l = omega (arith, mul-le-mul_left {m = p} {n = 50 + 100 * q} b l)

  hundredths : 100 * q ≤ p
  hundredths = elim (dec_le (100 * q) p) [
    | yes l ↦ l
    | no l ↦ absurd (omega (arith, mul-le-mul_left {m = p + 1} {n = 100 * q} b (omega arith)))
  ]

-- The bit time of a rate from 16 baud up is within 0.51 microseconds of the exact one: it is at most 0.49
-- above it and less than 0.51 below it.
pub bit_time_lem :
    (baudrate : ℕ)
    → 16 ≤ baudrate
    → (100 * (baudrate * bit_time_of baudrate) ≤ 100000000 + 49 * baudrate)
      × (100000000 < 100 * (baudrate * bit_time_of baudrate) + 51 * baudrate)
unfolding bit_time_of
bit_time_lem baudrate h = elim (Bool-cases (ltb 50 (sub32 p (100 * u16 q)))) [
  | inl t ↦
      let l = above baudrate q r p r' e e' lr lr' (
        omega (
          arith,
          ltb→lt 50 (sub32 p (100 * u16 q)) t,
          small,
          few,
          hundredths baudrate q r p r' e e' lr lr',
        )) in
      let one_more : u16 (u16 q + 1) ≡ q + 1 = omega (arith, small) in
      rw t (rw one_more (omega (arith, e, l, lr), omega (arith, e, l, lr)))
  | inr t ↦
      let nt : sub32 p (100 * u16 q) ≤ 50 = ground arith in
      let l =
        below baudrate q r p r' e e' lr lr'
          (omega (arith, nt, small, few, hundredths baudrate q r p r' e e' lr lr')) in
      let same : u16 q ≡ q = omega (arith, small) in
      rw t (rw same (omega (arith, e, l), omega (arith, e, l)))
]
  where
    q : ℕ
    q = 1000000 / baudrate

    r : ℕ
    r = 1000000 % baudrate

    p : ℕ
    p = 100000000 / baudrate

    r' : ℕ
    r' = 100000000 % baudrate

    e : baudrate * q + r ≡ 1000000
    e = div-add-mod 1000000 baudrate

    e' : baudrate * p + r' ≡ 100000000
    e' = div-add-mod 100000000 baudrate

    lr : r < baudrate
    lr = mod-lt 1000000 (omega arith)

    lr' : r' < baudrate
    lr' = mod-lt 100000000 (omega arith)

    small : q ≤ 62500
    small = div-le_of_le-mul baudrate {m = 1000000} {n = 62500} (omega arith)

    few : p ≤ 100000000
    few = div-le_self 100000000 baudrate
