-- ===== src/Registers/Kept.antt =====
-- What a write to one register does not change.
use esp_slip_router.Registers.{
  address, Conf, conf0, conf1, int_ena, Call, Peripherals, IsHolding, uart_int_clr,
}
use esp_slip_router.Prelude.{ℕ, ◌<◌, false, ◌≡◌, ◌≢◌, ◌==◌, ◌∙◌, arith}

-- Different ports, and different registers of a port, have different addresses.
pub apart : (q r : Conf) (n m : ℕ) → n ≢ m → (address q n == address r m) ≡ false
apart conf0 conf0 n m h = ground arith
apart conf0 conf1 n m h = ground arith
apart conf0 int_ena n m h = ground arith
apart conf1 conf0 n m h = ground arith
apart conf1 conf1 n m h = ground arith
apart conf1 int_ena n m h = ground arith
apart int_ena conf0 n m h = ground arith
apart int_ena conf1 n m h = ground arith
apart int_ena int_ena n m h = ground arith

pub conf1-conf0 : (n : ℕ) → (address conf1 n == address conf0 n) ≡ false
conf1-conf0 n = ground arith

pub conf0-conf1 : (n : ℕ) → (address conf0 n == address conf1 n) ≡ false
conf0-conf1 n = ground arith

pub int_ena-conf0 : (n : ℕ) → (address int_ena n == address conf0 n) ≡ false
int_ena-conf0 n = ground arith

pub conf0-int_ena : (n : ℕ) → (address conf0 n == address int_ena n) ≡ false
conf0-int_ena n = ground arith

pub int_clr-address : (r : Conf) (n m : ℕ) → (uart_int_clr n == address r m) ≡ false
int_clr-address conf0 n m = ground arith
int_clr-address conf1 n m = ground arith
int_clr-address int_ena n m = ground arith

module _ {S : Type 0} (p : Peripherals S) where
  -- the register `r` of UART `n` holds the same in both states
  abbrev pub Kept : Conf → ℕ → S → S → Type 0
  Kept r n s t = (b : ℕ) → b < 32 → p.bit t (address r n) b ≡ p.bit s (address r n) b

module _ {S : Type 0} (p : Peripherals S) (hold : IsHolding p) where
  pub kept-call :
      (r : Conf) (n : ℕ) (s t : S) (c : Call) → n < 2 → Kept p r n s t → Kept p r n s (p.call t c)
  kept-call r n s t c hn k b hb = hold.bit-call t c r n b hn hb ∙ k b hb

  pub kept-write :
      (r : Conf) (n : ℕ) (s t : S) (a v : ℕ)
      → n < 2
      → (a == address r n) ≡ false
      → Kept p r n s t
      → Kept p r n s (p.write t a v)
  kept-write r n s t a v hn e k b hb = rw (hold.bit-write t a v r n b hn hb, e) (k b hb)

  pub kept-set_mask :
      (r : Conf) (n : ℕ) (s t : S) (a v : ℕ)
      → n < 2
      → (a == address r n) ≡ false
      → Kept p r n s t
      → Kept p r n s (p.set_mask t a v)
  kept-set_mask r n s t a v hn e k b hb = rw (hold.bit-set_mask t a v r n b hn hb, e) (k b hb)

  pub kept-clear_mask :
      (r : Conf) (n : ℕ) (s t : S) (a v : ℕ)
      → n < 2
      → (a == address r n) ≡ false
      → Kept p r n s t
      → Kept p r n s (p.clear_mask t a v)
  kept-clear_mask r n s t a v hn e k b hb = rw (hold.bit-clear_mask t a v r n b hn hb, e) (k b hb)

  pub kept-set_bits :
      (r : Conf) (n : ℕ) (s t : S) (a m v i : ℕ)
      → n < 2
      → (a == address r n) ≡ false
      → Kept p r n s t
      → Kept p r n s (p.set_bits t a m v i)
  kept-set_bits r n s t a m v i hn e k b hb =
      rw (hold.bit-set_bits t a m v i r n b hn hb, e) (k b hb)
