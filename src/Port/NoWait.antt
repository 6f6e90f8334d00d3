-- ===== src/Port/NoWait.antt =====
-- os_printf of UART0 (driver/uart.c) against the bounded queue of the transmit path.
use esp_slip_router.Prelude.{ℕ, List, [], ◌∷◌, ◌==◌, Bool-cases, inl, inr, map}
use esp_slip_router.Uart.{Uart}
use esp_slip_router.Uart.Stream.{TxQueue, TxEvent, Implements, write, spec_run, write-Implements}
use esp_slip_router.Port.{uart0_write_char_no_wait}
use esp_slip_router.Port.Sends.{printed}

-- one write for each byte
abbrev pub writes : List ℕ → List TxEvent
writes bytes = map (λ c. write (c ∷ [])) bytes

-- `uart0_write_char_no_wait` is one write for each byte that is printed for the character: carriage
-- return and line feed for a line feed, nothing for a carriage return, and else the character.
pub uart0_write_char_no_wait-Implements :
    (heap : ℕ) (storage : ℕ → List ℕ) (c : ℕ) (u : Uart) {cap : ℕ} {q : TxQueue}
    → Implements cap u q
    → Implements cap
        (uart0_write_char_no_wait heap storage c u)
        (spec_run cap q (writes (printed c)))
unfolding uart0_write_char_no_wait printed spec_run
uart0_write_char_no_wait-Implements heap storage c u i = elim (Bool-cases (c == b'\n')) [
  | inl e ↦
      rw e
        (write-Implements heap storage (b'\n' ∷ []) (write-Implements heap storage (b'\r' ∷ []) i))
  | inr e ↦ elim (Bool-cases (c == b'\r')) [
    | inl f ↦ rw (e, f) i
    | inr f ↦ rw (e, f) (write-Implements heap storage (c ∷ []) i)
  ]
]
