-- ===== src/Sio/Write.antt =====
-- The sending half of driver/sio.c against the bounded queue of the transmit path.
use esp_slip_router.Prelude.{
  ℕ, ◌<◌, ◌≡◌, sym, subst, List, [], ◌∷◌, arith, length, take, take-length, u16,
}
use esp_slip_router.Uart.{tx_buff_enq}
use esp_slip_router.Uart.Stream.{TxQueue, Implements, write, spec_step, write-Implements}
use esp_slip_router.Sio.{Sio, sio_send, sio_write}

module _ (heap : ℕ) (storage : ℕ → List ℕ) where
  -- `sio_send` is a write of one byte, which is dropped when the queue is full.
  pub sio_send-Implements :
      (c : ℕ) (s : Sio) {cap : ℕ} {q : TxQueue}
      → Implements cap s.uart q
      → Implements cap (sio_send heap storage c s).uart (spec_step cap q (write (c ∷ [])))
  unfolding sio_send
  sio_send-Implements c s i = write-Implements heap storage (c ∷ []) i

  -- `sio_write` of less than 65536 bytes is one write of them all, which is dropped whole when
  -- they do not fit.
  pub sio_write-Implements :
      (bytes : List ℕ) (s : Sio) {cap : ℕ} {q : TxQueue}
      → length bytes < 65536
      → Implements cap s.uart q
      → Implements cap (sio_write heap storage bytes s).uart (spec_step cap q (write bytes))
  unfolding sio_write
  sio_write-Implements bytes s {cap} {q} h i =
      let whole : take (u16 (length bytes)) bytes ≡ bytes =
        take-length (u16 (length bytes)) bytes (omega arith) in
      subst
        (λ l. Implements cap (tx_buff_enq heap storage s.uart l) (spec_step cap q (write bytes)))
        (sym whole) (write-Implements heap storage bytes i)
