-- ===== src/Sio/Read.antt =====
-- The receiving half of driver/sio.c.
use esp_slip_router.Prelude.{
  ℕ, ◌<◌, ◌≡◌, refl, ◌∙◌, ap, some, List, [], ◌∷◌, arith, length, length-take, take, drop, min, leb,
  Bool, true, ap₂, mod-eq_of_lt,
}
use esp_slip_router.Uart.{UartBuffer, uart_fifo_len, rx_buff_deq}
use esp_slip_router.Uart.Stream.{length-queue}
use esp_slip_router.Uart.Inv.{used, queue}
use esp_slip_router.Uart.Rx.{RxValid, rx_buff_deq_lem}
use esp_slip_router.Sio.{Sio, Event, sio_tryread, sio_recv, read_len, read_loop, sio_read, with_rx}

-- `sio_tryread` of a length below 65536 hands out the oldest bytes of a valid buffer, as many as are
-- asked for and wait.
pub sio_tryread_lem :
    (len : ℕ) (s : Sio)
    → RxValid s.rx
    → len < 65536
    → (s' : Sio) × (sio_tryread len s ≡ (take (min (used s.rx) len) (queue s.rx), s'))
      × RxValid s'.rx
      × (queue s'.rx ≡ drop (min (used s.rx) len) (queue s.rx))
unfolding sio_tryread
sio_tryread_lem len s r h =
    let (rx', ran, taken, r') = rx_buff_deq_lem len r in
    (
      with_rx s rx' (leb uart_fifo_len rx'.space),
      ap (λ n. tried (rx_buff_deq s.rx n)) (mod-eq_of_lt h) ∙ ap tried ran,
      r',
      taken.bytes,
    )
  where
    tried : List ℕ × UartBuffer × Bool → List ℕ × Sio
    tried (bytes, rx, enables) = (bytes, with_rx s rx enables)

read_len_0 : (bytes : List ℕ) (s : Sio) → 0 < length bytes → read_len (bytes, s) ≡ 0
unfolding read_len
read_len_0 bytes s h = ground arith

read_loop_ends :
    (es : List Event) (len : ℕ) (s : Sio) {bytes : List ℕ} {s' : Sio}
    → sio_tryread len s ≡ (bytes, s')
    → 0 < length bytes
    → read_loop es len s ≡ some (0, bytes, s')
unfolding read_loop
read_loop_ends [] len s e h = rw (e, read_len_0 _ _ h) refl
read_loop_ends (x ∷ es) len s e h = rw (e, read_len_0 _ _ h) refl

-- When bytes wait in a valid buffer, which the one that uart_init makes never holds, `sio_read` of a positive length below 65536 ends at once and
-- hands out the oldest, as many as are asked for and wait, but it returns 0.
pub sio_read_returns_0 :
    (es : List Event) (len : ℕ) (s : Sio)
    → RxValid s.rx
    → 0 < used s.rx
    → 0 < len
    → len < 65536
    → (s' : Sio) × (sio_read es len s ≡ some (0, take (min (used s.rx) len) (queue s.rx), s'))
      × RxValid s'.rx
      × (queue s'.rx ≡ drop (min (used s.rx) len) (queue s.rx))
unfolding sio_read
sio_read_returns_0 es len s r some_wait pos h =
    let (s', ran, r', rest) = sio_tryread_lem len (record s { uart_poll = true }) r h in
    let count : length (take (min (used s.rx) len) (queue s.rx)) ≡ min (used s.rx) len =
      omega (arith, length-take (min (used s.rx) len) (queue s.rx), length-queue s.rx) in
    (s', read_loop_ends es len _ ran (omega (arith, count, length-queue s.rx)), r', rest)

recv_ends :
    (es : List Event) (s : Sio) {c : ℕ} {s' : Sio}
    → sio_tryread 1 s ≡ (c ∷ [], s')
    → sio_recv es s ≡ some (c, s')
unfolding sio_recv
recv_ends [] s e = rw e refl
recv_ends (x ∷ es) s e = rw e refl

-- `sio_recv` takes the oldest byte of a valid buffer when one waits.
pub sio_recv_lem :
    (es : List Event) (s : Sio) {c : ℕ} {cs : List ℕ}
    → RxValid s.rx
    → queue s.rx ≡ c ∷ cs
    → (s' : Sio) × (sio_recv es s ≡ some (c, s')) × RxValid s'.rx × (queue s'.rx ≡ cs)
sio_recv_lem es s {c} {cs} r e =
    let (s', ran, r', rest) = sio_tryread_lem 1 s r (omega arith) in
    let one : min (used s.rx) 1 ≡ 1 = omega (arith, length-queue s.rx, ap length e) in
    let first : sio_tryread 1 s ≡ (c ∷ [], s') = ran ∙ ap₂ (λ n l. (take n l, s')) one e in
    (s', recv_ends es s first, r', rest ∙ ap₂ drop one e)
