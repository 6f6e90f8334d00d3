-- ===== src/Uart/Tests.antt =====
-- Runs of the buffers of driver/uart.c, and their theorems at concrete buffers.
use esp_slip_router.Prelude.{ℕ, ◌≡◌, refl, true, false, some, List, [], ◌∷◌, ◌++◌, arith, replicate}
use esp_slip_router.Uart.{Uart, UartBuffer, IntStatus, tx_buff_enq}
use esp_slip_router.Uart.Inv.{IsValid, queue}
use esp_slip_router.Uart.Rx.{RxValid}
use esp_slip_router.Uart.Stream.{
  TxEvent, write, fifo_empty, TxQueue, Implements, run, spec_run, accepted, run-Implements,
  run-accepted,
}

abbrev blank : ℕ → List ℕ
blank n = replicate n 0

-- four bytes, 8 and 9 of them in use, round the end
abbrev wrapped : UartBuffer
wrapped = record {
  uart_buff_size = 4;
  uart_buff = 9 ∷ 6 ∷ 7 ∷ 8 ∷ [];
  in_pos = 1;
  out_pos = 3;
  space = 2;
}

abbrev idle : UartBuffer
idle = record {
  uart_buff_size = 4;
  uart_buff = 0 ∷ 0 ∷ 0 ∷ 0 ∷ [];
  in_pos = 3;
  out_pos = 3;
  space = 4;
}

abbrev uart : Uart
uart = record {
  tx_buffer = some wrapped;
  sent = 1 ∷ [];
  rx_fifo = 5 ∷ 6 ∷ [];
  tx_empty_int = true;
  uart_int = true;
  signals = 0;
}

abbrev tx_queue : TxQueue
tx_queue = record { pending = 8 ∷ 9 ∷ []; sent = 1 ∷ [] }

wrapped-IsValid : IsValid wrapped
wrapped-IsValid = omega arith

wrapped-RxValid : RxValid wrapped
wrapped-RxValid = omega arith

idle-RxValid : RxValid idle
idle-RxValid = omega arith

uart-Implements : Implements 4 uart tx_queue
uart-Implements = record {
  b = wrapped;
  buffer = refl;
  valid = wrapped-IsValid;
  size = refl;
  waiting = refl;
  sent = refl;
  live = λ _. refl;
}

abbrev events : List TxEvent
events = write (2 ∷ 3 ∷ []) ∷ write (4 ∷ []) ∷ fifo_empty 126 ∷ write (7 ∷ []) ∷ fifo_empty 0 ∷ []

run_runs : (run 0 blank uart events).sent ≡ 1 ∷ 8 ∷ 9 ∷ 2 ∷ 3 ∷ 7 ∷ []
unfolding run tx_buff_enq
run_runs = refl

run-Implements_example : Implements 4 (run 0 blank uart events) (spec_run 4 tx_queue events)
run-Implements_example = run-Implements 0 blank events (omega arith) uart-Implements

run-accepted_example :
    (b : UartBuffer) × ((run 0 blank uart events).tx_buffer ≡ some b)
    × ((run 0 blank uart events).sent ++ queue b ≡ (1 ∷ 8 ∷ 9 ∷ []) ++ accepted 4 tx_queue events)
run-accepted_example = run-accepted 0 blank events (omega arith) uart-Implements

abbrev timeout_only : IntStatus
timeout_only = record {
  frm_err = false;
  rxfifo_full = false;
  rxfifo_tout = true;
  txfifo_empty = true;
  rxfifo_ovf = false;
}
