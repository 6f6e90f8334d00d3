-- ===== src/Port/Tests.antt =====
-- The polling functions of driver/uart.c at concrete ports.
use esp_slip_router.Prelude.{inl, List, ℕ, true, arith, replicate, ◌≡◌, refl, some, [], ◌∷◌}
use esp_slip_router.Port.Wait.{wait_loop_lem, one_more, no_look}
use esp_slip_router.Port.{wait_loop, Port, Look, uart_tx_one_char, tx_loop, uart0_tx_buffer}
use esp_slip_router.Uart.{Uart}
use esp_slip_router.Uart.Stream.{TxQueue, Implements}
use esp_slip_router.Port.Sends.{Sends, ready, uart0_tx_buffer-Sends}

-- full at first, and ready twice
abbrev port : Port
port = record { counts = 128 ∷ 126 ∷ 125 ∷ 127 ∷ 3 ∷ []; sent = 1 ∷ [] }

buffer_runs :
    uart0_tx_buffer (7 ∷ 8 ∷ []) port ≡ some (record { counts = []; sent = 1 ∷ 7 ∷ 8 ∷ [] })
unfolding uart0_tx_buffer uart_tx_one_char tx_loop
buffer_runs = refl

uart0_tx_buffer-Sends_example : Sends (7 ∷ 8 ∷ []) port (uart0_tx_buffer (7 ∷ 8 ∷ []) port)
unfolding ready
uart0_tx_buffer-Sends_example = uart0_tx_buffer-Sends (7 ∷ 8 ∷ []) port (omega arith)

abbrev busy : Look
busy = record { tx_fifo_len = 3; tx_buff_len = 9; time = 100 }

abbrev late : Look
late = record { tx_fifo_len = 0; tx_buff_len = 1; time = 200 }

abbrev blank : ℕ → List ℕ
blank n = replicate n 0

-- one byte waits in a buffer of four
abbrev uart : Uart
uart = record {
  tx_buffer = some (record {
    uart_buff_size = 4;
    uart_buff = 0 ∷ 9 ∷ 0 ∷ 0 ∷ [];
    in_pos = 2;
    out_pos = 1;
    space = 3;
  });
  sent = [];
  rx_fifo = [];
  tx_empty_int = true;
  uart_int = true;
  signals = 0;
}

abbrev waiting : TxQueue
waiting = record { pending = 9 ∷ []; sent = [] }

uart-Implements : Implements 4 uart waiting
uart-Implements = record {
  b = record {
    uart_buff_size = 4;
    uart_buff = 0 ∷ 9 ∷ 0 ∷ 0 ∷ [];
    in_pos = 2;
    out_pos = 1;
    space = 3;
  };
  buffer = refl;
  valid = omega arith;
  size = refl;
  waiting = refl;
  sent = refl;
  live = λ _. refl;
}

wait_loop_lem_example : wait_loop 90 50 (busy ∷ busy ∷ late ∷ busy ∷ []) ≡ some 2
wait_loop_lem_example =
    wait_loop_lem 90 50 (busy ∷ busy ∷ []) late (busy ∷ [])
      (one_more (omega arith, omega arith) (one_more (omega arith, omega arith) no_look)) (inl refl)
