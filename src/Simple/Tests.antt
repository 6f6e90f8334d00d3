-- ===== src/Simple/Tests.antt =====
-- The minimal router on an interface that collects what it receives.
use esp_slip_router.Simple.{SlipIf, user_init}
use esp_slip_router.Simple.Received.{take_signals, interrupt-loop}
use esp_slip_router.Softuart.{Softuart}
use esp_slip_router.Uart.{Uart, IntStatus, uart0_rx_intr_handler}
use esp_slip_router.Prelude.{
  ℕ, ◌-◌, ◌≡◌, true, false, none, List, [], ◌∷◌, ◌++◌, replicate, refl, arith,
}

-- the packets so far, and the bytes since
abbrev collect : SlipIf (List (List ℕ) × List ℕ)
collect = record {
  slipif_received_byte = λ n c. (n.0, n.1 ++ c ∷ []);
  slipif_process_rxqueue = λ n. (n.0 ++ n.1 ∷ [], []);
}

abbrev unset : Softuart
unset = record {
  pin_rx = record { gpio_id = 0; gpio_mux_name = 0; gpio_func = 0 };
  pin_tx = record { gpio_id = 0; gpio_mux_name = 0; gpio_func = 0 };
  pin_rs485_tx_enable = 0;
  is_rs485 = false;
  receive_buffer = replicate 64 0;
  receive_buffer_tail = 0;
  receive_buffer_head = 0;
  buffer_overflow = false;
  bit_time = 0;
}

abbrev timeout : IntStatus
timeout = record {
  frm_err = false;
  rxfifo_full = false;
  rxfifo_tout = true;
  txfifo_empty = false;
  rxfifo_ovf = false;
}

abbrev uart : Uart
uart = record {
  tx_buffer = none;
  sent = [];
  rx_fifo = 192 ∷ 69 ∷ 192 ∷ [];
  tx_empty_int = false;
  uart_int = true;
  signals = 4;
}

interrupt-loop_example :
    let start = user_init collect (λ i. (0, 3)) unset (replicate 16 none) in
    let (u', n') = uart0_rx_intr_handler start.uart0_unload_fn timeout 0 uart ([], []) in
    (u'.rx_fifo ≡ [])
    × (take_signals collect (u'.signals - 4) n' ≡ ((192 ∷ 69 ∷ 192 ∷ []) ∷ [], []))
interrupt-loop_example =
    interrupt-loop collect (λ i. (0, 3)) unset (replicate 16 none) timeout 0 uart ([], []) refl refl
      (omega arith)
