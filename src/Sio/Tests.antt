-- ===== src/Sio/Tests.antt =====
-- Runs of driver/sio.c, and its theorems at concrete states.
use esp_slip_router.Prelude.{ℕ, refl, true, false, some, List, [], ◌∷◌, arith, replicate}
use esp_slip_router.Uart.{UartBuffer}
use esp_slip_router.Uart.Rx.{RxValid}
use esp_slip_router.Uart.Stream.{TxQueue, Implements}
use esp_slip_router.Sio.{Sio}

abbrev blank : ℕ → List ℕ
blank n = replicate n 0

-- four bytes, 8 and 9 of them in use, round the end
abbrev buffer : UartBuffer
buffer = record {
  uart_buff_size = 4;
  uart_buff = 9 ∷ 6 ∷ 7 ∷ 8 ∷ [];
  in_pos = 1;
  out_pos = 3;
  space = 2;
}

abbrev sio : Sio
sio = record {
  uart = record {
    tx_buffer = some buffer;
    sent = [];
    rx_fifo = [];
    tx_empty_int = true;
    uart_int = false;
    signals = 0;
  };
  rx = buffer;
  bytes_in = 0;
  uart_poll = false;
}

abbrev waiting : TxQueue
waiting = record { pending = 8 ∷ 9 ∷ []; sent = [] }

buffer-RxValid : RxValid buffer
buffer-RxValid = omega arith

sio-Implements : Implements 4 sio.uart waiting
sio-Implements = record {
  b = buffer;
  buffer = refl;
  valid = buffer-RxValid.valid;
  size = refl;
  waiting = refl;
  sent = refl;
  live = λ _. refl;
}
