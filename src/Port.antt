-- ===== src/Port.antt =====
-- driver/uart.c: the functions that write to a hardware port by polling its status.
pub mod Sends
pub mod NoWait
pub mod Wait
mod Tests
use esp_slip_router.Uart.{Uart, tx_buff_enq}
use esp_slip_router.Prelude.{
  ℕ, suc, ◌+◌, ◌-◌, Bool, true, false, ◌&&◌, Option, none, some, List, [], ◌∷◌, ◌++◌, ltb, ◌==◌,
  if◌then◌else◌, sub32,
}

-- One port: what its transmit FIFO's count will read, one answer for each time it is asked, and what
-- was written to the FIFO.
pub record Port : Type 0 where
  pub counts : List ℕ
  pub sent : List ℕ

-- The waiting loop; `none` means that it still waits after the last answer.
unfoldable pub tx_loop : ℕ → List ℕ → List ℕ → Option Port
tx_loop c [] sent = none
tx_loop c (cnt ∷ counts) sent =
    let rest = tx_loop c counts sent in
    if ltb cnt 126 then some (record { counts = counts; sent = sent ++ c ∷ [] }) else rest

unfoldable pub uart_tx_one_char : ℕ → Port → Option Port
uart_tx_one_char c p = tx_loop c p.counts p.sent

-- run the rest, if the port does not wait for ever
abbrev pub and_then : Option Port → (Port → Option Port) → Option Port
and_then none f = none
and_then (some p) f = f p

-- `uart1_write_char` and `uart0_write_char`, each on its port
unfoldable pub uart_write_char : ℕ → Port → Option Port
uart_write_char c p =
    if c == b'\n'
    then and_then (uart_tx_one_char b'\r' p) (uart_tx_one_char b'\n')
    else if c == b'\r'
    then some p
    else uart_tx_one_char c p

unfoldable pub uart0_tx_buffer : List ℕ → Port → Option Port
uart0_tx_buffer [] p = some p
uart0_tx_buffer (c ∷ buf) p = and_then (uart_tx_one_char c p) (uart0_tx_buffer buf)

-- up to the terminator
unfoldable pub uart0_send_str : List ℕ → Port → Option Port
uart0_send_str [] p = some p
uart0_send_str (c ∷ str) p =
    let more = and_then (uart_tx_one_char c p) (uart0_send_str str) in
    if c == 0 then some p else more

-- One look at the status: the FIFO's count, the bytes that wait in `pTxBuffer`, and the time.
pub record Look : Type 0 where
  pub tx_fifo_len : ℕ
  pub tx_buff_len : ℕ
  pub time : ℕ

-- The loop of `UART_CheckOutputFinished` over the looks that it takes; `none` means that it goes on.
unfoldable pub check_loop : ℕ → ℕ → List Look → Option Bool
check_loop t_start time_out_us [] = none
check_loop t_start time_out_us (l ∷ looks) =
    let rest = check_loop t_start time_out_us looks in
    if l.tx_fifo_len == 0 && l.tx_buff_len == 0
    then some true
    else if ltb time_out_us (sub32 l.time t_start)
    then some false
    else rest

-- With no wait: the byte is lost when the count `fifo_cnt` is 126 or more.
unfoldable pub uart_tx_one_char_no_wait : ℕ → ℕ → List ℕ → List ℕ
uart_tx_one_char_no_wait fifo_cnt c sent = if ltb fifo_cnt 126 then sent ++ c ∷ [] else sent

-- the same on UART0
unfoldable pub uart0_tx_one_char_no_wait : ℕ → ℕ → List ℕ → List ℕ
uart0_tx_one_char_no_wait fifo_cnt c sent = if ltb fifo_cnt 126 then sent ++ c ∷ [] else sent

-- `counts` are the FIFO's counts, one for each character
unfoldable pub uart1_send_str_no_wait : (ℕ → ℕ) → List ℕ → List ℕ → List ℕ
unfolding uart_tx_one_char_no_wait
uart1_send_str_no_wait counts [] sent = sent
uart1_send_str_no_wait counts (c ∷ str) sent =
    let rest =
      uart1_send_str_no_wait (λ i. counts (i + 1)) str
        (uart_tx_one_char_no_wait (counts 0) c sent) in
    if c == 0 then sent else rest

-- os_printf to the transmit buffer of UART0; `heap` and `storage` answer as in `uart_buf_init`.
unfoldable pub uart0_write_char_no_wait : ℕ → (ℕ → List ℕ) → ℕ → Uart → Uart
uart0_write_char_no_wait heap storage c u =
    if c == b'\n'
    then tx_buff_enq heap storage (tx_buff_enq heap storage u (b'\r' ∷ [])) (b'\n' ∷ [])
    else if c == b'\r'
    then u
    else tx_buff_enq heap storage u (c ∷ [])

abbrev pub fed_once : Option ℕ → Option ℕ
fed_once none = none
fed_once (some k) = some (suc k)

-- The loop of `UART_WaitTxFifoEmpty` over the looks that it takes, `time` being read where the FIFO
-- is not empty: how often the watchdog was fed when it ends.
unfoldable pub wait_loop : ℕ → ℕ → List Look → Option ℕ
wait_loop t_s time_out_us [] = none
wait_loop t_s time_out_us (l ∷ looks) =
    let rest = wait_loop t_s time_out_us looks in
    if l.tx_fifo_len == 0
    then some 0
    else if ltb time_out_us (sub32 l.time t_s)
    then some 0
    else fed_once rest
