-- ===== src/Uart/Inv.antt =====
-- The representation invariant of `struct UartBuffer` (driver/uart.c), and the queue it stands for.
use esp_slip_router.Prelude.{
  ℕ, ◌+◌, ◌-◌, ◌%◌, ◌≤◌, ◌<◌, ◌≡◌, List, arith, length, some, mod-eq_of_lt,
}
use esp_slip_router.Window.{window}
use esp_slip_router.Uart.{UartBuffer, uart_buf_init}

pub record IsValid (b : UartBuffer) : Type 0 where
  pub storage : b.uart_buff_size ≡ length b.uart_buff
  pub some_room : 0 < b.uart_buff_size
  pub small : b.uart_buff_size < 65536
  pub out_in : b.out_pos < b.uart_buff_size
  pub space_in : b.space ≤ b.uart_buff_size
  pub in_eq : b.in_pos ≡ (b.out_pos + (b.uart_buff_size - b.space)) % b.uart_buff_size

-- the number of bytes that wait
abbrev pub used : UartBuffer → ℕ
used b = b.uart_buff_size - b.space

-- the bytes that wait, the next one to go first
abbrev pub queue : UartBuffer → List ℕ
queue b = window b.uart_buff b.uart_buff_size b.out_pos (used b)

-- A buffer that `Uart_Buf_Init` makes is valid and empty, if os_malloc gave it its storage.
pub uart_buf_init-IsValid :
    (heap : ℕ) (storage : ℕ → List ℕ) (n : ℕ) {b : UartBuffer}
    → 0 < n
    → n < 65536
    → length (storage n) ≡ n
    → uart_buf_init heap storage n ≡ some b
    → IsValid b × (used b ≡ 0) × (b.space ≡ n)
unfolding uart_buf_init
uart_buf_init-IsValid heap storage n h k l e = ground (arith, mod-eq_of_lt {n = 0} {m = n} h)
