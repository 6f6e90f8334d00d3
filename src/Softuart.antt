-- ===== src/Softuart.antt =====
-- driver/softuart.c: a serial port on two pins, in software. The levels of the transmit pin are listed
-- with the bit times that the code waits for before it sets them. The children prove what the functions do.
pub mod Queue
pub mod Readline
pub mod Frame
pub mod Timing
pub mod Clock
pub mod Interrupt
pub mod Receive
pub mod Pins
mod Tests
use esp_slip_router.Prelude.{
  ℕ, zero, suc, ◌+◌, ◌-◌, ◌*◌, ◌/◌, ◌%◌, ◌^◌, Bool, true, false, not, ◌&&◌, ◌||◌, Option, none,
  some, List, [], ◌∷◌, ◌++◌, get_or, set, ltb, leb, ◌==◌, if◌then◌else◌, u8, u16, sub32,
}
use mathlib.Core.List.{reverse}

-- `softuart_pin_t`
pub record Pin : Type 0 where
  pub gpio_id : ℕ
  pub gpio_mux_name : ℕ
  pub gpio_func : ℕ

-- `Softuart` with its `softuart_buffer_t`
pub record Softuart : Type 0 where
  pub pin_rx : Pin
  pub pin_tx : Pin
  pub pin_rs485_tx_enable : ℕ
  pub is_rs485 : Bool
  pub receive_buffer : List ℕ
  pub receive_buffer_tail : ℕ
  pub receive_buffer_head : ℕ
  pub buffer_overflow : Bool
  pub bit_time : ℕ

-- SOFTUART_MAX_RX_BUFF
abbrev pub max_rx_buff : ℕ
max_rx_buff = 64

-- The loop over the 32 bits of `x`; `count` is at most 31 when it returns.
unfoldable pub bitcount_loop : ℕ → ℕ → ℕ → ℕ
bitcount_loop zero count x = 0xFF
bitcount_loop (suc fuel) count x =
    let rest = bitcount_loop fuel (count + 1) (x / 2) in
    if x == 0 then 0xFF else if x % 2 == 1 then count else rest

unfoldable pub bitcount : ℕ → ℕ
unfolding bitcount_loop
bitcount x = bitcount_loop 32 0 x

unfoldable pub is_gpio_valid : ℕ → Bool
is_gpio_valid gpio_id = not ((ltb 5 gpio_id && ltb gpio_id 12) || ltb 15 gpio_id)

-- `softuart_reg`, whose names and functions are macros of the SDK
unfoldable pub softuart_reg : (ℕ → ℕ × ℕ) → ℕ → ℕ × ℕ
softuart_reg gpio i = if ltb 5 i && ltb i 12 then (0, 0) else gpio i

abbrev pub pin : (ℕ → ℕ × ℕ) → ℕ → Pin
pin gpio i = record {
  gpio_id = i;
  gpio_mux_name = (softuart_reg gpio i).0;
  gpio_func = (softuart_reg gpio i).1;
}

unfoldable pub set_pin_rx : (ℕ → ℕ × ℕ) → ℕ → Softuart → Softuart
unfolding is_gpio_valid softuart_reg
set_pin_rx gpio gpio_id s =
    if not (is_gpio_valid gpio_id) then s else record s { pin_rx = pin gpio gpio_id }

unfoldable pub set_pin_tx : (ℕ → ℕ × ℕ) → ℕ → Softuart → Softuart
unfolding is_gpio_valid softuart_reg
set_pin_tx gpio gpio_id s =
    if not (is_gpio_valid gpio_id) then s else record s { pin_tx = pin gpio gpio_id }

-- The pin itself is configured in registers.
unfoldable pub enable_rs485 : ℕ → Softuart → Softuart
enable_rs485 gpio_id s = record s { is_rs485 = true; pin_rs485_tx_enable = gpio_id }

-- the bit time that Softuart_Init computes, in microseconds
unfoldable pub bit_time_of : ℕ → ℕ
bit_time_of baudrate =
    let t = u16 (1000000 / baudrate) in
    if ltb 50 (sub32 (100000000 / baudrate) (100 * t)) then u16 (t + 1) else t

-- What Softuart_Init stores: the port, and the table of the ports by their receive pins. The pins themselves
-- are configured in registers.
unfoldable pub init : ℕ → Softuart → List (Option Softuart) → Softuart × List (Option Softuart)
unfolding bit_time_of
init baudrate s instances =
    let s' = record s {
      is_rs485 = false;
      bit_time = if baudrate == 0 then s.bit_time else bit_time_of baudrate;
    } in
    (s', set instances s'.pin_rx.gpio_id (some s'))

-- `d >>= 1`, and the highest of 8 bits set for a high level
unfoldable pub shift_in : ℕ → ℕ → ℕ
shift_in d level = d / 2 + (if level == 0 then 0 else 128)

-- The byte of eight levels sampled one after the other.
unfoldable pub sample : ℕ → List ℕ → ℕ
unfolding shift_in
sample d [] = d
sample d (level ∷ levels) = sample (shift_in d level) levels

-- the byte stored, or the overflow flag set
unfoldable pub store_byte : ℕ → Softuart → Softuart
store_byte d s =
    let next = u8 ((s.receive_buffer_tail + 1) % max_rx_buff) in
    if not (next == s.receive_buffer_head)
    then record s {
      receive_buffer = set s.receive_buffer s.receive_buffer_tail d;
      receive_buffer_tail = next;
    }
    else record s { buffer_overflow = true }

-- the byte returned, and the port
unfoldable pub read : Softuart → ℕ × Softuart
read s = if s.receive_buffer_head == s.receive_buffer_tail then (0, s) else (
  get_or s.receive_buffer s.receive_buffer_head 0,
  record s { receive_buffer_head = (s.receive_buffer_head + 1) % max_rx_buff },
)

unfoldable pub available : Softuart → ℕ
available s = (s.receive_buffer_tail + max_rx_buff - s.receive_buffer_head) % max_rx_buff

-- `data & bit` for a power of two or 0, as 0 or 1
unfoldable pub chbit : ℕ → ℕ → ℕ
chbit byte bit = if bit == 0 then 0 else byte / bit % 2

-- `1<<i`, which is passed as a u8
abbrev pub mask : ℕ → ℕ
mask i = u8 (2 ^ i)

-- A level of a pin, set once so many bit times have passed since the start.
pub record Edge : Type 0 where
  pub after : ℕ
  pub high : ℕ

-- The loop over the bits from `i` on, in `n` rounds.
unfoldable pub bits_loop : ℕ → ℕ → ℕ → List Edge
unfolding chbit
bits_loop zero i byte = []
bits_loop (suc n) i byte =
    record { after = i + 1; high = chbit byte (mask i) } ∷ bits_loop n (i + 1) byte

-- The levels of the transmit pin for a byte. Left out is the pin that enables the driver of an RS485 bus.
unfoldable pub putchar : ℕ → List Edge
unfolding bits_loop
putchar byte =
    record { after = 0; high = 0 } ∷ (bits_loop 9 0 byte ++ record { after = 9; high = 1 } ∷ [])

-- The frames of a string up to its terminator.
unfoldable pub puts : List ℕ → List (List Edge)
unfolding putchar
puts [] = []
puts (c ∷ str) = let rest = puts str in if c == 0 then [] else putchar c ∷ rest

-- The loop of Softuart_Readline: `line` is what was written to the buffer, the last character first.
-- `none` means that the fuel ran out.
unfoldable pub readline_loop : ℕ → ℕ → List ℕ → ℕ → Softuart → Option (List ℕ × Softuart)
unfolding available read
readline_loop zero max_len line len s = none
readline_loop (suc fuel) max_len line len s =
    let (c, s') = read s in
    let again = readline_loop fuel max_len line len s' in
    let longer = readline_loop fuel max_len (c ∷ line) (len + 1) s' in
    if available s == 0
    then some (line, s)
    else if c == b'\r'
    then again
    else if c == b'\n'
    then (if ltb 0 len then some (line, s') else again)
    else if ltb len (max_len - 1)
    then longer
    else some (line, s')

abbrev pub in_order : Option (List ℕ × Softuart) → Option (List ℕ × Softuart)
in_order none = none
in_order (some (line, s)) = some (reverse line, s)

-- What is written to the buffer before its terminator, whose length is returned, and the port. At most 63
-- bytes wait.
unfoldable pub readline : ℕ → Softuart → Option (List ℕ × Softuart)
readline max_len s = in_order (readline_loop 64 max_len [] 0 s)

-- softuart_write_char of user/user_main.c: the frames for a character of the debug output.
unfoldable pub softuart_write_char : ℕ → List (List Edge)
unfolding putchar
softuart_write_char c =
    if c == b'\n'
    then putchar b'\r' ∷ putchar b'\n' ∷ []
    else if c == b'\r'
    then []
    else putchar c ∷ []
