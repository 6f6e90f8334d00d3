-- ===== src/Softuart/Tests.antt =====
-- Runs of the software serial port of driver/softuart.c, and its theorems at concrete ports.
use esp_slip_router.Prelude.{
  codes, ◌+◌, ◌*◌, ◌-◌, ◌/◌, ◌≤◌, ◌<◌, ◌≡◌, refl, ap, false, ℕ, Option, some, none, List, [], ◌∷◌,
  ◌++◌, arith, replicate, set, ltb, if◌then◌else◌,
}
use esp_slip_router.Softuart.{Softuart, Pin, available, bitcount, putchar, bit_time_of}
use esp_slip_router.Softuart.Queue.{IsValid, queue}
use esp_slip_router.Softuart.Interrupt.{intr_handler}
use esp_slip_router.Softuart.Frame.{level_at}
use esp_slip_router.Softuart.Readline.{IsText, text_end, text_char}
use esp_slip_router.Softuart.Receive.{Carries, Looks, no_look, one_look, intr_handler-putchar}
use esp_slip_router.Softuart.Clock.{wait_bits, no_bits, one_bit, no_more, two_more, wait_bits_lem}
use esp_slip_router.Softuart.Timing.{bit_time_lem}

abbrev some_pin : Pin
some_pin = record { gpio_id = 14; gpio_mux_name = 1; gpio_func = 3 }

-- a line waits
abbrev port : Softuart
port = record {
  pin_rx = some_pin;
  pin_tx = some_pin;
  pin_rs485_tx_enable = 0;
  is_rs485 = false;
  receive_buffer = codes "ab\ncd" ++ replicate 59 0;
  receive_buffer_tail = 5;
  receive_buffer_head = 0;
  buffer_overflow = false;
  bit_time = 52;
}

port-IsValid : IsValid port
port-IsValid = omega arith

bit_time_run : bit_time_of 19200 ≡ 52
unfolding bit_time_of
bit_time_run = refl

bitcount_run : bitcount 16384 ≡ 14
unfolding bitcount
bitcount_run = refl

abbrev ports : List (Option Softuart)
ports = replicate 14 none ++ some port ∷ none ∷ []

-- a byte at 53 microseconds a bit, begun at 1000, on the way to a port with 52
abbrev wire : ℕ → ℕ
wire t = if ltb t 1000 then 1 else level_at ((t - 1000) / 53) 1 (putchar 90)

wire-Carries : Carries wire 1000 53 (putchar 90)
wire-Carries = record {
  level = λ slot t from to.
      let begun : ltb t 1000 ≡ false = ground arith in
      let here : (t - 1000) / 53 ≡ slot = omega arith in
      rw begun (ap (λ n. level_at n 1 (putchar 90)) here);
}

abbrev times : List ℕ
times =
    1040 ∷ 1041 ∷ 1082 ∷ 1083 ∷ 1134 ∷ 1135 ∷ 1186 ∷ 1187 ∷ 1238 ∷ 1239 ∷ 1290 ∷ 1291 ∷ 1342 ∷ 1343
    ∷ 1394 ∷ 1395 ∷ 1446 ∷ 1447 ∷ []

times-Looks : Looks 1029 52 3 0 8 times
times-Looks =
    one_look 1082 1083 (1040 ∷ 1041 ∷ [])
      (1134 ∷ 1135 ∷ 1186 ∷ 1187 ∷ 1238 ∷ 1239 ∷ 1290 ∷ 1291 ∷ 1342 ∷ 1343 ∷ 1394 ∷ 1395 ∷ 1446
        ∷ 1447 ∷ [])
      (two_more (omega arith) (omega arith) no_more) (omega arith) (omega arith) (omega arith)
      (one_look 1134 1135 []
        (1186 ∷ 1187 ∷ 1238 ∷ 1239 ∷ 1290 ∷ 1291 ∷ 1342 ∷ 1343 ∷ 1394 ∷ 1395 ∷ 1446 ∷ 1447 ∷ [])
        no_more (omega arith) (omega arith) (omega arith)
        (one_look 1186 1187 []
          (1238 ∷ 1239 ∷ 1290 ∷ 1291 ∷ 1342 ∷ 1343 ∷ 1394 ∷ 1395 ∷ 1446 ∷ 1447 ∷ []) no_more
          (omega arith) (omega arith) (omega arith)
          (one_look 1238 1239 [] (1290 ∷ 1291 ∷ 1342 ∷ 1343 ∷ 1394 ∷ 1395 ∷ 1446 ∷ 1447 ∷ [])
            no_more (omega arith) (omega arith) (omega arith)
            (one_look 1290 1291 [] (1342 ∷ 1343 ∷ 1394 ∷ 1395 ∷ 1446 ∷ 1447 ∷ []) no_more
              (omega arith) (omega arith) (omega arith)
              (one_look 1342 1343 [] (1394 ∷ 1395 ∷ 1446 ∷ 1447 ∷ []) no_more (omega arith)
                (omega arith) (omega arith)
                (one_look 1394 1395 [] (1446 ∷ 1447 ∷ []) no_more (omega arith) (omega arith)
                  (omega arith)
                  (one_look 1446 1447 [] [] no_more (omega arith) (omega arith) (omega arith)
                    no_look)))))))

intr_handler-putchar_example :
    (s' : Softuart) × (intr_handler 16384 wire (1003 ∷ times) ports
      ≡ some (set ports (bitcount 16384) (some s')))
    × IsValid s'
    × (queue s' ≡ queue port ++ 90 ∷ [])
unfolding bitcount available
intr_handler-putchar_example =
    intr_handler-putchar 16384 90 1000 53 3 1003 wire times ports (omega arith) refl port-IsValid
      (omega arith) (omega arith) wire-Carries (omega arith) (omega arith) (omega arith) times-Looks
      (omega arith) (omega arith) (omega arith)

intr_handler_run :
    intr_handler 16384 wire (1003 ∷ times) ports
    ≡ some (
        replicate 14 none
        ++ some (record port {
          receive_buffer = codes "ab\ncdZ" ++ replicate 58 0;
          receive_buffer_tail = 6;
        })
          ∷ none
          ∷ [])
unfolding intr_handler putchar level_at
intr_handler_run = refl

ab-IsText : IsText (codes "ab")
ab-IsText = text_char (omega arith) (omega arith) (text_char (omega arith) (omega arith) text_end)

bit_time_lem_example :
    (100 * (19200 * bit_time_of 19200) ≤ 100000000 + 49 * 19200)
    × (100000000 < 100 * (19200 * bit_time_of 19200) + 51 * 19200)
bit_time_lem_example = bit_time_lem 19200 (omega arith)

-- the clock overflows after the start at 2147483600
wait_bits_lem_example :
    wait_bits 2 3 2147483600 52 (2147483650 ∷ 2147483652 ∷ 2147483654 ∷ 2147483656 ∷ 9 ∷ [])
    ≡ some (9 ∷ [])
wait_bits_lem_example =
    wait_bits_lem 2 3 2147483600 52
      {readings = 2147483650 ∷ 2147483652 ∷ 2147483654 ∷ 2147483656 ∷ []} (9 ∷ [])
      (one_bit (omega arith) (omega arith) (one_bit (omega arith) (omega arith) no_bits))
