-- ===== src/Lib.antt =====
-- esp_slip_router is the firmware of a router on the ESP8266: it joins a serial line that speaks
-- SLIP to a Wi-Fi network. This library models its own code, in C, as functions on explicit
-- state, and proves what that code is for.
--
-- The program's parts. driver/uart.c moves bytes between the hardware FIFOs of UART0 and software
-- buffers. driver/sio.c puts the interface of lwIP on top of it. user/user_main.c gives each byte
-- from the serial line to the Hayes modem of driver/hayes.c first, if that is built in, and what
-- the modem does not take to the SLIP interface. user/ringbuf.c holds the text that the console
-- of user/user_main.c exchanges. The console is reached over TCP: it takes a line apart, answers
-- it, and changes the configuration, which user/config_flash.c keeps in flash memory.
-- driver/softuart.c is a second serial port in software, for debug output.
-- user_simple/user_main.c is a minimal router without console and configuration, for the same
-- drivers.
--
-- Which file models what:
-- * Prelude, Text, Window: shared helpers, Boolean tests, list functions over the native numbers,
--   C strings, and the lemmas on a window of a ring.
-- * Ringbuf and its modules: user/ringbuf.c. Ringbuf is `struct ringbuf_t` with offsets for
--   pointers; the functions have their names without the prefix ringbuf_. Inv has the invariant
--   and the abstract view, the list of bytes held; Bytes, Into, From and Copy are about the three
--   functions that move bytes.
-- * Uart and its modules: driver/uart.c. UartBuffer is `struct UartBuffer`, and Uart the driver's
--   state with the two FIFOs. Tx and Rx are about the transmit and the receive buffer, Stream
--   about sequences of writes and interrupts, Unload about the interrupt handler and the callback
--   that takes the received bytes.
-- * Port and its modules: the functions of driver/uart.c that write characters and strings, most
--   of which poll a port's status first; Wait is about the end of UART_WaitTxFifoEmpty.
-- * Registers and its modules: include/driver/uart_register.h, and the macros of the SDK that
--   driver/uart.c uses on registers, which are parameters: Peripherals are the operations and
--   IsHolding what they are taken to do to a register that holds what is written. Bits are the
--   bits of a word, Access and Kept follow from the laws, at the address that is written and
--   elsewhere.
-- * Setup and its modules: the functions of driver/uart.c that configure a UART, and sio_open of
--   driver/sio.c. Format is about the functions that set a part of the line's format, Config
--   about the word that uart_config writes, Frame about what all of these change and leave alone,
--   Flow about the flow control, Rate about the bit rate, for which IsRated says what
--   uart_div_modify is taken to do, Open about sio_open.
-- * Simple and its modules: user_simple/user_main.c, the minimal router. Received is about the
--   way of the received bytes.
-- * Sio and its modules: driver/sio.c over the buffers of Uart. Read and Write are about the two
--   directions.
-- * Config and its modules: user/config_flash.c, over the SDK's flash functions and the
--   compiler's layout of `sysconfig_t`, which are parameters. Laws says what they are taken to
--   do; Store is about saving and loading, Radio is user_rf_pre_init, and Model is a flash memory
--   and a layout of which the laws hold.
-- * Softuart and its modules: driver/softuart.c. Softuart is the port with its receive ring, and
--   an Edge is a level of the transmit pin with the bit times waited for before it is set. Queue
--   is about the ring, Readline about the lines read from it, Frame about the levels of a byte,
--   Interrupt the handler on the times at which it looks at the clock and at the pin, Receive
--   about the way from one port to another over a line with levels in time, Pins about what the
--   library is told to do with the pins, Timing about the bit time, and Clock the loops that wait
--   for the clock, on what it reads.
-- * Console and its modules: user/user_main.c. Console (in Types) is the globals with the calls
--   made so far, and Env what the SDK and lwIP answer. Tokens takes a line apart, Show has the
--   texts of `help` and `show`, Set the parameters, Commands the other commands and
--   console_handle_command, Events the callbacks and the main task, Start user_init. Rings has
--   the effect of the console's calls on its two rings; Frame is about what the commands leave
--   alone, Locked and Answer about a whole command, Session about a line and its answer, Run and
--   Reach about the callbacks and signals in any order, Netif is set_netif, Led the status LED,
--   Quote and RoundTrip about tokens, Strings and Passwords about the strings of the
--   configuration, Invalid about the commands that are refused, TableModel the bytes of a table
--   of ports, Shape, Widths and Wide about the widths of the configuration's fields.
-- * Hayes and its modules: driver/hayes.c. Types is `hayes_t` and the reading of digits, Output
--   the echo and the result codes, Info the ATI commands, Commands the other commands, Parse the
--   command line, Handler `h_recv` and `h_handler`, Feed `write_to_pbuf` of user/user_main.c on a
--   stream; Frame, Keeps and KeepsInfo are about what the commands leave alone, Moves, Ends and
--   Endless about the end of a parse and the restart of the chip, WellFormed and Total about the
--   invariant, Escape and Leave about data mode.
--
-- What a definition stands for. ATZ and AT&F restart the chip and do not return: a modem with
-- `restarted` is the state at the restart, which the functions of driver/hayes.c pass on as it
-- is. The handler of driver/softuart.c is given the times at which it looks at the clock and at
-- the pin, and the level of the line at each time. A pointer into a buffer is its offset. A w-bit
-- field wraps modulo 2^w where the code can pass the bound. os_malloc, system_get_free_heap_size
-- and the status registers are parameters: the functions take what these answer. Where a UART is
-- configured, the macros that write registers are parameters with the laws of IsHolding. The
-- bytes that uart_tx_one_char sends from the modem are a list in the modem's state. The strings
-- of the configuration are read and written in the bytes of the structure from its first string
-- to its last small field, because os_sprintf does not look at the size of a field.
--
-- Bounds and fuel. A register has 32 bits, and what is said of its bits is said of those; the
-- ports are UART0 and UART1. The loops of user/ringbuf.c run on fuel equal to the count, and each
-- round moves a byte at least. The loop of ht_ATDN runs on fuel 64, since it stops at the end of
-- a command of 63 characters at most. The loop of Softuart_Readline runs on fuel 64, since 63
-- bytes wait at most. The loop of h_cmdparse runs on fuel equal to the length of the command
-- line; it gives none when that does not suffice, which takes a full line of 40 characters, or a
-- large value of the parameter that stands for what h_cmdparse_amp does not return.
--
-- Not modelled: what gives memory back, the pin that Softuart_Putchar sets around a frame on an
-- RS485 bus, the threshold that tx_buff_enq writes to UART_CONF1 again, the lines printed with
-- os_printf, and lwIP, which is a binary library with its headers under include/.
pub mod Prelude
pub mod Text
pub mod Window
pub mod Ringbuf
pub mod Uart
pub mod Registers
pub mod Setup
pub mod Simple
pub mod Port
pub mod Sio
pub mod Softuart
pub mod Config
pub mod Hayes
pub mod Console
