-- ===== src/Hayes/Types.antt =====
-- The state of the modem of driver/hayes.c (include/driver/hayes.h), its registers and digits.
-- `char` is unsigned on the ESP8266, so a character is a number below 256.
use esp_slip_router.Prelude.{
  ℕ, ◌+◌, ◌-◌, ◌*◌, Bool, true, false, ◌&&◌, List, [], ◌∷◌, ◌++◌, ltb, if◌then◌else◌, get_or,
  replicate, u8,
}

-- `hayes_t`: the fields of `prefs` and of `state`. `out` is what was sent to the DTE through
-- uart_tx_one_char. `restarted` says that system_restart was called, after which the code loops and
-- does not return: a modem with it is the state at the restart, and the functions that called pass
-- it on as it is.
pub record Modem : Type 0 where
  pub echo : Bool
  pub quiet : Bool
  pub report : ℕ  -- 3 bits
  pub verbose : Bool
  pub regs : List ℕ  -- 39 bytes
  pub online : Bool
  pub in_cmd : Bool
  pub in_esc : Bool
  pub n_escs : ℕ  -- 2 bits
  pub on_hook : Bool
  pub in_call : Bool
  pub cmdbuf : List ℕ  -- 40 characters
  pub cmd_i : ℕ  -- 6 bits
  pub l_cmd_i : ℕ  -- 6 bits
  pub l_chr : ℕ
  pub out : List ℕ
  pub restarted : Bool

-- What the modem reads of its surroundings: the serial bit rate of the configuration, the byte that
-- the compiler put `i` places after the start of `cmdbuf`, where `i` is past its end, and the number
-- that the parser adds to its position after `h_cmdparse_amp` has returned without a value.
pub record Env : Type 0 where
  pub bit_rate : ℕ
  pub stray : ℕ → ℕ
  pub no_value : ℕ

-- REG_S(n), and the named registers
abbrev pub reg_s : Modem → ℕ → ℕ
reg_s m n = get_or m.regs n 0

abbrev pub reg_esc : Modem → ℕ
reg_esc m = reg_s m 2

abbrev pub reg_cr : Modem → ℕ
reg_cr m = reg_s m 3

abbrev pub reg_lf : Modem → ℕ
reg_lf m = reg_s m 4

abbrev pub reg_bs : Modem → ℕ
reg_bs m = reg_s m 5

-- modem.state.cmdbuf[i]
abbrev pub cmd_at : Env → Modem → ℕ → ℕ
cmd_at env m i = get_or m.cmdbuf i (env.stray i)

-- CHAR_OUT
abbrev pub char_out : ℕ → Modem → Modem
char_out c m = record m { out = m.out ++ (c ∷ []) }

unfoldable pub h_is_num : ℕ → Bool
h_is_num c = ltb 47 c && ltb c 59

unfoldable pub h_parse_num : ℕ → ℕ
h_parse_num c = u8 (c + 256 - 48)

-- One to three digits from place `i` on, short of the end of the command.
unfoldable pub h_multi_parse_num : Env → Modem → ℕ → ℕ
unfolding h_is_num h_parse_num
h_multi_parse_num env m i =
    if h_is_num (cmd_at env m i)
    then (if ltb (i + 1) m.cmd_i && h_is_num (cmd_at env m (i + 1))
        then (if ltb (i + 2) m.cmd_i && h_is_num (cmd_at env m (i + 2))
            then u8 (
                100 * h_parse_num (cmd_at env m i)
                + 10 * h_parse_num (cmd_at env m (i + 1))
                + h_parse_num (cmd_at env m (i + 2)))
            else u8 (10 * h_parse_num (cmd_at env m i) + h_parse_num (cmd_at env m (i + 1))))
        else u8 (h_parse_num (cmd_at env m i)))
    else 0

-- The registers of `h_init`; what it does not set is 0.
abbrev pub initial_regs : List ℕ
initial_regs =
    0
    ∷ 0
    ∷ 43
    ∷ 13
    ∷ 10
    ∷ 8
    ∷ 2
    ∷ 60
    ∷ 2
    ∷ 6
    ∷ 7
    ∷ 70
    ∷ 50
    ∷ 0
    ∷ 0
    ∷ 0
    ∷ 0
    ∷ 0
    ∷ 0
    ∷ 0
    ∷ 0
    ∷ 10
    ∷ 17
    ∷ 19
    ∷ 0
    ∷ 5
    ∷ replicate 13 0

-- The modem after `h_init`; `cmd_mode_at_boot` is HAYES_CMD_MODE_AT_BOOT.
unfoldable pub h_init : Bool → Modem
h_init cmd_mode_at_boot = record {
  echo = true;
  quiet = false;
  report = 7;
  verbose = true;
  regs = initial_regs;
  online = if cmd_mode_at_boot then false else true;
  in_cmd = false;
  in_esc = false;
  n_escs = 0;
  on_hook = cmd_mode_at_boot;
  in_call = if cmd_mode_at_boot then false else true;
  cmdbuf = replicate 40 0;
  cmd_i = 0;
  l_cmd_i = 0;
  l_chr = 0;
  out = [];
  restarted = false;
}
