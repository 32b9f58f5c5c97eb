-- ===== src/Console/State.antt =====
-- NOA_ESP32_PD/usb_pd_protocol.cpp: what the console command works on, and how it ends.
use noa_esp32_pd.Base.{ℕ, ◌-◌, ◌%◌, ◌^◌, leb, Bool, false, if◌then◌else◌, List, get_or}
use noa_esp32_pd.Base.Int.{ℤ, pos, negsuc, is_neg}
use noa_esp32_pd.Protocol.Port.{Port}

-- The results of a command, EC_SUCCESS and EC_ERROR_*.
pub data CmdResult : Type 0 where
  ok param_count param1 param2 param3 param4 inval : CmdResult

-- A command makes an access outside an array, waits without an end, or returns.
pub data Outcome (A : Type 0) : Type 0 where
  fault unfinished : Outcome A
  returns : A → Outcome A

-- The port, `pd_comm_enabled`, `debug_level` and `flash_offset` of the port.
pub record Console (S : Type 0) : Type 0 where
  pub port : Port S
  pub comm_enabled : Bool
  pub debug_level : ℤ
  pub flash_offset : ℕ

-- `argv[i]`, for an `i` below `argc`.
abbrev pub arg : ℕ → List (List ℕ) → List ℕ
arg i argv = get_or argv i List.[]

-- An int as an unsigned int.
unfoldable pub to_unsigned : ℤ → ℕ
to_unsigned (pos n) = n % 2 ^ 32
to_unsigned (negsuc n) = 2 ^ 32 - 1 - n % 2 ^ 32

-- `port >= CONFIG_USB_PD_PORT_COUNT`, between ints.
unfoldable pub too_high : ℤ → Bool
too_high (pos n) = leb 1 n
too_high (negsuc n) = false

module _ {S : Type 0} where
  -- What is done to `pd[port]`, where a negative port, which `too_high` lets pass, is out of bounds.
  unfoldable pub on_port : ℤ → (Port S → Port S) → Console S → Outcome (Console S × CmdResult)
  on_port port f c =
      if is_neg port
      then Outcome.fault
      else Outcome.returns (record c { port = f c.port }, CmdResult.ok)

  abbrev pub refuse : CmdResult → Console S → Outcome (Console S × CmdResult)
  refuse r c = Outcome.returns (c, r)
