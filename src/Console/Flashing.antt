-- ===== src/Console/Flashing.antt =====
-- NOA_ESP32_PD/usb_pd_protocol.cpp: `remote_flashing`. `strtoi` in base 10 is not in the repository:
-- it gives the number and what is left of the text. What the other tasks do to the port during one
-- `task_wait_event` is a parameter.
use noa_esp32_pd.Base.{
  ℕ, zero, suc, ◌+◌, ◌-◌, ◌*◌, ltb, leb, ◌==◌, ◌||◌, not, if◌then◌else◌, List, [], ◌∷◌, Option,
  none, some, length, drop,
}
use noa_esp32_pd.Base.Int.{ℤ, is_neg}
use noa_esp32_pd.Message.Types.Vdm as Cmd
use noa_esp32_pd.Protocol.Port.{Port}
use noa_esp32_pd.Protocol.Vdm.{pd_send_vdm}
use noa_esp32_pd.Host.Hex.{hex8tou32}
use noa_esp32_pd.Host.Flash.{vdm_pending}
use noa_esp32_pd.Console.Text.{codes, strcasecmp}
use noa_esp32_pd.Console.State.{
  CmdResult, Outcome, fault, unfinished, returns, Console, arg, too_high, refuse,
}

-- A word in front of those that follow it.
unfoldable pub with_word : ℕ → Outcome (Option (List ℕ)) → Outcome (Option (List ℕ))
with_word v (returns (some vs)) = returns (some (v ∷ vs))
with_word v o = o

-- The loop over `argv[i+3]`, from an index on: `none` is EC_ERROR_INVAL, and `data` has
-- VDO_MAX_SIZE-1 words, 6.
unfoldable pub parse_words : ℕ → List (List ℕ) → Outcome (Option (List ℕ))
unfolding hex8tou32 with_word
parse_words i [] = returns (some [])
parse_words i (s ∷ rest) =
    let others = parse_words (i + 1) rest in
    elim (hex8tou32 s) [
      | none ↦ returns none
      | some v ↦ if leb 6 i then fault else with_word v others
    ]

module _ {S : Type 0} where
  -- The state with the port as it is after a wait.
  unfoldable pub put_port : Console S → Outcome (Port S) → Outcome (Console S × CmdResult)
  put_port c (returns w) = returns (record c { port = w }, CmdResult.ok)
  put_port c fault = fault
  put_port c unfinished = unfinished

module _ {S : Type 0} (others : Port S → Port S) where
  -- `while (pd[port].vdm_state > 0) task_wait_event(...)`
  unfoldable pub wait_idle : ℕ → Port S → Outcome (Port S)
  unfolding vdm_pending
  wait_idle zero w = unfinished
  wait_idle (suc fuel) w =
      let rest = wait_idle fuel (others w) in if vdm_pending w.vdm_state then rest else returns w

  -- The VDM and the wait, for a port that is one of the array's.
  unfoldable pub send_flash : ℕ → ℤ → ℕ → List ℕ → ℕ → Console S → Outcome (Console S × CmdResult)
  unfolding pd_send_vdm wait_idle put_port
  send_flash fuel port cmd words cnt c =
      if is_neg port
      then fault
      else put_port c (wait_idle fuel (pd_send_vdm Cmd.usb_vid_google cmd words cnt c.port))

  -- The words of `pd <port> flash <word>...`.
  unfoldable pub write_words :
      ℕ
      → ℤ
      → List (List ℕ)
      → Outcome (Option (List ℕ))
      → Console S
      → Outcome (Console S × CmdResult)
  unfolding send_flash
  write_words fuel port argv fault c = fault
  write_words fuel port argv unfinished c = unfinished
  write_words fuel port argv (returns none) c = refuse CmdResult.inval c
  write_words fuel port argv (returns (some words)) c =
      send_flash fuel port Cmd.vdo_cmd_flash_write words (length words)
        (record c { flash_offset = c.flash_offset + length words * 4 })

  unfoldable pub remote_flashing :
      (List ℕ → ℤ × List ℕ) → ℕ → List (List ℕ) → Console S → Outcome (Console S × CmdResult)
  unfolding strcasecmp too_high send_flash parse_words write_words
  remote_flashing strtoi fuel argv c =
      let argc = length argv in
      let p = strtoi (arg 1 argv) in
      let cmd = arg 3 argv in
      if ltb argc 4 || ltb (7 + 4 - 1) argc
      then refuse CmdResult.param_count c
      else if not (length p.1 == 0) || too_high p.0
      then refuse CmdResult.param2 c
      else if strcasecmp cmd (codes "erase")
      then send_flash fuel p.0 Cmd.vdo_cmd_flash_erase [] 0 (record c { flash_offset = 0 })
      else if strcasecmp cmd (codes "reboot")
      then send_flash fuel p.0 Cmd.vdo_cmd_reboot [] 0 c
      else if strcasecmp cmd (codes "signature")
      then send_flash fuel p.0 Cmd.vdo_cmd_erase_sig [] 0 c
      else if strcasecmp cmd (codes "info")
      then send_flash fuel p.0 Cmd.vdo_cmd_read_info [] 0 c
      else if strcasecmp cmd (codes "version")
      then send_flash fuel p.0 Cmd.vdo_cmd_version [] 0 c
      else write_words fuel p.0 argv (parse_words 0 (drop 3 argv)) c
