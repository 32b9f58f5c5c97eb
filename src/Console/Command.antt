-- ===== src/Console/Command.antt =====
-- NOA_ESP32_PD/usb_pd_protocol.cpp: `command_pd`. What a command prints is not modelled.
-- CONFIG_USB_PD_DEBUG_LEVEL, CONFIG_CMD_PD_DEV_DUMP_INFO and CONFIG_USBC_VCONN_SWAP are not set;
-- there is one port. The entries into PD_STATE_BIST_RX and PD_STATE_BIST_TX, states that only a build
-- with CONFIG_COMMON_RUNTIME has, are parameters.
use noa_esp32_pd.Base.{
  ℕ, ◌*◌, ◌%◌, ◌^◌, ltb, ◌==◌, ◌||◌, not, Bool, true, false, if◌then◌else◌, List, [], ◌∷◌, Option,
  none, some, length,
}
use noa_esp32_pd.Base.Int.{ℤ, is_nonzero}
use noa_esp32_pd.Fusb302.Control.{CcPull}
use noa_esp32_pd.Message.Types.Vdm as Cmd
use noa_esp32_pd.Policy.Request.{pd_get_max_voltage}
use noa_esp32_pd.Protocol.Port.{
  DrpState, source, TcpmDrv, Port, snk_discovery, src_disconnected, hard_reset_send, soft_reset,
}
use noa_esp32_pd.Protocol.Core.{set_state, tcpm_set_cc}
use noa_esp32_pd.Protocol.Vdm.{pd_send_vdm}
use noa_esp32_pd.Protocol.Reset.{pd_request_power_swap, pd_request_data_swap}
use noa_esp32_pd.Protocol.Commands.{pd_ping_enable, pd_request_source_voltage, pd_comm_enable}
use noa_esp32_pd.Protocol.Globals.{set_role_try_source}
use noa_esp32_pd.Console.Text.{codes, strcasecmp, strncasecmp}
use noa_esp32_pd.Console.State.{
  CmdResult, Outcome, returns, Console, arg, to_unsigned, too_high, on_port, refuse,
}
use noa_esp32_pd.Console.Flashing.{remote_flashing}

-- The word of `pd dualrole`.
unfoldable pub dualrole_word : List ℕ → Option DrpState
unfolding strcasecmp
dualrole_word s =
    if strcasecmp s (codes "on")
    then some DrpState.toggle_on
    else if strcasecmp s (codes "off")
    then some DrpState.toggle_off
    else if strcasecmp s (codes "freeze")
    then some DrpState.freeze
    else if strcasecmp s (codes "sink")
    then some DrpState.force_sink
    else if strcasecmp s (codes "source")
    then some DrpState.force_source
    else none

-- The console has `pd trysrc`, so CONFIG_USB_PD_TRY_SRC is on. Its least charge and the charge of
-- the battery are the board's.
module _ {S : Type 0} (min_soc batt_soc : ℕ) where
  unfoldable pub set_dualrole : Option DrpState → Console S → Outcome (Console S × CmdResult)
  unfolding set_role_try_source
  set_dualrole none c = refuse CmdResult.param3 c
  set_dualrole (some s) c =
      returns (record c { port = set_role_try_source min_soc batt_soc s c.port }, CmdResult.ok)

  unfoldable pub dualrole_command : List (List ℕ) → Console S → Outcome (Console S × CmdResult)
  unfolding set_dualrole dualrole_word
  dualrole_command argv c =
      if ltb (length argv) 3
      then returns (c, CmdResult.ok)
      else set_dualrole (dualrole_word (arg 2 argv)) c

module _ {S : Type 0} where
  -- `pd[port].vdm...` after the parse of a vendor command.
  unfoldable pub send_google : ℕ → List ℕ → ℕ → Port S → Port S
  unfolding pd_send_vdm
  send_google cmd data' cnt w = pd_send_vdm Cmd.usb_vid_google cmd data' cnt w

module _ {S : Type 0} (strtoi : List ℕ → ℤ × List ℕ) where
  unfoldable pub dump_command : List (List ℕ) → Console S → Outcome (Console S × CmdResult)
  dump_command argv c =
      let level = strtoi (arg 2 argv) in
      if ltb (length argv) 3
      then returns (c, CmdResult.ok)
      else if not (length level.1 == 0)
      then refuse CmdResult.param2 c
      else returns (record c { debug_level = level.0 }, CmdResult.ok)

  unfoldable pub trysrc_command : List (List ℕ) → Console S → Outcome (Console S × CmdResult)
  trysrc_command argv c =
      let enable = strtoi (arg 2 argv) in
      if ltb (length argv) 3
      then returns (c, CmdResult.ok)
      else if not (length enable.1 == 0)
      then refuse CmdResult.param3 c
      else returns (
        record c { port = record c.port { pd_try_src_enable = is_nonzero enable.0 } },
        CmdResult.ok,
      )

  unfoldable pub ping_command : ℤ → List (List ℕ) → Console S → Outcome (Console S × CmdResult)
  unfolding on_port pd_ping_enable
  ping_command port argv c =
      let enable = strtoi (arg 3 argv) in
      if not (ltb 3 (length argv))
      then on_port port (λ w. w) c
      else if not (length enable.1 == 0)
      then refuse CmdResult.param3 c
      else on_port port (pd_ping_enable (is_nonzero enable.0)) c

  unfoldable pub vdm_command : ℤ → List (List ℕ) → Console S → Outcome (Console S × CmdResult)
  unfolding on_port send_google strncasecmp to_unsigned
  vdm_command port argv c =
      let argc = length argv in
      let enable = strtoi (arg 4 argv) in
      if ltb argc 4
      then refuse CmdResult.param_count c
      else if strncasecmp 4 (arg 3 argv) (codes "ping")
      then (if ltb argc 5
          then refuse CmdResult.param_count c
          else if not (length enable.1 == 0)
          then refuse CmdResult.param4 c
          else on_port port (send_google Cmd.vdo_cmd_ping_enable (to_unsigned enable.0 ∷ []) 1) c)
      else if strncasecmp 4 (arg 3 argv) (codes "curr")
      then on_port port (send_google Cmd.vdo_cmd_current [] 0) c
      else if strncasecmp 4 (arg 3 argv) (codes "vers")
      then on_port port (send_google Cmd.vdo_cmd_version [] 0) c
      else refuse CmdResult.param_count c

module _ {S : Type 0} (drv : TcpmDrv S) where
  unfoldable pub swap_command : ℤ → List (List ℕ) → Console S → Outcome (Console S × CmdResult)
  unfolding on_port strncasecmp pd_request_power_swap pd_request_data_swap
  swap_command port argv c =
      if ltb (length argv) 4
      then refuse CmdResult.param_count c
      else if strncasecmp 5 (arg 3 argv) (codes "power")
      then on_port port (pd_request_power_swap drv) c
      else if strncasecmp 4 (arg 3 argv) (codes "data")
      then on_port port (pd_request_data_swap drv) c
      else refuse CmdResult.param3 c

  -- `pd <port> charger`
  unfoldable pub become_charger : Port S → Port S
  unfolding set_state tcpm_set_cc
  become_charger w =
      set_state drv src_disconnected (tcpm_set_cc drv CcPull.rp (record w { power_role = source }))

  -- `pd <port> disable` and `enable`
  unfoldable pub comm_command : ℤ → Bool → Console S → Outcome (Console S × CmdResult)
  unfolding on_port pd_comm_enable
  comm_command port enable c =
      on_port port (pd_comm_enable drv enable) (record c { comm_enabled = enable })

  -- `pd <port> dev [volts]`
  unfoldable pub dev_command :
      (List ℕ → ℤ × List ℕ) → ℤ → List (List ℕ) → Console S → Outcome (Console S × CmdResult)
  unfolding on_port to_unsigned pd_get_max_voltage pd_request_source_voltage
  dev_command strtoi port argv c =
      let max_volt =
        if ltb (length argv) 4
        then pd_get_max_voltage c.port
        else to_unsigned (strtoi (arg 3 argv)).0 * 1000 % 2 ^ 32 in
      on_port port (pd_request_source_voltage drv max_volt) c

module _ {S : Type 0} (drv : TcpmDrv S) (strtoi : List ℕ → ℤ × List ℕ)
    (to_bist_rx to_bist_tx others : Port S → Port S) (fuel : ℕ) where
  -- `pd <port> <subcmd>`, with the number of the port. What follows it in its argument is empty,
  -- so bist_tx's check of it does not fail.
  unfoldable pub port_command : ℤ → List (List ℕ) → Console S → Outcome (Console S × CmdResult)
  unfolding strcasecmp strncasecmp on_port set_state become_charger dev_command comm_command
      swap_command ping_command vdm_command remote_flashing
  port_command port argv c =
      let sub = arg 2 argv in
      if strcasecmp sub (codes "tx")
      then on_port port (set_state drv snk_discovery) c
      else if strcasecmp sub (codes "bist_rx")
      then on_port port to_bist_rx c
      else if strcasecmp sub (codes "bist_tx")
      then on_port port to_bist_tx c
      else if strcasecmp sub (codes "charger")
      then on_port port (become_charger drv) c
      else if strncasecmp 3 sub (codes "dev")
      then dev_command drv strtoi port argv c
      else if strcasecmp sub (codes "disable")
      then comm_command drv port false c
      else if strcasecmp sub (codes "enable")
      then comm_command drv port true c
      else if strncasecmp 4 sub (codes "hard")
      then on_port port (set_state drv hard_reset_send) c
      else if strncasecmp 4 sub (codes "info")
      then on_port port (λ w. w) c
      else if strncasecmp 4 sub (codes "soft")
      then on_port port (set_state drv soft_reset) c
      else if strncasecmp 4 sub (codes "swap")
      then swap_command drv port argv c
      else if strncasecmp 4 sub (codes "ping")
      then ping_command strtoi port argv c
      else if strncasecmp 3 sub (codes "vdm")
      then vdm_command strtoi port argv c
      else if strncasecmp 4 sub (codes "flash")
      then remote_flashing others strtoi fuel argv c
      else if strncasecmp 5 sub (codes "state")
      then on_port port (λ w. w) c
      else refuse CmdResult.param1 c

  unfoldable pub command_pd : ℕ → ℕ → List (List ℕ) → Console S → Outcome (Console S × CmdResult)
  unfolding strcasecmp strncasecmp dualrole_command dump_command trysrc_command too_high
      port_command
  command_pd min_soc batt_soc argv c =
      let argc = length argv in
      let p = strtoi (arg 1 argv) in
      if ltb argc 2
      then refuse CmdResult.param_count c
      else if strcasecmp (arg 1 argv) (codes "dualrole")
      then dualrole_command min_soc batt_soc argv c
      else if strcasecmp (arg 1 argv) (codes "dump")
      then dump_command strtoi argv c
      else if strncasecmp 6 (arg 1 argv) (codes "trysrc")
      then trysrc_command strtoi argv c
      else if ltb argc 3
      then refuse CmdResult.param_count c
      else if not (length p.1 == 0) || too_high p.0
      then refuse CmdResult.param2 c
      else port_command p.0 argv c
