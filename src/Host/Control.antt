-- ===== src/Host/Control.antt =====
-- NOA_ESP32_PD/usb_pd_protocol.cpp: `pd_control` and `hc_usb_pd_control`. The values of the host's
-- constants are not in the repository: its commands are data types, the bits of its answers a
-- parameter.
use noa_esp32_pd.Base.{
  ℕ, leb, ◌==◌, ◌||◌, not, Bool, true, false, if◌then◌else◌, Option, none, some, bit_or,
}
use noa_esp32_pd.Protocol.Flags
use noa_esp32_pd.Protocol.Port.{PdState, DrpState, TcpmDrv, Port}
use noa_esp32_pd.Protocol.Core.{is_source, is_dfp, to_num, has_flag, pd_is_connected}
use noa_esp32_pd.Protocol.Reset.{pd_request_power_swap, pd_request_data_swap}
use noa_esp32_pd.Protocol.Commands.{pd_set_dual_role, pd_comm_enable, pd_set_suspend}
use noa_esp32_pd.Host.Result.{EcResult}

-- The subcommands of `pd_control`; the host may send another.
pub data PdControl : Type 0 where
  disable suspend resume reset chip_on other : PdControl

-- What the host can change: the port, `pd_comm_enabled`, and `pd_control_disabled`.
pub record Controlled (S : Type 0) : Type 0 where
  pub port : Port S
  pub comm_enabled : Bool
  pub disabled : Bool

-- `role`, NO_CHANGE being the one that is not in `dual_role_map`, and `swap`.
pub data CtrlRole : Type 0 where
  no_change toggle_on toggle_off force_sink force_source freeze out_of_range : CtrlRole

pub data CtrlSwap : Type 0 where
  no_swap data_swap power_swap vconn_swap : CtrlSwap

-- `struct ec_params_usb_pd_control`; the range of `mux` is checked, and nothing else is done with
-- it in this build.
pub record CtrlParams : Type 0 where
  pub port : ℕ
  pub role : CtrlRole
  pub mux_in_range : Bool
  pub swap : CtrlSwap

-- The bits PD_CTRL_RESP_ of an answer.
pub record RespBits : Type 0 where
  pub enabled_comms : ℕ
  pub enabled_connected : ℕ
  pub enabled_pd_capable : ℕ
  pub role_power : ℕ
  pub role_data : ℕ
  pub role_vconn : ℕ
  pub role_dr_power : ℕ
  pub role_dr_data : ℕ
  pub role_usb_comm : ℕ
  pub role_ext_powered : ℕ

-- `struct ec_response_usb_pd_control` and `_v1`, with the state for its name.
pub record CtrlResponse : Type 0 where
  pub enabled : ℕ
  pub role : ℕ
  pub polarity : ℕ
  pub state : PdState

unfoldable pub dual_role_map : CtrlRole → Option DrpState
dual_role_map CtrlRole.toggle_on = some DrpState.toggle_on
dual_role_map CtrlRole.toggle_off = some DrpState.toggle_off
dual_role_map CtrlRole.force_sink = some DrpState.force_sink
dual_role_map CtrlRole.force_source = some DrpState.force_source
dual_role_map CtrlRole.freeze = some DrpState.freeze
dual_role_map _ = none

abbrev pub in_range : CtrlRole → Bool
in_range CtrlRole.out_of_range = false
in_range _ = true

-- `b ? bit : 0`
abbrev pub bit_if : Bool → ℕ → ℕ
bit_if b bit = if b then bit else 0

module _ {S : Type 0} where
  unfoldable pub response_v0 : Bool → Port S → CtrlResponse
  response_v0 comm_enabled w = record {
    enabled = to_num comm_enabled;
    role = to_num (is_source w.power_role);
    polarity = w.polarity;
    state = w.task_state;
  }

  unfoldable pub response_v1 : RespBits → Bool → Port S → CtrlResponse
  unfolding pd_is_connected has_flag
  response_v1 b comm_enabled w = record {
    enabled =
        bit_or
          (bit_or (bit_if comm_enabled b.enabled_comms)
            (bit_if (pd_is_connected w) b.enabled_connected))
          (bit_if (has_flag w Flags.previous_pd_conn) b.enabled_pd_capable);
    role =
        bit_or
          (bit_or
            (bit_or
              (bit_or
                (bit_or
                  (bit_or (bit_if (is_source w.power_role) b.role_power)
                    (bit_if (is_dfp w.data_role) b.role_data))
                  (bit_if (has_flag w Flags.vconn_on) b.role_vconn))
                (bit_if (has_flag w Flags.partner_dr_power) b.role_dr_power))
              (bit_if (has_flag w Flags.partner_dr_data) b.role_dr_data))
            (bit_if (has_flag w Flags.partner_usb_comm) b.role_usb_comm))
          (bit_if (has_flag w Flags.partner_extpower) b.role_ext_powered);
    polarity = w.polarity;
    state = w.task_state;
  }

  unfoldable pub set_role : Option DrpState → Port S → Port S
  unfolding pd_set_dual_role
  set_role none w = w
  set_role (some s) w = pd_set_dual_role s w

module _ {S : Type 0} (drv : TcpmDrv S) where
  -- VCONN swaps are not in this build.
  unfoldable pub request_swap : CtrlSwap → Port S → Port S
  unfolding pd_request_data_swap pd_request_power_swap
  request_swap CtrlSwap.data_swap w = pd_request_data_swap drv w
  request_swap CtrlSwap.power_swap w = pd_request_power_swap drv w
  request_swap _ w = w

  -- The answer is that of version 0 or 1; there is one port.
  unfoldable pub hc_usb_pd_control :
      RespBits → ℕ → CtrlParams → Controlled S → Controlled S × (Option CtrlResponse × EcResult)
  unfolding set_role dual_role_map request_swap response_v0 response_v1
  hc_usb_pd_control b version p c =
      if leb 1 p.port
      then (c, (none, EcResult.invalid_param))
      else if not (in_range p.role) || not p.mux_in_range
      then (c, (none, EcResult.invalid_param))
      else let w = request_swap p.swap (set_role (dual_role_map p.role) c.port) in
        (
          record c { port = w },
          (
            some (
                if version == 0
                then response_v0 c.comm_enabled w
                else response_v1 b c.comm_enabled w),
            EcResult.success,
          ),
        )

  -- The subcommands that go on to enable or suspend the port.
  unfoldable pub enable_port : (Port S → Port S) → Bool → Controlled S → Controlled S
  unfolding pd_comm_enable pd_set_suspend
  enable_port others enable c = record c {
    port = pd_set_suspend drv others (not enable) (pd_comm_enable drv enable c.port);
    comm_enabled = enable;
  }

  -- A subcommand that is not disabled. HAS_TASK_PDCMD is not set; `has_power_mode` says whether the
  -- board has `board_set_tcpc_power_mode`, which does not touch the port.
  unfoldable pub run_control :
      (Port S → Port S) → Bool → PdControl → Controlled S → Controlled S × EcResult
  unfolding enable_port
  run_control others has_power_mode PdControl.suspend c =
      (enable_port others false c, EcResult.success)
  run_control others has_power_mode PdControl.resume c =
      (enable_port others true c, EcResult.success)
  run_control others has_power_mode PdControl.chip_on c =
      (c, (if has_power_mode then EcResult.success else EcResult.invalid_command))
  run_control others has_power_mode _ c = (c, EcResult.invalid_command)

  -- `chip`, `subcmd`
  unfoldable pub pd_control :
      (Port S → Port S) → Bool → ℕ → PdControl → Controlled S → Controlled S × EcResult
  unfolding run_control
  pd_control others has_power_mode chip PdControl.disable c =
      if leb 1 chip
      then (c, EcResult.invalid_param)
      else (record c { disabled = true }, EcResult.success)
  pd_control others has_power_mode chip subcmd c =
      if leb 1 chip
      then (c, EcResult.invalid_param)
      else if c.disabled
      then (c, EcResult.access_denied)
      else run_control others has_power_mode subcmd c
