-- ===== src/Protocol/Commands.antt =====
-- NOA_ESP32_PD/usb_pd_protocol.cpp: the operations of the application on the port. Those under
-- CONFIG_COMMON_RUNTIME, which this build leaves out, keep `pd_comm_enabled` beside the port.
use noa_esp32_pd.Base.{ℕ, zero, suc, leb, ◌||◌, ◌&&◌, not, Bool, true, if◌then◌else◌}
use noa_esp32_pd.Fusb302.Control.{CcPull}
use noa_esp32_pd.Policy.Request.{pd_set_max_voltage}
use noa_esp32_pd.Protocol.Flags
use noa_esp32_pd.Protocol.Port.{
  PdState, PowerRole, sink, DrpState, TcpmDrv, Port, snk_ready, snk_transition, snk_disconnected,
  snk_discovery, hard_reset_send,
}
use noa_esp32_pd.Protocol.Core.{
  msec, in_state, index, set_state, set_flag, clear_flag, has_flag, start_timer, tcpm_set_cc,
  tcpm_set_rx_enable, pd_is_connected,
}

module _ {S : Type 0} where
  unfoldable pub pd_get_dual_role : Port S → DrpState
  pd_get_dual_role w = w.drp_state

  -- The event that tells the state machine of the new role is commented out. This is the build
  -- without CONFIG_USB_PD_TRY_SRC.
  unfoldable pub pd_set_dual_role : DrpState → Port S → Port S
  pd_set_dual_role state w = record w { drp_state = state }

  unfoldable pub dual_role_on : Port S → Port S
  unfolding set_flag pd_set_dual_role
  dual_role_on w =
      let v = set_flag Flags.check_dr_role (set_flag Flags.check_pr_role w) in
      pd_set_dual_role DrpState.toggle_on (set_flag Flags.check_identity v)

  unfoldable pub dual_role_off : Port S → Port S
  unfolding pd_set_dual_role
  dual_role_off w = pd_set_dual_role DrpState.toggle_off w

  unfoldable pub dual_role_force_sink : Port S → Port S
  unfolding pd_set_dual_role
  dual_role_force_sink w = pd_set_dual_role DrpState.force_sink w

  unfoldable pub pd_get_role : Port S → PowerRole
  pd_get_role w = w.power_role

  unfoldable pub pd_get_polarity : Port S → ℕ
  pd_get_polarity w = w.polarity

  unfoldable pub pd_get_partner_data_swap_capable : Port S → Bool
  unfolding has_flag
  pd_get_partner_data_swap_capable w = has_flag w Flags.partner_dr_data

  unfoldable pub pd_ping_enable : Bool → Port S → Port S
  unfolding set_flag clear_flag
  pd_ping_enable enable w =
      if enable then set_flag Flags.ping_enabled w else clear_flag Flags.ping_enabled w

  unfoldable pub pd_set_new_power_request : Port S → Port S
  pd_set_new_power_request w = record w { new_power_request = true }

  unfoldable pub pd_is_port_enabled : Port S → Bool
  unfolding in_state
  pd_is_port_enabled w = not (in_state w PdState.disabled || in_state w PdState.suspended)

  -- `task_state == PD_STATE_SNK_READY || task_state == PD_STATE_SNK_TRANSITION`
  unfoldable pub has_power : Port S → Bool
  unfolding in_state
  has_power w = in_state w snk_ready || in_state w snk_transition

  unfoldable pub pd_set_external_voltage_limit : ℕ → Port S → Port S
  unfolding pd_set_max_voltage has_power
  pd_set_external_voltage_limit mv w =
      let v = pd_set_max_voltage mv w in
      if has_power v then record v { new_power_request = true } else v

  -- From PD_STATE_SRC_NEGOCIATE to PD_STATE_SRC_GET_SINK_CAP.
  unfoldable pub pd_update_contract : Port S → Port S
  unfolding set_flag index
  pd_update_contract w =
      let s = index w.task_state in
      if leb 19 s && leb s 24 then set_flag Flags.update_src_caps w else w

module _ {S : Type 0} (drv : TcpmDrv S) where
  unfoldable pub pd_request_source_voltage : ℕ → Port S → Port S
  unfolding pd_set_max_voltage has_power tcpm_set_cc set_state
  pd_request_source_voltage mv w =
      let v = pd_set_max_voltage mv w in
      if has_power v
      then record v { new_power_request = true }
      else set_state drv snk_disconnected
          (tcpm_set_cc drv CcPull.rd (record v { power_role = sink }))

  -- The new `pd_comm_enabled` is the argument.
  unfoldable pub pd_comm_enable : Bool → Port S → Port S
  unfolding pd_is_connected tcpm_set_rx_enable in_state start_timer
  pd_comm_enable enable w =
      let v = if pd_is_connected w then tcpm_set_rx_enable drv enable w else w in
      if enable && in_state v snk_discovery then start_timer (msec 600) hard_reset_send v else v

  -- The wait for the suspended state: `others` is what the tasks do to the port during `msleep(1)`.
  unfoldable pub wait_suspended : (Port S → Port S) → ℕ → Port S → Port S
  unfolding in_state
  wait_suspended others zero w = w
  wait_suspended others (suc tries) w =
      if in_state w PdState.suspended then w else wait_suspended others tries (others w)

  unfoldable pub pd_set_suspend : (Port S → Port S) → Bool → Port S → Port S
  unfolding wait_suspended set_state
  pd_set_suspend others enable w =
      if enable
      then wait_suspended others 300 (record w { req_suspend_state = true })
      else set_state drv snk_disconnected w
