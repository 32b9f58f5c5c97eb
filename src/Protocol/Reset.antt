-- ===== src/Protocol/Reset.antt =====
-- NOA_ESP32_PD/usb_pd_protocol.cpp: hard and soft reset, and the requests of the application.
use noa_esp32_pd.Base.{◌+◌, ◌||◌, ◌&&◌, not, Bool, true, false, if◌then◌else◌}
use noa_esp32_pd.Fusb302.Control.{CcPull}
use noa_esp32_pd.Protocol.Flags
use noa_esp32_pd.Protocol.Port.{
  PowerRole, sink, source, DrpState, TcpmDrv, Port, snk_discovery, src_discovery,
  snk_hard_reset_recover, src_hard_reset_recover, hard_reset_execute, snk_swap_standby,
  snk_swap_complete, soft_reset, snk_ready, src_ready, snk_swap_init, src_swap_init, dr_swap,
  src_disconnected, snk_disconnected,
}
use noa_esp32_pd.Protocol.Core.{
  msec, dual_role_if_else, in_state, set_state, has_flag, read_time, tcpm_set_cc, pd_is_connected,
  is_source,
}

abbrev pub is_force_sink : DrpState → Bool
is_force_sink DrpState.force_sink = true
is_force_sink _ = false

abbrev pub is_force_source : DrpState → Bool
is_force_source DrpState.force_source = true
is_force_source _ = false

abbrev pub is_toggle_off : DrpState → Bool
is_toggle_off DrpState.toggle_off = true
is_toggle_off _ = false

abbrev pub is_toggle_on : DrpState → Bool
is_toggle_on DrpState.toggle_on = true
is_toggle_on _ = false

abbrev pub is_freeze : DrpState → Bool
is_freeze DrpState.freeze = true
is_freeze _ = false

module _ {S : Type 0} (drv : TcpmDrv S) where
  -- The second half of `pd_execute_hard_reset`: a source waits PD_T_SRC_RECOVER.
  unfoldable pub reset_by_role : PowerRole → Port S → Port S
  unfolding set_state read_time
  reset_by_role sink w = set_state drv snk_hard_reset_recover w
  reset_by_role source w =
      let r = read_time w in
      let v = r.0 in
      set_state drv src_hard_reset_recover (record v { src_recover = r.1 + msec 760 })

  unfoldable pub pd_execute_hard_reset : Port S → Port S
  unfolding reset_by_role in_state tcpm_set_cc
  pd_execute_hard_reset w =
      let v = record w { msg_id = 0; last_state = hard_reset_execute } in
      let u =
        if in_state v snk_swap_standby || in_state v snk_swap_complete
        then tcpm_set_cc drv CcPull.rd v
        else v in
      reset_by_role u.power_role u

  unfoldable pub execute_soft_reset : Port S → Port S
  unfolding set_state
  execute_soft_reset w =
      set_state drv (dual_role_if_else w.power_role snk_discovery src_discovery)
        (record w { msg_id = 0 })

  unfoldable pub pd_soft_reset : Port S → Port S
  unfolding set_state pd_is_connected
  pd_soft_reset w = if pd_is_connected w then set_state drv soft_reset w else w

  unfoldable pub pd_request_power_swap : Port S → Port S
  unfolding set_state in_state
  pd_request_power_swap w =
      if in_state w src_ready
      then set_state drv src_swap_init w
      else if in_state w snk_ready
      then set_state drv snk_swap_init w
      else w

  unfoldable pub pd_request_data_swap : Port S → Port S
  unfolding set_state in_state
  pd_request_data_swap w =
      if in_state w (dual_role_if_else w.power_role snk_ready src_ready)
      then set_state drv dr_swap w
      else w

  -- The first half of `pd_update_dual_role_config`: give up the source role.
  unfoldable pub leave_source : Port S → Port S
  unfolding set_state in_state has_flag tcpm_set_cc
  leave_source w =
      if is_source w.power_role
        && (is_force_sink w.drp_state && not (has_flag w Flags.ts_dts_partner)
            || is_toggle_off w.drp_state && in_state w src_disconnected)
      then tcpm_set_cc drv CcPull.rd
          (set_state drv snk_disconnected (record w { power_role = sink }))
      else w

  unfoldable pub pd_update_dual_role_config : Port S → Port S
  unfolding leave_source set_state tcpm_set_cc
  pd_update_dual_role_config w =
      let v = leave_source w in
      if not (is_source v.power_role) && is_force_source v.drp_state
      then tcpm_set_cc drv CcPull.rp
          (set_state drv src_disconnected (record v { power_role = source }))
      else v
