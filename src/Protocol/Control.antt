-- ===== src/Protocol/Control.antt =====
-- NOA_ESP32_PD/usb_pd_protocol.cpp: the control messages, and the entry for every message.
use noa_esp32_pd.Base.{ℕ, ◌==◌, ◌&&◌, not, Bool, true, false, List, if◌then◌else◌}
use noa_esp32_pd.Base.Int.{is_neg}
use noa_esp32_pd.Board.{pd_check_power_swap, pd_check_data_swap}
use noa_esp32_pd.Message.Header.{header_type, header_cnt}
use noa_esp32_pd.Message.Types.Ctrl
use noa_esp32_pd.Protocol.Flags
use noa_esp32_pd.Protocol.Port.{
  sink, TcpmDrv, Port, snk_discovery, snk_requested, snk_transition, snk_ready, src_discovery,
  src_negociate, src_ready, snk_swap_init, snk_swap_snk_disable, snk_swap_src_disable,
  snk_swap_standby, src_swap_init, src_swap_snk_disable, src_swap_standby, dr_swap, soft_reset,
  hard_reset_send,
}
use noa_esp32_pd.Protocol.Core.{
  msec, dual_role_if_else, in_state, set_state, start_timer, set_flag, clear_flag, has_flag,
  pd_is_connected, pd_update_roles, pd_dr_swap, ready_return_state,
}
use noa_esp32_pd.Protocol.Transmit.{send_control, send_source_cap, send_sink_cap}
use noa_esp32_pd.Protocol.Reset.{execute_soft_reset}
use noa_esp32_pd.Protocol.Negotiate.{handle_data_request}

module _ {S : Type 0} (drv : TcpmDrv S) where
  -- PD_CTRL_GET_SOURCE_CAP
  unfoldable pub on_get_source_cap : Port S → Port S
  unfolding send_source_cap in_state set_state
  on_get_source_cap w =
      let r = send_source_cap drv w in
      if not (is_neg r.1) && in_state r.0 src_discovery
      then set_state drv src_negociate r.0
      else r.0

  -- PD_CTRL_PS_RDY
  unfoldable pub on_ps_rdy : Port S → Port S
  unfolding in_state set_state pd_update_roles
  on_ps_rdy w =
      if in_state w snk_swap_src_disable
      then set_state drv snk_swap_standby w
      else if in_state w src_swap_standby
      then set_state drv snk_discovery
          (pd_update_roles drv (record w { msg_id = 0; power_role = sink }))
      else if in_state w snk_discovery
      then set_state drv hard_reset_send w
      else if in_state w snk_swap_standby
      then w
      else dual_role_if_else w.power_role (set_state drv snk_ready w) w

  -- PD_CTRL_REJECT and PD_CTRL_WAIT while a request of ours is out.
  unfoldable pub request_refused : Bool → Port S → Port S
  unfolding has_flag set_state start_timer
  request_refused is_wait w =
      if has_flag w Flags.explicit_contract
      then (if is_wait
          then start_timer (msec 100) snk_ready
              (record w { new_power_request = true; prev_request_mv = 0 })
          else set_state drv snk_ready w)
      else set_state drv snk_discovery w

  -- PD_CTRL_REJECT and PD_CTRL_WAIT
  unfoldable pub on_refused : Bool → Port S → Port S
  unfolding in_state set_state request_refused ready_return_state
  on_refused is_wait w =
      if in_state w dr_swap
      then set_state drv (ready_return_state w) w
      else if in_state w src_swap_init
      then set_state drv src_ready w
      else if in_state w snk_swap_init
      then set_state drv snk_ready w
      else if in_state w snk_requested
      then request_refused is_wait w
      else w

  -- PD_CTRL_ACCEPT
  unfoldable pub on_accept : Port S → Port S
  unfolding in_state set_state set_flag clear_flag execute_soft_reset pd_dr_swap ready_return_state
  on_accept w =
      if in_state w soft_reset
      then execute_soft_reset drv (clear_flag Flags.vbus_never_low w)
      else if in_state w dr_swap
      then (let v = pd_dr_swap drv w in set_state drv (ready_return_state v) v)
      else if in_state w src_swap_init
      then set_state drv src_swap_snk_disable (clear_flag Flags.explicit_contract w)
      else if in_state w snk_swap_init
      then set_state drv snk_swap_snk_disable (clear_flag Flags.explicit_contract w)
      else if in_state w snk_requested
      then set_state drv snk_transition (set_flag Flags.explicit_contract w)
      else w

  -- PD_CTRL_PR_SWAP
  unfoldable pub on_pr_swap : Port S → Port S
  unfolding pd_check_power_swap send_control clear_flag set_state
  on_pr_swap w =
      if pd_check_power_swap
      then (let v = clear_flag Flags.check_pr_role (send_control drv Ctrl.accept w).0 in
          set_state drv (dual_role_if_else v.power_role snk_swap_snk_disable src_swap_snk_disable)
            v)
      else (send_control drv Ctrl.reject w).0

  -- PD_CTRL_DR_SWAP
  unfoldable pub on_dr_swap : Port S → Port S
  unfolding pd_check_data_swap send_control clear_flag pd_dr_swap
  on_dr_swap w =
      if pd_check_data_swap
      then (let r = send_control drv Ctrl.accept (clear_flag Flags.check_dr_role w) in
          if is_neg r.1 then r.0 else pd_dr_swap drv r.0)
      else (send_control drv Ctrl.reject w).0

  unfoldable pub handle_ctrl_request : ℕ → Port S → Port S
  unfolding header_type on_get_source_cap send_sink_cap on_ps_rdy on_refused on_accept
      execute_soft_reset send_control on_pr_swap on_dr_swap
  handle_ctrl_request head w =
      let type = header_type head in
      if type == Ctrl.get_source_cap
      then on_get_source_cap w
      else if type == Ctrl.get_sink_cap
      then send_sink_cap drv w
      else if type == Ctrl.ps_rdy
      then on_ps_rdy w
      else if type == Ctrl.reject
      then on_refused false w
      else if type == Ctrl.wait
      then on_refused true w
      else if type == Ctrl.accept
      then on_accept w
      else if type == Ctrl.soft_reset
      then (send_control drv Ctrl.accept (execute_soft_reset drv w)).0
      else if type == Ctrl.pr_swap
      then on_pr_swap w
      else if type == Ctrl.dr_swap
      then on_dr_swap w
      else if type == Ctrl.vconn_swap
      then (send_control drv Ctrl.reject w).0
      else w

  -- A port that is not connected ignores every message.
  unfoldable pub handle_request : ℕ → List ℕ → Port S → Port S
  unfolding pd_is_connected header_cnt handle_data_request handle_ctrl_request
  handle_request head payload w =
      if pd_is_connected w
      then (if header_cnt head == 0
          then handle_ctrl_request head w
          else handle_data_request drv head payload w)
      else w
