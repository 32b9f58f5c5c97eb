-- ===== src/Protocol/SinkOnly/Controls.antt =====
-- NOA_ESP32_PD/usb_pd_protocol.cpp: every control message that a port which stays a sink handles,
-- and a hard or soft reset, keeps the invariant.
use noa_esp32_pd.Base.{ℕ, Bool, true, false, if◌then◌else◌, ◌≡◌, ◌||◌, refl, arith, List}
use noa_esp32_pd.Board.{pd_check_power_swap, pd_check_data_swap, pd_src_pdo, pd_src_pdo_cnt}
use noa_esp32_pd.Fusb302.Control.{CcPull}
use noa_esp32_pd.Fusb302.Frame.{sop}
use noa_esp32_pd.Message.Types.DataMsg
use noa_esp32_pd.Protocol.Port.{
  PowerRole, sink, source, TcpmDrv, Port, snk_swap_src_disable, src_swap_standby, dr_swap,
  src_swap_init, snk_swap_init, snk_swap_standby, snk_swap_complete, hard_reset_execute,
}
use noa_esp32_pd.Protocol.Core.{index, in_state, tcpm_set_cc}
use noa_esp32_pd.Protocol.Transmit.{port_header, send_source_cap, send_sink_cap}
use noa_esp32_pd.Protocol.Reset.{reset_by_role, pd_execute_hard_reset, execute_soft_reset}
use noa_esp32_pd.Protocol.Control.{
  on_get_source_cap, on_ps_rdy, request_refused, on_refused, on_accept, on_pr_swap, on_dr_swap,
  handle_ctrl_request, handle_request,
}
use noa_esp32_pd.Protocol.SinkOnly.{
  IsSinkOnly, KeepsSafe, is_sink_side, sink_rules, transmit-IsSinkOnly, else-IsSinkOnly,
  if-IsSinkOnly, in_state-false, reset_id-IsSinkOnly, send_control-IsSinkOnly, role-sink,
}
use noa_esp32_pd.Protocol.SinkOnly.Messages.{data_request-IsSinkOnly}

module _ {S : Type 0} (drv : TcpmDrv S) (Safe : S → Type 0) (keeps : KeepsSafe drv Safe) where
  reset_by_role-IsSinkOnly :
      (r : PowerRole) (w : Port S)
      → r ≡ sink
      → IsSinkOnly Safe w
      → IsSinkOnly Safe (reset_by_role drv r w)
  unfolding reset_by_role is_sink_side index
  reset_by_role-IsSinkOnly sink w e h = search sink_rules
  reset_by_role-IsSinkOnly source w e h = ground arith

  pub hard_reset-IsSinkOnly :
      (w : Port S) → IsSinkOnly Safe w → IsSinkOnly Safe (pd_execute_hard_reset drv w)
  unfolding pd_execute_hard_reset is_sink_side index
  hard_reset-IsSinkOnly w h =
      let v = record w { msg_id = 0; last_state = hard_reset_execute } in
      let hi = reset_id-IsSinkOnly Safe w h in
      let hv : IsSinkOnly Safe v = search in
      let e : (in_state v snk_swap_standby || in_state v snk_swap_complete) ≡ false =
        rw
          (
            in_state-false Safe v snk_swap_standby hv refl,
            in_state-false Safe v snk_swap_complete hv refl,
          )
          refl in
      let b = in_state v snk_swap_standby || in_state v snk_swap_complete in
      let u = if b then tcpm_set_cc drv CcPull.rd v else v in
      let hu : IsSinkOnly Safe u = else-IsSinkOnly Safe b _ v e hv in
      reset_by_role-IsSinkOnly u.power_role u (role-sink Safe u hu) hu

  pub soft_reset-IsSinkOnly :
      (w : Port S) → IsSinkOnly Safe w → IsSinkOnly Safe (execute_soft_reset drv w)
  unfolding execute_soft_reset is_sink_side index
  soft_reset-IsSinkOnly w h = let hv = reset_id-IsSinkOnly Safe w h in search sink_rules

  pub get_source_cap-IsSinkOnly :
      (w : Port S) → IsSinkOnly Safe w → IsSinkOnly Safe (on_get_source_cap drv w)
  unfolding on_get_source_cap send_source_cap is_sink_side index
  get_source_cap-IsSinkOnly w h =
      let head = port_header DataMsg.source_cap pd_src_pdo_cnt w in
      let hv = transmit-IsSinkOnly drv Safe keeps sop head pd_src_pdo w h in search sink_rules

  pub sink_cap_sent-IsSinkOnly :
      (w : Port S) → IsSinkOnly Safe w → IsSinkOnly Safe (send_sink_cap drv w)
  unfolding send_sink_cap
  sink_cap_sent-IsSinkOnly w h = search sink_rules

  pub ps_rdy-IsSinkOnly : (w : Port S) → IsSinkOnly Safe w → IsSinkOnly Safe (on_ps_rdy drv w)
  unfolding on_ps_rdy is_sink_side index
  ps_rdy-IsSinkOnly w h =
      let e1 = in_state-false Safe w snk_swap_src_disable h refl in
      let e2 = in_state-false Safe w src_swap_standby h refl in search sink_rules depth 7

  pub request_refused-IsSinkOnly :
      (wait : Bool) (w : Port S) → IsSinkOnly Safe w → IsSinkOnly Safe (request_refused drv wait w)
  unfolding request_refused is_sink_side index
  request_refused-IsSinkOnly wait w h =
      let v = record w { new_power_request = true; prev_request_mv = 0 } in
      let hv : IsSinkOnly Safe v = search in search sink_rules

  pub refused-IsSinkOnly :
      (wait : Bool) (w : Port S) → IsSinkOnly Safe w → IsSinkOnly Safe (on_refused drv wait w)
  unfolding on_refused is_sink_side index
  refused-IsSinkOnly wait w h =
      let e1 = in_state-false Safe w dr_swap h refl in
      let e2 = in_state-false Safe w src_swap_init h refl in
      let e3 = in_state-false Safe w snk_swap_init h refl in
      search (else-IsSinkOnly, if-IsSinkOnly, request_refused-IsSinkOnly)

  pub accept-IsSinkOnly : (w : Port S) → IsSinkOnly Safe w → IsSinkOnly Safe (on_accept drv w)
  unfolding on_accept is_sink_side index
  accept-IsSinkOnly w h =
      let e1 = in_state-false Safe w dr_swap h refl in
      let e2 = in_state-false Safe w src_swap_init h refl in
      let e3 = in_state-false Safe w snk_swap_init h refl in
      search (sink_rules, soft_reset-IsSinkOnly) depth 8

  pub ctrl_request-IsSinkOnly :
      (head : ℕ) (w : Port S) → IsSinkOnly Safe w → IsSinkOnly Safe (handle_ctrl_request drv head w)
  unfolding handle_ctrl_request on_dr_swap pd_check_data_swap on_pr_swap pd_check_power_swap
  ctrl_request-IsSinkOnly head w h =
      let hs = soft_reset-IsSinkOnly w h in
      search
        (
          if-IsSinkOnly, get_source_cap-IsSinkOnly, sink_cap_sent-IsSinkOnly, ps_rdy-IsSinkOnly,
          refused-IsSinkOnly, accept-IsSinkOnly, send_control-IsSinkOnly,
        )
        depth 14

  pub handle_request-IsSinkOnly :
      (head : ℕ) (payload : List ℕ) (w : Port S)
      → IsSinkOnly Safe w
      → IsSinkOnly Safe (handle_request drv head payload w)
  unfolding handle_request
  handle_request-IsSinkOnly head payload w h =
      search (if-IsSinkOnly, ctrl_request-IsSinkOnly, data_request-IsSinkOnly)
