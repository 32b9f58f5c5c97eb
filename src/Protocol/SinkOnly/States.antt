-- ===== src/Protocol/SinkOnly/States.antt =====
-- NOA_ESP32_PD/usb_pd_protocol.cpp: the states of `pd_run_state_machine` that a port which stays a
-- sink runs keep the invariant.
use noa_esp32_pd.Base.{true, false, ◌≡◌, ◌&&◌, not, []}
use noa_esp32_pd.Protocol.Flags
use noa_esp32_pd.Board.{pd_snk_is_vbus_provided}
use noa_esp32_pd.Fusb302.Frame.{hard_reset}
use noa_esp32_pd.Protocol.Reset.{is_toggle_on}
use noa_esp32_pd.Protocol.Port.{CcState, ufp, TcpmDrv, Port}
use noa_esp32_pd.Protocol.Core.{
  index, set_wake, tcpm_get_cc, has_flag, tcpm_set_rx_enable, tcpm_set_polarity, pd_set_data_role,
  msec,
}
use noa_esp32_pd.Protocol.CcLines.{get_snk_polarity, get_typec_current_limit}
use noa_esp32_pd.Protocol.Sink
use noa_esp32_pd.Protocol.Swap
use noa_esp32_pd.Protocol.SinkOnly.{
  IsSinkOnly, KeepsSafe, is_sink_side, sink_rules, set_flag-IsSinkOnly, read_time-IsSinkOnly,
  transmit-IsSinkOnly,
}

module _ {S : Type 0} (drv : TcpmDrv S) (Safe : S → Type 0) (keeps : KeepsSafe drv Safe) where
  discovery_timer-IsSinkOnly :
      (w : Port S) → IsSinkOnly Safe w → IsSinkOnly Safe (Sink.discovery_timer drv w)
  unfolding Sink.discovery_timer is_sink_side index
  discovery_timer-IsSinkOnly w h = search sink_rules

  watch_current-IsSinkOnly :
      (w : Port S) → IsSinkOnly Safe w → IsSinkOnly Safe (Sink.watch_current drv w)
  unfolding Sink.watch_current
  watch_current-IsSinkOnly w h =
      let hv : IsSinkOnly Safe (tcpm_get_cc drv (set_wake (msec 40) w)) = search sink_rules in
      search sink_rules

  pub run_snk_discovery-IsSinkOnly :
      (w : Port S) → IsSinkOnly Safe w → IsSinkOnly Safe (Sink.run_snk_discovery drv w)
  unfolding Sink.run_snk_discovery
  run_snk_discovery-IsSinkOnly w h =
      let hv = discovery_timer-IsSinkOnly w h in search (sink_rules, watch_current-IsSinkOnly)

  snk_no_source-IsSinkOnly :
      (w : Port S) → IsSinkOnly Safe w → IsSinkOnly Safe (Sink.snk_no_source drv w)
  unfolding Sink.snk_no_source
  snk_no_source-IsSinkOnly w h = let e : is_toggle_on w.drp_state ≡ false = cc in search sink_rules

  pub run_snk_disconnected-IsSinkOnly :
      (w : Port S) → IsSinkOnly Safe w → IsSinkOnly Safe (Sink.run_snk_disconnected drv w)
  unfolding Sink.run_snk_disconnected is_sink_side index
  run_snk_disconnected-IsSinkOnly w h =
      let v = tcpm_get_cc drv (set_wake (msec 10) w) in
      let hv : IsSinkOnly Safe v = search sink_rules in
      let u = record v {
        cc_state = CcState.cc_none;
        hard_reset_count = 0;
        new_cc_state = CcState.cc_none;
      } in
      let hu : IsSinkOnly Safe u = search in
      let hr = read_time-IsSinkOnly Safe u hu in search (sink_rules, snk_no_source-IsSinkOnly)

  pub run_snk_requested-IsSinkOnly :
      (w : Port S) → IsSinkOnly Safe w → IsSinkOnly Safe (Sink.run_snk_requested drv w)
  unfolding Sink.run_snk_requested is_sink_side index
  run_snk_requested-IsSinkOnly w h = search sink_rules

  pub run_snk_transition-IsSinkOnly :
      (w : Port S) → IsSinkOnly Safe w → IsSinkOnly Safe (Sink.run_snk_transition drv w)
  unfolding Sink.run_snk_transition Sink.timer_on_entry is_sink_side index
  run_snk_transition-IsSinkOnly w h = search sink_rules

  pub run_snk_hard_reset_recover-IsSinkOnly :
      (w : Port S) → IsSinkOnly Safe w → IsSinkOnly Safe (Sink.run_snk_hard_reset_recover drv w)
  unfolding Sink.run_snk_hard_reset_recover Sink.pd_is_vbus_present pd_snk_is_vbus_provided
      is_sink_side index
  run_snk_hard_reset_recover-IsSinkOnly w h =
      let hu = set_flag-IsSinkOnly Safe Flags.check_identity w h in search (sink_rules) depth 9

  pub run_soft_reset-IsSinkOnly :
      (w : Port S) → IsSinkOnly Safe w → IsSinkOnly Safe (Swap.run_soft_reset drv w)
  unfolding Swap.run_soft_reset is_sink_side index
  run_soft_reset-IsSinkOnly w h = search sink_rules depth 7

  send_hard_reset-IsSinkOnly :
      (w : Port S) → IsSinkOnly Safe w → IsSinkOnly Safe (Swap.send_hard_reset drv w)
  unfolding Swap.send_hard_reset is_sink_side index
  send_hard_reset-IsSinkOnly w h =
      let hv = transmit-IsSinkOnly drv Safe keeps hard_reset 0 [] w h in search sink_rules

  pub run_hard_reset_send-IsSinkOnly :
      (w : Port S) → IsSinkOnly Safe w → IsSinkOnly Safe (Swap.run_hard_reset_send drv w)
  unfolding Swap.run_hard_reset_send
  run_hard_reset_send-IsSinkOnly w h = search (sink_rules, send_hard_reset-IsSinkOnly)

  set_data_role-IsSinkOnly :
      (w : Port S) → IsSinkOnly Safe w → IsSinkOnly Safe (pd_set_data_role drv ufp w)
  unfolding pd_set_data_role
  set_data_role-IsSinkOnly w h =
      let hv : IsSinkOnly Safe (record w { data_role = ufp }) = search in search sink_rules

  snk_attach-IsSinkOnly : (w : Port S) → IsSinkOnly Safe w → IsSinkOnly Safe (Sink.snk_attach drv w)
  unfolding Sink.snk_attach is_sink_side index
  snk_attach-IsSinkOnly w h =
      let w0 = record w { polarity = get_snk_polarity w.cc1 w.cc2 } in
      let h0 : IsSinkOnly Safe w0 = search in
      let w1 = tcpm_set_polarity drv w0 in
      let h1 : IsSinkOnly Safe w1 = search sink_rules in
      let w2 = pd_set_data_role drv ufp (record w1 { msg_id = 0 }) in
      let h2 : IsSinkOnly Safe w2 = search (sink_rules, set_data_role-IsSinkOnly) in
      let v2 = record w2 { typec_curr = get_typec_current_limit w2.polarity w2.cc1 w2.cc2 } in
      let i2 : IsSinkOnly Safe v2 = search in
      let h3 : IsSinkOnly Safe (tcpm_set_rx_enable drv true v2) = search sink_rules in
      search sink_rules depth 12

  snk_debounce-IsSinkOnly :
      (w : Port S) → IsSinkOnly Safe w → IsSinkOnly Safe (Sink.snk_debounce drv w)
  unfolding Sink.snk_debounce
  snk_debounce-IsSinkOnly w h =
      let v = set_wake (msec 20) w in
      let hv : IsSinkOnly Safe v = search sink_rules in
      let hr = read_time-IsSinkOnly Safe v hv in
      let e : (v.pd_try_src_enable && not (has_flag v Flags.try_src)) ≡ false = cc in
      search (sink_rules, snk_attach-IsSinkOnly)

  pub run_snk_disconnected_debounce-IsSinkOnly :
      (w : Port S) → IsSinkOnly Safe w → IsSinkOnly Safe (Sink.run_snk_disconnected_debounce drv w)
  unfolding Sink.run_snk_disconnected_debounce is_sink_side index
  run_snk_disconnected_debounce-IsSinkOnly w h =
      let hv : IsSinkOnly Safe (tcpm_get_cc drv w) = search sink_rules in
      let v = tcpm_get_cc drv w in
      let h1 : IsSinkOnly Safe (record v { new_cc_state = CcState.debug_acc }) = search in
      let h2 : IsSinkOnly Safe (record v { new_cc_state = CcState.dfp_attached }) = search in
      search (sink_rules, snk_debounce-IsSinkOnly)

  pub run_suspended-IsSinkOnly :
      (w : Port S) → IsSinkOnly Safe w → IsSinkOnly Safe (Swap.run_suspended drv w)
  unfolding Swap.run_suspended is_sink_side index
  run_suspended-IsSinkOnly w h =
      let v = record w { req_suspend_state = false; tcpc = (drv.release w.tcpc).0 } in
      let hv : IsSinkOnly Safe v = record { safe = keeps.release w.tcpc h.safe; port = h.port } in
      let u = record v { tcpc = (drv.init v.tcpc).0 } in
      let hu : IsSinkOnly Safe u = record { safe = keeps.init v.tcpc hv.safe; port = h.port } in
      search sink_rules
