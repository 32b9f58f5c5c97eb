-- ===== src/Protocol/SinkOnly/Runs.antt =====
-- NOA_ESP32_PD/usb_pd_protocol.cpp: `pd_run_state_machine` and `pd_init` of a port that stays a
-- sink.
use noa_esp32_pd.Base.{◌+◌, Bool, true, false, if◌then◌else◌, ◌≡◌, refl, arith}
use noa_esp32_pd.Base.Bits.{has}
use noa_esp32_pd.Board.{pd_board_checks, pd_src_pdo, pd_src_pdo_cnt}
use noa_esp32_pd.Fusb302.Control.{RpValue}
use noa_esp32_pd.Fusb302.Frame.{sop, Received, packet, nothing, only_good_crc, no_fuel, copy_words}
use noa_esp32_pd.Message.Types.DataMsg
use noa_esp32_pd.Protocol.Port.{PdState, sink, VdmState, TcpmDrv, Port, suspended, snk_disconnected}
use noa_esp32_pd.Protocol.Core.{
  index, set_state, set_wake, is_source, msec, read_time, tcpm_set_rx_enable,
}
use noa_esp32_pd.Protocol.Transmit.{port_header, send_source_cap}
use noa_esp32_pd.Protocol.Sink
use noa_esp32_pd.Protocol.Source
use noa_esp32_pd.Protocol.Swap
use noa_esp32_pd.Protocol.Run.{
  event_tcpc_reset, event_update_dual_role, tcpm_init, pd_init, on_events, on_received, receive,
  run_state, check_timeout, source_disconnect, sink_disconnect, check_disconnect, before_switch,
  pd_run_state_machine,
}
use noa_esp32_pd.Protocol.SinkOnly.{
  IsSinkOnly, KeepsSafe, is_sink_side, sink_rules, transmit-IsSinkOnly, else-IsSinkOnly,
  if-IsSinkOnly, read_time-IsSinkOnly, set_wake-IsSinkOnly,
}
use noa_esp32_pd.Protocol.SinkOnly.States.{
  run_snk_discovery-IsSinkOnly, run_snk_disconnected-IsSinkOnly, run_snk_requested-IsSinkOnly,
  run_snk_transition-IsSinkOnly, run_snk_hard_reset_recover-IsSinkOnly, run_soft_reset-IsSinkOnly,
  run_hard_reset_send-IsSinkOnly, run_snk_disconnected_debounce-IsSinkOnly,
  run_suspended-IsSinkOnly,
}
use noa_esp32_pd.Protocol.SinkOnly.Messages.{
  send_vdm-IsSinkOnly, send_request_msg-IsSinkOnly, vdm_machine-IsSinkOnly,
}
use noa_esp32_pd.Protocol.SinkOnly.Controls.{handle_request-IsSinkOnly, hard_reset-IsSinkOnly}

module _ {S : Type 0} (drv : TcpmDrv S) (Safe : S → Type 0) (keeps : KeepsSafe drv Safe) where
  run_snk_ready-IsSinkOnly :
      (w : Port S) → IsSinkOnly Safe w → IsSinkOnly Safe (Sink.run_snk_ready drv w)
  unfolding Sink.run_snk_ready is_sink_side index
  run_snk_ready-IsSinkOnly w h =
      let hw = set_wake-IsSinkOnly Safe (msec 20) w h in
      let hr = send_request_msg-IsSinkOnly drv Safe keeps false (set_wake (msec 20) w) hw in
      search (sink_rules, send_vdm-IsSinkOnly) depth 9

  src_ready_checks-IsSinkOnly :
      (w : Port S) → IsSinkOnly Safe w → IsSinkOnly Safe (Source.src_ready_checks drv w)
  unfolding Source.src_ready_checks is_sink_side index
  src_ready_checks-IsSinkOnly w h = search (sink_rules, send_vdm-IsSinkOnly) depth 9

  run_src_ready-IsSinkOnly :
      (w : Port S) → IsSinkOnly Safe w → IsSinkOnly Safe (Source.run_src_ready drv w)
  unfolding Source.run_src_ready send_source_cap is_sink_side index
  run_src_ready-IsSinkOnly w h =
      let v = set_wake (msec 45) w in
      let hv = set_wake-IsSinkOnly Safe (msec 45) w h in
      let head = port_header DataMsg.source_cap pd_src_pdo_cnt v in
      let hr = transmit-IsSinkOnly drv Safe keeps sop head pd_src_pdo v hv in
      let hu : IsSinkOnly Safe (record v { snk_cap_count = v.snk_cap_count + 1 }) = search in
      search (sink_rules, src_ready_checks-IsSinkOnly) depth 9

  run_src_get_sink_cap-IsSinkOnly :
      (w : Port S) → IsSinkOnly Safe w → IsSinkOnly Safe (Source.run_src_get_sink_cap drv w)
  unfolding Source.run_src_get_sink_cap Sink.timer_on_entry is_sink_side index
  run_src_get_sink_cap-IsSinkOnly w h = search sink_rules

  run_src_negociate-IsSinkOnly :
      (w : Port S) → IsSinkOnly Safe w → IsSinkOnly Safe (Source.run_src_negociate drv w)
  unfolding Source.run_src_negociate Sink.timer_on_entry is_sink_side index
  run_src_negociate-IsSinkOnly w h = search sink_rules

  run_hard_reset_execute-IsSinkOnly :
      (w : Port S) → IsSinkOnly Safe w → IsSinkOnly Safe (Swap.run_hard_reset_execute drv w)
  unfolding Swap.run_hard_reset_execute is_sink_side index
  run_hard_reset_execute-IsSinkOnly w h = search (sink_rules, hard_reset-IsSinkOnly)

  run_state-IsSinkOnly :
      (s : PdState) (w : Port S)
      → is_sink_side s ≡ true
      → IsSinkOnly Safe w
      → IsSinkOnly Safe (run_state drv s w)
  unfolding run_state is_sink_side index
  run_state-IsSinkOnly PdState.disabled w e h = h
  run_state-IsSinkOnly PdState.suspended w e h = run_suspended-IsSinkOnly drv Safe keeps w h
  run_state-IsSinkOnly PdState.snk_disconnected w e h =
      run_snk_disconnected-IsSinkOnly drv Safe keeps w h
  run_state-IsSinkOnly PdState.snk_disconnected_debounce w e h =
      run_snk_disconnected_debounce-IsSinkOnly drv Safe keeps w h
  run_state-IsSinkOnly PdState.snk_hard_reset_recover w e h =
      run_snk_hard_reset_recover-IsSinkOnly drv Safe keeps w h
  run_state-IsSinkOnly PdState.snk_discovery w e h = run_snk_discovery-IsSinkOnly drv Safe keeps w h
  run_state-IsSinkOnly PdState.snk_requested w e h = run_snk_requested-IsSinkOnly drv Safe keeps w h
  run_state-IsSinkOnly PdState.snk_transition w e h =
      run_snk_transition-IsSinkOnly drv Safe keeps w h
  run_state-IsSinkOnly PdState.snk_ready w e h = run_snk_ready-IsSinkOnly w h
  run_state-IsSinkOnly PdState.src_negociate w e h = run_src_negociate-IsSinkOnly w h
  run_state-IsSinkOnly PdState.src_ready w e h = run_src_ready-IsSinkOnly w h
  run_state-IsSinkOnly PdState.src_get_sink_cap w e h = run_src_get_sink_cap-IsSinkOnly w h
  run_state-IsSinkOnly PdState.soft_reset w e h = run_soft_reset-IsSinkOnly drv Safe keeps w h
  run_state-IsSinkOnly PdState.hard_reset_send w e h =
      run_hard_reset_send-IsSinkOnly drv Safe keeps w h
  run_state-IsSinkOnly PdState.hard_reset_execute w e h = run_hard_reset_execute-IsSinkOnly w h
  run_state-IsSinkOnly _ w e h = ground arith

  check_timeout-IsSinkOnly :
      (w : Port S) → IsSinkOnly Safe w → IsSinkOnly Safe (check_timeout drv w)
  unfolding check_timeout
  check_timeout-IsSinkOnly w h =
      let hr = read_time-IsSinkOnly Safe w h in
      let e : is_sink_side (read_time w).0.timeout_state ≡ true = hr.port.6 in
      search sink_rules depth 7

  sink_disconnect-IsSinkOnly :
      (w : Port S) → IsSinkOnly Safe w → IsSinkOnly Safe (sink_disconnect drv w)
  unfolding sink_disconnect is_sink_side index
  sink_disconnect-IsSinkOnly w h = search sink_rules

  check_disconnect-IsSinkOnly :
      (w : Port S) → IsSinkOnly Safe w → IsSinkOnly Safe (check_disconnect drv w)
  unfolding check_disconnect
  check_disconnect-IsSinkOnly w h =
      let e : is_source w.power_role ≡ false = cc in
      let hs = else-IsSinkOnly Safe (is_source w.power_role) (source_disconnect drv w) w e h in
      search (if-IsSinkOnly, sink_disconnect-IsSinkOnly)

  on_events-IsSinkOnly : (w : Port S) → IsSinkOnly Safe w → IsSinkOnly Safe (on_events drv w)
  unfolding on_events
  on_events-IsSinkOnly w h =
      let e1 : has w.evt event_update_dual_role ≡ false = rw (h.port.3) refl in
      let e2 : has w.evt event_tcpc_reset ≡ false = rw (h.port.3) refl in rw (e1, e2) search

  on_received-IsSinkOnly :
      (r : Received) (w : Port S) → IsSinkOnly Safe w → IsSinkOnly Safe (on_received drv r w)
  unfolding on_received
  on_received-IsSinkOnly (packet head bytes) w h =
      let payload = copy_words bytes w.payload in
      handle_request-IsSinkOnly drv Safe keeps head payload
        (record w { head = head; payload = payload }) search
  on_received-IsSinkOnly (only_good_crc head) w h = search
  on_received-IsSinkOnly nothing w h = h
  on_received-IsSinkOnly no_fuel w h = h

  receive-IsSinkOnly : (w : Port S) → IsSinkOnly Safe w → IsSinkOnly Safe (receive drv w)
  unfolding receive
  receive-IsSinkOnly w h =
      let r = drv.get_message w.tcpc in
      on_received-IsSinkOnly r.1 (record w { tcpc = r.0 })
        (record { safe = keeps.get_message w.tcpc h.safe; port = h.port })

  soft_reset_first :
      (reset : Bool) (w : Port S)
      → IsSinkOnly Safe w
      → IsSinkOnly Safe (if reset then record w { task_state = PdState.soft_reset } else w)
  unfolding is_sink_side index
  soft_reset_first true w h =
      let p = h.port in record { safe = h.safe; port = (p.0, p.1, p.2, p.3, p.4, refl, p.6) }
  soft_reset_first false w h = h

  before_switch-IsSinkOnly :
      (reset : Bool) (w : Port S) → IsSinkOnly Safe w → IsSinkOnly Safe (before_switch drv reset w)
  unfolding before_switch pd_board_checks is_sink_side index
  before_switch-IsSinkOnly reset w h =
      let w1 = if reset then record w { task_state = PdState.soft_reset } else w in
      let h1 : IsSinkOnly Safe w1 = soft_reset_first reset w h in
      let h2 = vdm_machine-IsSinkOnly drv Safe keeps w1 h1 in
      search (sink_rules, receive-IsSinkOnly, on_events-IsSinkOnly) depth 7

  -- One run of the state machine, after a button press or not, keeps the invariant of a port that
  -- stays a sink, for every driver whose operations, with the CC lines pulled down only, keep
  -- `Safe`.
  pub run_state_machine-IsSinkOnly :
      (reset : Bool) (w : Port S)
      → IsSinkOnly Safe w
      → IsSinkOnly Safe (pd_run_state_machine drv reset w)
  unfolding pd_run_state_machine
  run_state_machine-IsSinkOnly reset w h =
      let b = before_switch drv reset w in
      let hb = before_switch-IsSinkOnly reset w h in
      let v = set_wake (msec 500) b in
      let hv = set_wake-IsSinkOnly Safe (msec 500) b hb in
      let u = run_state drv v.task_state v in
      let hu = run_state-IsSinkOnly v.task_state v hv.port.5 hv in
      let hx : IsSinkOnly Safe (record u { last_state = v.task_state }) = search in
      search (check_disconnect-IsSinkOnly, check_timeout-IsSinkOnly)

  pub tcpm_init-IsSinkOnly : (w : Port S) → IsSinkOnly Safe w → IsSinkOnly Safe (tcpm_init drv w).0
  unfolding tcpm_init
  tcpm_init-IsSinkOnly w h = record { safe = keeps.init w.tcpc h.safe; port = h.port }

  pub init-IsSinkOnly : (w : Port S) → IsSinkOnly Safe w → IsSinkOnly Safe (pd_init drv w)
  unfolding pd_init is_sink_side index
  init-IsSinkOnly w h =
      let w1 = (tcpm_init drv w).0 in
      let h1 = tcpm_init-IsSinkOnly w h in
      let f1 : IsSinkOnly Safe (record w1 { flags = 0 }) = search in
      let w2 = tcpm_set_rx_enable drv false (record w1 { flags = 0 }) in
      let h2 : IsSinkOnly Safe w2 = search sink_rules in
      let p = h2.port in
      let v2 = record w2 { power_role = sink; vdm_state = VdmState.vdm_done } in
      let k2 : IsSinkOnly Safe v2 = record {
        safe = h2.safe;
        port = (refl, p.1, p.2, p.3, p.4, p.5, p.6);
      } in
      let w3 = set_state drv (if (tcpm_init drv w).1 then snk_disconnected else suspended) v2 in
      let h3 : IsSinkOnly Safe w3 = search sink_rules in
      let c3 = (drv.select_rp_value RpValue.usb w3.tcpc).0 in
      let k3 : IsSinkOnly Safe (record w3 { tcpc = c3 }) = record {
        safe = keeps.select_rp_value RpValue.usb w3.tcpc h3.safe;
        port = h3.port;
      } in
      search sink_rules
