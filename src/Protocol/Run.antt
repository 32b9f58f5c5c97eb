-- ===== src/Protocol/Run.antt =====
-- NOA_ESP32_PD/usb_pd_protocol.cpp: `pd_init` and `pd_run_state_machine`.
use noa_esp32_pd.Base.{
  ℕ, ◌+◌, ◌-◌, ◌^◌, min, ltb, leb, ◌==◌, ◌&&◌, ◌||◌, not, Bool, true, false, [], if◌then◌else◌,
}
use noa_esp32_pd.Base.Bits.{has}
use noa_esp32_pd.Board.{pd_board_checks}
use noa_esp32_pd.Fusb302.Control.{CcPull, RpValue}
use noa_esp32_pd.Fusb302.Frame.{
  hard_reset, Received, packet, nothing, only_good_crc, no_fuel, copy_words,
}
use noa_esp32_pd.Volt
use noa_esp32_pd.Protocol.Flags
use noa_esp32_pd.Protocol.Port.{
  PdState, sink, VdmState, TcpmDrv, Port, snk_disconnected, snk_ready, snk_hard_reset_recover,
  src_disconnected, hard_reset_execute, suspended,
}
use noa_esp32_pd.Protocol.Core.{
  msec, is_source, in_state, set_state, set_wake, set_flag, read_time, tcpm_get_cc, tcpm_set_cc,
  tcpm_set_polarity, tcpm_set_rx_enable, pd_update_roles, pd_is_connected, pd_is_power_swapping,
}
use noa_esp32_pd.Protocol.Transmit.{pd_transmit}
use noa_esp32_pd.Protocol.Reset.{pd_execute_hard_reset, pd_update_dual_role_config}
use noa_esp32_pd.Protocol.Control.{handle_request}
use noa_esp32_pd.Protocol.Vdm.{pd_vdm_send_state_machine}
use noa_esp32_pd.Protocol.Sink
use noa_esp32_pd.Protocol.Source
use noa_esp32_pd.Protocol.Swap

-- PD_EVENT_RX, PD_EVENT_TCPC_RESET, PD_EVENT_UPDATE_DUAL_ROLE
abbrev pub event_rx : ℕ
event_rx = 2 ^ 2

abbrev pub event_tcpc_reset : ℕ
event_tcpc_reset = 2 ^ 5

abbrev pub event_update_dual_role : ℕ
event_update_dual_role = 2 ^ 6

abbrev pub is_vdm_done : VdmState → Bool
is_vdm_done VdmState.vdm_done = true
is_vdm_done _ = false

module _ {S : Type 0} (drv : TcpmDrv S) where
  unfoldable pub tcpm_init : Port S → Port S × Bool
  tcpm_init w = let r = drv.init w.tcpc in (record w { tcpc = r.0 }, Swap.is_ok r.1)

  -- The default role is SINK.
  unfoldable pub pd_init : Port S → Port S
  unfolding tcpm_init tcpm_set_rx_enable set_state tcpm_set_cc
  pd_init w0 =
      let r = tcpm_init w0 in
      let w1 = r.0 in
      let w2 = tcpm_set_rx_enable drv false (record w1 { flags = 0 }) in
      let w3 =
        set_state drv (if r.1 then snk_disconnected else suspended)
          (record w2 { power_role = sink; vdm_state = VdmState.vdm_done }) in
      tcpm_set_cc drv CcPull.rd (record w3 { tcpc = (drv.select_rp_value RpValue.usb w3.tcpc).0 })

  -- The handling of PD_EVENT_TCPC_RESET.
  unfoldable pub after_tcpc_reset : Port S → Port S
  unfolding tcpm_init tcpm_set_cc in_state tcpm_set_polarity pd_update_roles tcpm_set_rx_enable
      set_state
  after_tcpc_reset w0 =
      let w = tcpm_set_cc drv CcPull.rd (tcpm_init w0).0 in
      if is_vdm_done w.vdm_state && in_state w snk_ready
      then tcpm_set_rx_enable drv true (pd_update_roles drv (tcpm_set_polarity drv w))
      else set_state drv snk_disconnected
          (record w { power_role = sink; vdm_state = VdmState.vdm_done })

  -- The events; `evt` is a static that nothing sets.
  unfoldable pub on_events : Port S → Port S
  unfolding has pd_update_dual_role_config after_tcpc_reset
  on_events w0 =
      let w1 =
        if has w0.evt event_update_dual_role then pd_update_dual_role_config drv w0 else w0 in
      let w2 = if has w1.evt event_tcpc_reset then after_tcpc_reset w1 else w1 in
      record w2 { incoming_packet = has w2.evt event_rx }

  -- What `tcpm_get_message` gave, acted on.
  unfoldable pub on_received : Received → Port S → Port S
  unfolding copy_words handle_request
  on_received (packet head bytes) w =
      let payload = copy_words bytes w.payload in
      handle_request drv head payload (record w { head = head; payload = payload })
  on_received (only_good_crc head) w = record w { head = head }
  on_received nothing w = w
  on_received no_fuel w = w

  unfoldable pub receive : Port S → Port S
  unfolding on_received
  receive w = let r = drv.get_message w.tcpc in on_received r.1 (record w { tcpc = r.0 })

  -- `switch (this_state)`
  unfoldable pub run_state : PdState → Port S → Port S
  run_state PdState.disabled w = w
  run_state PdState.suspended w = Swap.run_suspended drv w
  run_state PdState.snk_disconnected w = Sink.run_snk_disconnected drv w
  run_state PdState.snk_disconnected_debounce w = Sink.run_snk_disconnected_debounce drv w
  run_state PdState.snk_hard_reset_recover w = Sink.run_snk_hard_reset_recover drv w
  run_state PdState.snk_discovery w = Sink.run_snk_discovery drv w
  run_state PdState.snk_requested w = Sink.run_snk_requested drv w
  run_state PdState.snk_transition w = Sink.run_snk_transition drv w
  run_state PdState.snk_ready w = Sink.run_snk_ready drv w
  run_state PdState.snk_swap_init w = Swap.run_snk_swap_init drv w
  run_state PdState.snk_swap_snk_disable w = Swap.run_snk_swap_snk_disable drv w
  run_state PdState.snk_swap_src_disable w = Swap.run_snk_swap_src_disable drv w
  run_state PdState.snk_swap_standby w = Swap.run_snk_swap_standby drv w
  run_state PdState.snk_swap_complete w = Swap.run_snk_swap_complete drv w
  run_state PdState.src_disconnected w = Source.run_src_disconnected drv w
  run_state PdState.src_disconnected_debounce w = Source.run_src_disconnected_debounce drv w
  run_state PdState.src_hard_reset_recover w = Source.run_src_hard_reset_recover drv w
  run_state PdState.src_startup w = Source.run_src_startup drv w
  run_state PdState.src_discovery w = Source.run_src_discovery drv w
  run_state PdState.src_negociate w = Source.run_src_negociate drv w
  run_state PdState.src_accepted w = Source.run_src_accepted drv w
  run_state PdState.src_powered w = Source.run_src_powered drv w
  run_state PdState.src_transition w = Source.run_src_transition drv w
  run_state PdState.src_ready w = Source.run_src_ready drv w
  run_state PdState.src_get_sink_cap w = Source.run_src_get_sink_cap drv w
  run_state PdState.dr_swap w = Swap.run_dr_swap drv w
  run_state PdState.src_swap_init w = Swap.run_src_swap_init drv w
  run_state PdState.src_swap_snk_disable w = Swap.run_src_swap_snk_disable drv w
  run_state PdState.src_swap_src_disable w = Swap.run_src_swap_src_disable drv w
  run_state PdState.src_swap_standby w = Swap.run_src_swap_standby drv w
  run_state PdState.soft_reset w = Swap.run_soft_reset drv w
  run_state PdState.hard_reset_send w = Swap.run_hard_reset_send drv w
  run_state PdState.hard_reset_execute w = Swap.run_hard_reset_execute drv w

  -- The state timeout, and the time until the next run.
  unfoldable pub check_timeout : Port S → Port S
  unfolding read_time set_state set_wake
  check_timeout w0 =
      let r = read_time w0 in
      let w = r.0 in
      if w.state_timeout == 0
      then w
      else if leb w.state_timeout r.1
      then (let v = set_state drv w.timeout_state w in set_wake (min v.wake (msec 10)) v)
      else if ltb (w.state_timeout - r.1) w.wake
      then set_wake (w.state_timeout - r.1) w
      else w

  -- A source that sees an open CC line is disconnected.
  unfoldable pub source_disconnect : Port S → Port S
  unfolding tcpm_get_cc set_state set_wake tcpm_set_cc read_time set_flag
  source_disconnect w0 =
      let w1 = tcpm_get_cc drv w0 in
      let w = if w1.polarity == 0 then w1 else record w1 { cc1 = w1.cc2 } in
      if w.cc1 == Volt.open_line
      then (let v = set_wake (msec 10) (set_state drv src_disconnected w) in
          if v.pd_try_src_enable
          then (let r = read_time (tcpm_set_cc drv CcPull.rd (record v { power_role = sink })) in
              let u = r.0 in
              set_flag Flags.try_src
                (set_state drv snk_disconnected (record u { try_src_marker = r.1 + msec 600 })))
          else v)
      else w

  -- A sink without VBUS is disconnected.
  unfoldable pub sink_disconnect : Port S → Port S
  unfolding Sink.pd_is_vbus_present in_state set_state set_wake
  sink_disconnect w =
      if not (is_source w.power_role)
        && not (Sink.pd_is_vbus_present w)
        && not (in_state w snk_hard_reset_recover)
        && not (in_state w hard_reset_execute)
      then set_wake (msec 5) (set_state drv snk_disconnected w)
      else w

  unfoldable pub check_disconnect : Port S → Port S
  unfolding pd_is_connected pd_is_power_swapping source_disconnect sink_disconnect
  check_disconnect w =
      if not (pd_is_connected w) || pd_is_power_swapping w
      then w
      else sink_disconnect (if is_source w.power_role then source_disconnect w else w)

  -- The part of the run up to the switch.
  unfoldable pub before_switch : Bool → Port S → Port S
  unfolding pd_vdm_send_state_machine pd_board_checks pd_execute_hard_reset pd_transmit on_events
      receive set_state
  before_switch reset w0 =
      let w1 = if reset then record w0 { task_state = PdState.soft_reset } else w0 in
      let w2 = pd_vdm_send_state_machine drv w1 in
      let w3 =
        if pd_board_checks
        then w2
        else (pd_transmit drv hard_reset 0 [] (pd_execute_hard_reset drv w2)).0 in
      let w4 = receive (on_events w3) in
      if w4.req_suspend_state then set_state drv suspended w4 else w4

  unfoldable pub pd_run_state_machine : Bool → Port S → Port S
  unfolding before_switch set_wake run_state check_timeout check_disconnect
  pd_run_state_machine reset w =
      let v = set_wake (msec 500) (before_switch reset w) in
      let this_state = v.task_state in
      let u = run_state this_state v in
      check_disconnect (check_timeout (record u { last_state = this_state }))
