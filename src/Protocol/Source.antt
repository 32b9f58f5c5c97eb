-- ===== src/Protocol/Source.antt =====
-- NOA_ESP32_PD/usb_pd_protocol.cpp: the SRC cases of `pd_run_state_machine`.
use noa_esp32_pd.Base.{◌+◌, ltb, leb, ◌==◌, ◌&&◌, ◌||◌, not, true, [], if◌then◌else◌}
use noa_esp32_pd.Base.Int.{is_neg}
use noa_esp32_pd.Board.{pd_set_power_supply_ready}
use noa_esp32_pd.Fusb302.Control.{CcPull}
use noa_esp32_pd.Message.Types.Ctrl
use noa_esp32_pd.Message.Types.Vdm as Cmd
use noa_esp32_pd.Volt
use noa_esp32_pd.Protocol.Flags
use noa_esp32_pd.Protocol.Port.{
  sink, dfp, CcState, TcpmDrv, Port, snk_disconnected, src_disconnected, src_disconnected_debounce,
  src_startup, src_discovery, src_negociate, src_powered, src_transition, src_ready,
  src_get_sink_cap, soft_reset, hard_reset_send,
}
use noa_esp32_pd.Protocol.Core.{
  msec, is_dfp, entered, set_state, set_wake, start_timer, set_flag, clear_flag, has_flag,
  read_time, tcpm_get_cc, tcpm_set_cc, tcpm_set_polarity, tcpm_set_rx_enable, pd_set_data_role,
}
use noa_esp32_pd.Protocol.Transmit.{send_control, send_source_cap}
use noa_esp32_pd.Protocol.Reset.{is_force_source, is_freeze}
use noa_esp32_pd.Protocol.Sink.{same_cc, is_vdm_busy, timer_on_entry}
use noa_esp32_pd.Protocol.Vdm.{pd_send_vdm}

module _ {S : Type 0} (drv : TcpmDrv S) where
  -- The role toggle of SRC_DISCONNECTED, by the end of Try.SRC or by the DRP timer.
  unfoldable pub toggle_to_sink : Port S → Port S
  unfolding set_state tcpm_set_cc read_time set_wake
  toggle_to_sink w =
      let v =
        tcpm_set_cc drv CcPull.rd
          (set_state drv snk_disconnected (record w { power_role = sink })) in
      let r = read_time v in
      let u = r.0 in
      let t = read_time (record u { next_role_swap = r.1 + msec 40 }) in
      let x = t.0 in set_wake (msec 2) (record x { try_src_marker = t.1 + msec 600 })

  -- PD_STATE_SRC_DISCONNECTED with no sink in sight.
  unfoldable pub src_no_sink : Port S → Port S
  unfolding has_flag read_time toggle_to_sink
  src_no_sink w =
      if has_flag w Flags.try_src
      then (let r = read_time w in if leb r.0.try_src_marker r.1 then toggle_to_sink r.0 else r.0)
      else if not (is_force_source w.drp_state) && not (is_freeze w.drp_state)
      then (let r = read_time w in if leb r.0.next_role_swap r.1 then toggle_to_sink r.0 else r.0)
      else w

  -- PD_STATE_SRC_DISCONNECTED
  unfoldable pub run_src_disconnected : Port S → Port S
  unfolding set_wake tcpm_get_cc set_state src_no_sink
  run_src_disconnected w =
      let v = tcpm_get_cc drv (set_wake (msec 10) w) in
      if v.cc1 == Volt.rd || v.cc2 == Volt.rd || v.cc1 == Volt.ra && v.cc2 == Volt.ra
      then set_state drv src_disconnected_debounce (record v { cc_state = CcState.cc_none })
      else src_no_sink v

  -- The debounced attachment of a sink; AUDIO_ACC stays where it is. The power supply is ready
  -- always.
  unfoldable pub src_attach : Port S → Port S
  unfolding tcpm_set_polarity pd_set_data_role set_flag pd_set_power_supply_ready tcpm_set_rx_enable
      set_wake set_state
  src_attach w0 =
      if same_cc w0.new_cc_state CcState.ufp_attached || same_cc w0.new_cc_state CcState.debug_acc
      then (let w1 =
            tcpm_set_polarity drv (record w0 { polarity = if w0.cc1 == Volt.rd then 0 else 1 }) in
          let w2 = pd_set_data_role drv dfp w1 in
          let w3 =
            if same_cc w2.new_cc_state CcState.debug_acc
            then set_flag Flags.ts_dts_partner w2
            else w2 in
          if not pd_set_power_supply_ready
          then w3
          else (let w4 =
                set_flag Flags.check_dr_role
                  (set_flag Flags.check_pr_role (tcpm_set_rx_enable drv true w3)) in
              set_state drv src_startup (set_wake (msec 5) (record w4 { hard_reset_count = 0 }))))
      else w0

  -- The debouncing of `new_cc_state`, which Try.SRC goes without.
  unfoldable pub src_debounce : Port S → Port S
  unfolding has_flag read_time src_attach
  src_debounce w =
      if has_flag w Flags.try_src
      then src_attach w
      else let r = read_time w in
        let v = r.0 in
        if not (same_cc w.new_cc_state w.cc_state)
        then record v { cc_debounce = r.1 + msec 100; cc_state = w.new_cc_state }
        else if ltb r.1 v.cc_debounce
        then v
        else src_attach v

  -- PD_STATE_SRC_DISCONNECTED_DEBOUNCE
  unfoldable pub run_src_disconnected_debounce : Port S → Port S
  unfolding set_wake tcpm_get_cc src_debounce set_state
  run_src_disconnected_debounce w =
      let v = tcpm_get_cc drv (set_wake (msec 20) w) in
      if v.cc1 == Volt.rd && v.cc2 == Volt.rd
      then src_debounce (record v { new_cc_state = CcState.debug_acc })
      else if v.cc1 == Volt.rd || v.cc2 == Volt.rd
      then src_debounce (record v { new_cc_state = CcState.ufp_attached })
      else if v.cc1 == Volt.ra && v.cc2 == Volt.ra
      then src_debounce (record v { new_cc_state = CcState.audio_acc })
      else set_wake (msec 5) (set_state drv src_disconnected v)

  -- PD_STATE_SRC_HARD_RESET_RECOVER
  unfoldable pub run_src_hard_reset_recover : Port S → Port S
  unfolding read_time set_wake pd_set_power_supply_ready set_state
  run_src_hard_reset_recover w =
      let r = read_time w in
      if ltb r.1 r.0.src_recover
      then set_wake (msec 50) r.0
      else set_state drv (if pd_set_power_supply_ready then src_startup else src_disconnected)
          (set_wake (msec 10) r.0)

  -- PD_STATE_SRC_STARTUP. PD_POWER_SUPPLY_TURN_ON_DELAY is 10000.
  unfoldable pub run_src_startup : Port S → Port S
  unfolding entered set_flag start_timer
  run_src_startup w =
      if entered w
      then (let v = set_flag Flags.check_identity w in
          start_timer 10000 src_discovery
            (record v { caps_count = 0; msg_id = 0; snk_cap_count = 0 }))
      else w

  -- PD_STATE_SRC_DISCOVERY. PD_CAPS_COUNT is 50 and PD_HARD_RESET_COUNT 2.
  unfoldable pub run_src_discovery : Port S → Port S
  unfolding entered has_flag start_timer send_source_cap set_state set_wake set_flag
  run_src_discovery w0 =
      let w =
        if entered w0 && has_flag w0 Flags.previous_pd_conn
        then start_timer (msec 5500)
            (if ltb w0.hard_reset_count 2 then hard_reset_send else src_disconnected) w0
        else w0 in
      if ltb w.caps_count 50
      then (let r = send_source_cap drv w in
          if is_neg r.1
          then (let v = set_wake (msec 100) r.0 in record v { caps_count = v.caps_count + 1 })
          else (let v = set_wake (msec 10) (set_state drv src_negociate r.0) in
              set_flag Flags.previous_pd_conn (record v { hard_reset_count = 0; caps_count = 0 })))
      else w

  -- PD_STATE_SRC_NEGOCIATE
  unfoldable pub run_src_negociate : Port S → Port S
  unfolding timer_on_entry
  run_src_negociate w = timer_on_entry (msec 100) hard_reset_send w

  -- PD_STATE_SRC_ACCEPTED
  unfoldable pub run_src_accepted : Port S → Port S
  unfolding timer_on_entry
  run_src_accepted w = timer_on_entry (msec 35) src_powered w

  -- PD_STATE_SRC_POWERED
  unfoldable pub run_src_powered : Port S → Port S
  unfolding timer_on_entry
  run_src_powered w = timer_on_entry 10000 src_transition w

  -- PD_STATE_SRC_TRANSITION
  unfoldable pub run_src_transition : Port S → Port S
  unfolding send_control set_wake set_state
  run_src_transition w =
      let r = send_control drv Ctrl.ps_rdy w in
      if is_neg r.1
      then set_state drv src_disconnected r.0
      else set_state drv src_ready (set_wake (msec 10) r.0)

  -- The end of SRC_READY: policy checks, discovery, and the ping.
  unfoldable pub src_ready_checks : Port S → Port S
  unfolding has_flag clear_flag pd_send_vdm send_control set_wake set_state
  src_ready_checks w =
      if has_flag w Flags.check_pr_role
      then clear_flag Flags.check_pr_role w
      else if has_flag w Flags.check_dr_role
      then clear_flag Flags.check_dr_role w
      else if is_dfp w.data_role && has_flag w Flags.check_identity
      then clear_flag Flags.check_identity
          (pd_send_vdm Cmd.usb_sid_pd Cmd.cmd_discover_ident [] 0 w)
      else if not (has_flag w Flags.ping_enabled)
      then w
      else let r = send_control drv Ctrl.ping w in
        if is_neg r.1 then set_wake (msec 10) (set_state drv soft_reset r.0) else r.0

  -- PD_STATE_SRC_READY. PD_SNK_CAP_RETRIES is 3.
  unfoldable pub run_src_ready : Port S → Port S
  unfolding set_wake has_flag clear_flag send_source_cap send_control set_state src_ready_checks
  run_src_ready w0 =
      let w = set_wake (msec 45) w0 in
      if w.incoming_packet || is_vdm_busy w.vdm_state
      then w
      else if has_flag w Flags.update_src_caps
      then (let r = send_source_cap drv w in
          if is_neg r.1
          then r.0
          else clear_flag Flags.update_src_caps (set_state drv src_negociate r.0))
      else if has_flag w Flags.snk_cap_recvd
      then src_ready_checks w
      else let v = record w { snk_cap_count = w.snk_cap_count + 1 } in
        if leb v.snk_cap_count 3
        then set_state drv src_get_sink_cap (send_control drv Ctrl.get_sink_cap v).0
        else src_ready_checks v

  -- PD_STATE_SRC_GET_SINK_CAP
  unfoldable pub run_src_get_sink_cap : Port S → Port S
  unfolding timer_on_entry
  run_src_get_sink_cap w = timer_on_entry (msec 100) src_ready w
