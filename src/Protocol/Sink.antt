-- ===== src/Protocol/Sink.antt =====
-- NOA_ESP32_PD/usb_pd_protocol.cpp: the SNK cases of `pd_run_state_machine`. `wake` is the
-- static `timeout`, in microseconds.
use noa_esp32_pd.Base.{
  ℕ, ◌+◌, ltb, leb, ◌==◌, ◌&&◌, ◌||◌, not, Bool, true, false, [], if◌then◌else◌,
}
use noa_esp32_pd.Base.Int.{is_nonzero}
use noa_esp32_pd.Board.{pd_snk_is_vbus_provided}
use noa_esp32_pd.Fusb302.Control.{CcPull}
use noa_esp32_pd.Message.Types.Ctrl
use noa_esp32_pd.Message.Types.Vdm as Cmd
use noa_esp32_pd.Volt
use noa_esp32_pd.Protocol.Flags
use noa_esp32_pd.Protocol.Port.{
  PdState, source, ufp, CcState, VdmState, TcpmDrv, Port, snk_disconnected,
  snk_disconnected_debounce, snk_discovery, src_disconnected, soft_reset, hard_reset_send,
}
use noa_esp32_pd.Protocol.Core.{
  msec, is_dfp, same_state, entered, set_state, set_wake, start_timer, set_flag, clear_flag,
  has_flag, read_time, tcpm_get_cc, tcpm_set_cc, tcpm_set_polarity, tcpm_set_rx_enable,
  pd_set_data_role,
}
use noa_esp32_pd.Protocol.CcLines.{cc_is_rp, get_snk_polarity, get_typec_current_limit}
use noa_esp32_pd.Protocol.Transmit.{send_control}
use noa_esp32_pd.Protocol.Reset.{is_toggle_on}
use noa_esp32_pd.Protocol.Negotiate.{pd_send_request_msg}
use noa_esp32_pd.Protocol.Vdm.{pd_send_vdm}

abbrev pub cc_num : CcState → ℕ
cc_num CcState.cc_none = 0
cc_num CcState.no_ufp = 1
cc_num CcState.audio_acc = 2
cc_num CcState.debug_acc = 3
cc_num CcState.ufp_attached = 4
cc_num CcState.dfp_attached = 5

abbrev pub same_cc : CcState → CcState → Bool
same_cc a b = cc_num a == cc_num b

abbrev pub is_vdm_busy : VdmState → Bool
is_vdm_busy VdmState.vdm_busy = true
is_vdm_busy _ = false

module _ {S : Type 0} where
  -- `if (last_state != task_state) set_state_timeout(port, get_time().val + wait, next)`
  unfoldable pub timer_on_entry : ℕ → PdState → Port S → Port S
  unfolding entered start_timer
  timer_on_entry wait next w = if entered w then start_timer wait next w else w

  -- `pd_is_vbus_present`
  unfoldable pub pd_is_vbus_present : Port S → Bool
  unfolding pd_snk_is_vbus_provided
  pd_is_vbus_present w = pd_snk_is_vbus_provided

module _ {S : Type 0} (drv : TcpmDrv S) where
  -- No source in sight: leave Try.SRC when its time is over, or toggle to the source role.
  unfoldable pub snk_no_source : Port S → Port S
  unfolding has_flag clear_flag read_time set_state tcpm_set_cc set_wake
  snk_no_source w =
      if has_flag w Flags.try_src
      then (let r = read_time w in
          if ltb r.0.try_src_marker r.1 then clear_flag Flags.try_src r.0 else r.0)
      else if is_toggle_on w.drp_state
      then (let r = read_time w in
          let v = r.0 in
          if leb v.next_role_swap r.1
          then (let u =
                tcpm_set_cc drv CcPull.rp
                  (set_state drv src_disconnected (record v { power_role = source })) in
              let t = read_time u in
              let x = t.0 in set_wake (msec 2) (record x { next_role_swap = t.1 + msec 30 }))
          else v)
      else w

  -- PD_STATE_SNK_DISCONNECTED
  unfoldable pub run_snk_disconnected : Port S → Port S
  unfolding set_wake tcpm_get_cc read_time set_state snk_no_source
  run_snk_disconnected w =
      let v = tcpm_get_cc drv (set_wake (msec 10) w) in
      if v.cc1 == Volt.open_line && v.cc2 == Volt.open_line
      then snk_no_source v
      else let r = read_time (record v {
        cc_state = CcState.cc_none;
        hard_reset_count = 0;
        new_cc_state = CcState.cc_none;
      }) in
        let u = r.0 in
        set_wake (msec 10)
          (set_state drv snk_disconnected_debounce (record u { cc_debounce = r.1 + msec 100 }))

  -- Try.SRC: attach as a source first.
  unfoldable pub try_source : Port S → Port S
  unfolding read_time tcpm_set_cc set_wake set_state set_flag
  try_source w =
      let r = read_time w in
      let v = r.0 in
      set_flag Flags.try_src (
        set_state drv src_disconnected (
          set_wake (msec 2) (
            tcpm_set_cc drv CcPull.rp
              (record v { try_src_marker = r.1 + msec 125; power_role = source }))))

  -- The debounced attachment of a source. `new_cc_state` is DFP_ATTACHED or DEBUG_ACC here.
  unfoldable pub snk_attach : Port S → Port S
  unfolding tcpm_set_polarity get_snk_polarity pd_set_data_role get_typec_current_limit
      tcpm_set_rx_enable set_flag send_control set_state set_wake
  snk_attach w0 =
      let w1 = tcpm_set_polarity drv (record w0 { polarity = get_snk_polarity w0.cc1 w0.cc2 }) in
      let w2 = pd_set_data_role drv ufp (record w1 { msg_id = 0 }) in
      let w3 =
        tcpm_set_rx_enable drv true
          (record w2 { typec_curr = get_typec_current_limit w2.polarity w2.cc1 w2.cc2 }) in
      if same_cc w3.new_cc_state CcState.dfp_attached || same_cc w3.new_cc_state CcState.debug_acc
      then (let w4 =
            set_flag Flags.check_identity
              (set_flag Flags.check_dr_role (set_flag Flags.check_pr_role w3)) in
          let w5 =
            if same_cc w4.new_cc_state CcState.debug_acc
            then set_flag Flags.ts_dts_partner w4
            else w4 in
          set_wake (msec 10)
            (set_state drv snk_discovery (send_control drv Ctrl.get_source_cap w5).0))
      else w3

  -- The debouncing of the CC state `new_cc_state`.
  unfoldable pub snk_debounce : Port S → Port S
  unfolding set_wake read_time pd_is_vbus_present has_flag try_source snk_attach
  snk_debounce w0 =
      let w = set_wake (msec 20) w0 in
      let r = read_time w in
      let v = r.0 in
      if not (same_cc w.new_cc_state w.cc_state)
      then record v { cc_debounce = r.1 + msec 100; cc_state = w.new_cc_state }
      else if ltb r.1 v.cc_debounce || not (pd_is_vbus_present v)
      then v
      else if v.pd_try_src_enable && not (has_flag v Flags.try_src)
      then try_source v
      else snk_attach v

  -- PD_STATE_SNK_DISCONNECTED_DEBOUNCE
  unfoldable pub run_snk_disconnected_debounce : Port S → Port S
  unfolding tcpm_get_cc cc_is_rp snk_debounce set_state set_wake
  run_snk_disconnected_debounce w =
      let v = tcpm_get_cc drv w in
      if cc_is_rp v.cc1 && cc_is_rp v.cc2
      then snk_debounce (record v { new_cc_state = CcState.debug_acc })
      else if cc_is_rp v.cc1 || cc_is_rp v.cc2
      then snk_debounce (record v { new_cc_state = CcState.dfp_attached })
      else set_wake (msec 5) (set_state drv snk_disconnected v)

  -- PD_STATE_SNK_HARD_RESET_RECOVER: wait for VBUS to go low and then high.
  unfoldable pub run_snk_hard_reset_recover : Port S → Port S
  unfolding entered set_flag start_timer pd_is_vbus_present set_state set_wake
  run_snk_hard_reset_recover w0 =
      let w1 =
        if entered w0
        then (let u = set_flag Flags.check_identity w0 in
            start_timer (msec 650)
              (if ltb w0.hard_reset_count 2 then hard_reset_send else snk_discovery)
              (record u { snk_hard_reset_vbus_off = false }))
        else w0 in
      let w2 =
        if not (pd_is_vbus_present w1) && not w1.snk_hard_reset_vbus_off
        then start_timer (msec 1000 + msec 275) snk_disconnected
            (record w1 { snk_hard_reset_vbus_off = true })
        else w1 in
      if pd_is_vbus_present w2 && w2.snk_hard_reset_vbus_off
      then set_wake (msec 10) (set_state drv snk_discovery w2)
      else w2

  -- The timer of SNK_DISCOVERY.
  unfoldable pub discovery_timer : Port S → Port S
  unfolding has_flag start_timer
  discovery_timer w =
      if has_flag w Flags.vbus_never_low
      then start_timer (msec 600) soft_reset w
      else if ltb w.hard_reset_count 2
      then start_timer (msec 600) hard_reset_send w
      else if has_flag w Flags.previous_pd_conn
      then start_timer (msec 5500) snk_disconnected w
      else w

  -- The Type-C current is taken over when two readings in a row differ from it.
  unfoldable pub watch_current : Port S → Port S
  unfolding set_wake tcpm_get_cc get_typec_current_limit
  watch_current w =
      let v = tcpm_get_cc drv (set_wake (msec 40) w) in
      let limit = get_typec_current_limit v.polarity v.cc1 v.cc2 in
      if v.typec_curr == limit
      then record v { typec_curr_change = false }
      else if v.typec_curr_change
      then record v { typec_curr = limit; typec_curr_change = false }
      else record v { wake = msec 15; typec_curr_change = true }

  -- PD_STATE_SNK_DISCOVERY
  unfoldable pub run_snk_discovery : Port S → Port S
  unfolding entered discovery_timer same_state watch_current
  run_snk_discovery w =
      if entered w
      then (let v = discovery_timer w in
          watch_current (
            if same_state v.last_state snk_disconnected_debounce
            then v
            else record v { typec_curr = 0 }))
      else watch_current w

  -- PD_STATE_SNK_REQUESTED
  unfoldable pub run_snk_requested : Port S → Port S
  unfolding entered start_timer
  run_snk_requested w =
      if entered w
      then start_timer (msec 100) hard_reset_send (record w { hard_reset_count = 0 })
      else w

  -- PD_STATE_SNK_TRANSITION
  unfoldable pub run_snk_transition : Port S → Port S
  unfolding timer_on_entry
  run_snk_transition w = timer_on_entry (msec 500) hard_reset_send w

  -- PD_STATE_SNK_READY
  unfoldable pub run_snk_ready : Port S → Port S
  unfolding set_wake pd_send_request_msg set_state has_flag clear_flag pd_send_vdm
  run_snk_ready w0 =
      let w = set_wake (msec 20) w0 in
      if w.incoming_packet || is_vdm_busy w.vdm_state
      then w
      else if w.new_power_request
      then (let r = pd_send_request_msg drv false w in
          if is_nonzero r.1 then set_state drv soft_reset r.0 else r.0)
      else if has_flag w Flags.check_pr_role
      then clear_flag Flags.check_pr_role w
      else if has_flag w Flags.check_dr_role
      then clear_flag Flags.check_dr_role w
      else if is_dfp w.data_role && has_flag w Flags.check_identity
      then clear_flag Flags.check_identity
          (pd_send_vdm Cmd.usb_sid_pd Cmd.cmd_discover_ident [] 0 w)
      else set_wake (msec 200) w
