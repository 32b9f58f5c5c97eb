-- ===== src/Protocol/Swap.antt =====
-- NOA_ESP32_PD/usb_pd_protocol.cpp: the role swap and reset cases of `pd_run_state_machine`.
use noa_esp32_pd.Base.{ℕ, ◌+◌, ◌&&◌, ◌||◌, not, Bool, true, false, [], if◌then◌else◌}
use noa_esp32_pd.Base.Int.{is_neg, is_minus_one}
use noa_esp32_pd.Board.{pd_set_power_supply_ready}
use noa_esp32_pd.Fusb302.Chip.{EcError}
use noa_esp32_pd.Fusb302.Control.{CcPull}
use noa_esp32_pd.Fusb302.Frame.{hard_reset}
use noa_esp32_pd.Message.Types.Ctrl
use noa_esp32_pd.Protocol.Flags
use noa_esp32_pd.Protocol.Port.{
  PdState, sink, source, TcpmDrv, Port, snk_disconnected, snk_discovery, snk_ready,
  snk_swap_src_disable, snk_swap_standby, snk_swap_complete, src_disconnected, src_discovery,
  src_ready, src_swap_src_disable, src_swap_standby, soft_reset, hard_reset_send,
  hard_reset_execute,
}
use noa_esp32_pd.Protocol.Core.{
  msec, same_state, entered, set_state, set_wake, start_timer, clear_flag, has_flag, tcpm_set_cc,
  pd_update_roles, ready_return_state, dual_role_if_else,
}
use noa_esp32_pd.Protocol.Transmit.{pd_transmit, send_control}
use noa_esp32_pd.Protocol.Reset.{pd_execute_hard_reset}
use noa_esp32_pd.Protocol.Sink.{timer_on_entry}

abbrev pub is_unimplemented : EcError → Bool
is_unimplemented EcError.unimplemented = true
is_unimplemented _ = false

abbrev pub is_ok : EcError → Bool
is_ok EcError.success = true
is_ok _ = false

module _ {S : Type 0} (drv : TcpmDrv S) where
  -- A swap message sent on entry: on failure a soft reset (`res == -1`), or `back`; otherwise
  -- PD_T_SENDER_RESPONSE for the answer, and `back`.
  unfoldable pub swap_init : ℕ → (Port S → PdState) → Port S → Port S
  unfolding entered send_control set_wake set_state start_timer
  swap_init msg back w =
      if entered w
      then (let r = send_control drv msg w in
          if is_neg r.1
          then (let v = set_wake (msec 10) r.0 in
              set_state drv (if is_minus_one r.1 then soft_reset else back v) v)
          else start_timer (msec 100) (back r.0) r.0)
      else w

  -- PD_STATE_DR_SWAP
  unfoldable pub run_dr_swap : Port S → Port S
  unfolding swap_init ready_return_state
  run_dr_swap w = swap_init Ctrl.dr_swap ready_return_state w

  -- PD_STATE_SRC_SWAP_INIT
  unfoldable pub run_src_swap_init : Port S → Port S
  unfolding swap_init
  run_src_swap_init w = swap_init Ctrl.pr_swap (λ v. src_ready) w

  -- PD_STATE_SRC_SWAP_SNK_DISABLE
  unfoldable pub run_src_swap_snk_disable : Port S → Port S
  unfolding timer_on_entry
  run_src_swap_snk_disable w = timer_on_entry (msec 35) src_swap_src_disable w

  -- PD_STATE_SRC_SWAP_SRC_DISABLE. PD_POWER_SUPPLY_TURN_OFF_DELAY is 20000.
  unfoldable pub run_src_swap_src_disable : Port S → Port S
  unfolding timer_on_entry
  run_src_swap_src_disable w = timer_on_entry 20000 src_swap_standby w

  -- PD_STATE_SRC_SWAP_STANDBY
  unfoldable pub run_src_swap_standby : Port S → Port S
  unfolding entered send_control set_wake set_state tcpm_set_cc start_timer
  run_src_swap_standby w =
      if entered w
      then (let r = send_control drv Ctrl.ps_rdy w in
          if is_neg r.1
          then set_state drv src_disconnected (set_wake (msec 10) r.0)
          else (let v = tcpm_set_cc drv CcPull.rd r.0 in
              start_timer (msec 480) snk_disconnected (record v { power_role = sink })))
      else w

  -- PD_STATE_SNK_SWAP_INIT
  unfoldable pub run_snk_swap_init : Port S → Port S
  unfolding swap_init
  run_snk_swap_init w = swap_init Ctrl.pr_swap (λ v. snk_ready) w

  -- PD_STATE_SNK_SWAP_SNK_DISABLE
  unfoldable pub run_snk_swap_snk_disable : Port S → Port S
  unfolding set_state set_wake
  run_snk_swap_snk_disable w = set_wake (msec 10) (set_state drv snk_swap_src_disable w)

  -- PD_STATE_SNK_SWAP_SRC_DISABLE
  unfoldable pub run_snk_swap_src_disable : Port S → Port S
  unfolding timer_on_entry
  run_snk_swap_src_disable w = timer_on_entry (msec 920) hard_reset_send w

  -- PD_STATE_SNK_SWAP_STANDBY
  unfoldable pub run_snk_swap_standby : Port S → Port S
  unfolding entered tcpm_set_cc pd_set_power_supply_ready set_wake set_state start_timer
  run_snk_swap_standby w =
      if entered w
      then (let v = tcpm_set_cc drv CcPull.rp w in
          if not pd_set_power_supply_ready
          then set_state drv snk_disconnected (set_wake (msec 10) (tcpm_set_cc drv CcPull.rd v))
          else start_timer 10000 snk_swap_complete v)
      else w

  -- PD_STATE_SNK_SWAP_COMPLETE: the port becomes a source.
  unfoldable pub run_snk_swap_complete : Port S → Port S
  unfolding send_control tcpm_set_cc set_wake set_state pd_update_roles
  run_snk_swap_complete w =
      let r = send_control drv Ctrl.ps_rdy w in
      let v = r.0 in
      if is_neg r.1
      then set_state drv snk_disconnected (set_wake (msec 10) (tcpm_set_cc drv CcPull.rd v))
      else set_wake (msec 10) (
          set_state drv src_discovery (
            pd_update_roles drv (record v {
              snk_cap_count = 3 + 1;
              caps_count = 0;
              msg_id = 0;
              power_role = source;
            })))

  -- PD_STATE_SOFT_RESET
  unfoldable pub run_soft_reset : Port S → Port S
  unfolding entered send_control set_state set_wake start_timer
  run_soft_reset w =
      if entered w
      then (let r = send_control drv Ctrl.soft_reset (record w { msg_id = 0 }) in
          if is_neg r.1
          then set_wake (msec 5) (set_state drv hard_reset_send r.0)
          else start_timer (msec 100) hard_reset_send r.0)
      else w

  -- The sending of the hard reset, tried until it succeeds once.
  unfoldable pub send_hard_reset : Port S → Port S
  unfolding pd_transmit set_wake start_timer set_state
  send_hard_reset w =
      let r = pd_transmit drv hard_reset 0 [] w in
      let v = r.0 in
      if is_neg r.1
      then set_wake (msec 10) v
      else let u = record v { hard_reset_sent = true } in
        dual_role_if_else u.power_role (set_wake (msec 10) (set_state drv hard_reset_execute u))
          (start_timer (msec 25) hard_reset_execute u)

  -- PD_STATE_HARD_RESET_SEND
  unfoldable pub run_hard_reset_send : Port S → Port S
  unfolding entered same_state has_flag clear_flag send_hard_reset
  run_hard_reset_send w0 =
      let w1 = record w0 {
        hard_reset_count = w0.hard_reset_count + 1;
        hard_reset_sent = if entered w0 then false else w0.hard_reset_sent;
      } in
      let w2 =
        if same_state w1.last_state snk_discovery
          || same_state w1.last_state PdState.soft_reset && has_flag w1 Flags.vbus_never_low
        then clear_flag Flags.vbus_never_low w1
        else w1 in
      if w2.hard_reset_sent then w2 else send_hard_reset w2

  -- PD_STATE_HARD_RESET_EXECUTE
  unfoldable pub run_hard_reset_execute : Port S → Port S
  unfolding same_state tcpm_set_cc pd_execute_hard_reset set_wake
  run_hard_reset_execute w = set_wake (msec 10) (
      pd_execute_hard_reset drv
        (if same_state w.last_state snk_swap_standby then tcpm_set_cc drv CcPull.rd w else w))

  -- PD_STATE_SUSPENDED: the driver cannot release the chip, and the port resumes at once.
  -- `pd_restart_tcpc` is the driver's `init`.
  unfoldable pub run_suspended : Port S → Port S
  unfolding set_state
  run_suspended w0 =
      let w = record w0 { req_suspend_state = false } in
      let r = drv.release w.tcpc in
      let v = record w { tcpc = r.0 } in
      if is_unimplemented r.1
      then set_state drv snk_disconnected v
      else let i = drv.init v.tcpc in
        let u = record v { tcpc = i.0 } in if is_ok i.1 then set_state drv snk_disconnected u else u
