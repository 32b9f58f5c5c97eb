-- ===== src/Protocol/Counter.antt =====
-- NOA_ESP32_PD/usb_pd_protocol.cpp: the message counter and the end of a transmission, and a hard
-- reset.
use noa_esp32_pd.Base.{
  ◌+◌, ◌%◌, ◌||◌, Bool, true, false, Bool-cases, inl, inr, ◌≤◌, ◌<◌, leb, ◌∙◌, if◌then◌else◌, ◌≡◌,
  refl, arith,
}
use noa_esp32_pd.Base.Bits.Fields.{bit_and_mask}
use noa_esp32_pd.Fusb302.Alert.{TxStatus}
use noa_esp32_pd.Fusb302.Control.{CcPull}
use noa_esp32_pd.Protocol.Port.{
  PdState, PowerRole, sink, source, TcpmDrv, Port, snk_hard_reset_recover, src_hard_reset_recover,
  hard_reset_execute, hard_reset_send, snk_requested, snk_swap_standby, snk_swap_complete, Clock,
}
use noa_esp32_pd.Protocol.Core.{
  inc_id, pd_transmit_complete, dual_role_if_else, in_state, same_state, index, read_time, entered,
  start_timer, set_state_timeout, tcpm_set_cc,
}
use noa_esp32_pd.Protocol.Reset.{pd_execute_hard_reset, reset_by_role}
use noa_esp32_pd.Protocol.Sink
use noa_esp32_pd.Protocol.Run.{check_timeout}
use noa_esp32_pd.Protocol.StateChange.{set_state_stays, closes_rx, timer-expires, timer-waits}

abbrev pub is_complete : TxStatus → Bool
is_complete TxStatus.success = true
is_complete _ = false

module _ {S : Type 0} where
  -- The end of a transmission is noted with its status, and the message counter goes one up,
  -- modulo 8, exactly when the transmission succeeded.
  pub transmit_complete_lem :
      (status : TxStatus) (w : Port S)
      → pd_transmit_complete status w ≡ record w {
        tx_status = status;
        msg_id = if is_complete status then (w.msg_id + 1) % 8 else w.msg_id;
      }
  unfolding pd_transmit_complete inc_id
  transmit_complete_lem TxStatus.success w = rw (bit_and_mask 3 (w.msg_id + 1)) refl
  transmit_complete_lem TxStatus.discarded w = refl
  transmit_complete_lem TxStatus.failed w = refl

module _ {S : Type 0} (drv : TcpmDrv S) where
  recover_keeps_rx :
      (s : PdState) (r : PowerRole)
      → closes_rx s (dual_role_if_else r snk_hard_reset_recover src_hard_reset_recover) ≡ false
  unfolding closes_rx same_state index
  recover_keeps_rx s sink = ground arith
  recover_keeps_rx s source = ground arith

  recovering :
      (r : PowerRole) (w : Port S)
      → let v = reset_by_role drv r w in
        (v.task_state ≡ dual_role_if_else r snk_hard_reset_recover src_hard_reset_recover)
        × (v.msg_id ≡ w.msg_id)
        × (v.state_timeout ≡ 0)
        × (v.last_state ≡ w.last_state)
        × (v.flags ≡ w.flags)
  unfolding reset_by_role read_time
  recovering sink w =
      rw (set_state_stays drv snk_hard_reset_recover w (recover_keeps_rx w.task_state sink))
        (refl, refl, refl, refl, refl)
  recovering source w =
      let r = read_time w in
      let u = record r.0 { src_recover = r.1 + 760000 } in
      rw (set_state_stays drv src_hard_reset_recover u (recover_keeps_rx w.task_state source))
        (refl, refl, refl, refl, refl)

  -- A hard reset, from any state and in either role: the message counter starts again at 0, the
  -- state timer stops, and the port is in the recovery state of its role, as after the state
  -- HARD_RESET_EXECUTE; the flags stay.
  pub hard_reset_lem :
      (w : Port S)
      → let v = pd_execute_hard_reset drv w in
        (v.task_state
          ≡ dual_role_if_else w.power_role snk_hard_reset_recover src_hard_reset_recover)
        × (v.msg_id ≡ 0)
        × (v.state_timeout ≡ 0)
        × (v.last_state ≡ hard_reset_execute)
        × (v.flags ≡ w.flags)
  unfolding pd_execute_hard_reset tcpm_set_cc
  hard_reset_lem w =
      let v = record w { msg_id = 0; last_state = hard_reset_execute } in
      let b = in_state v snk_swap_standby || in_state v snk_swap_complete in
      elim (Bool-cases b) [
        | inl e ↦ rw (e) (recovering w.power_role (tcpm_set_cc drv CcPull.rd v))
        | inr e ↦ rw (e) (recovering w.power_role v)
      ]

  -- A request that is not answered ends in a hard reset: after a sink has entered SNK_REQUESTED, a
  -- check of the timer at a later time puts the port into HARD_RESET_SEND if the time is at least
  -- 100 ms after the entry, and leaves it in SNK_REQUESTED if not.
  pub unanswered-resets :
      (w : Port S) (later : Clock)
      → entered w ≡ true
      → w.task_state ≡ snk_requested
      → let v = record (Sink.run_snk_requested drv w) { clock = later } in
        (check_timeout drv v).task_state ≡ (
          if leb ((read_time w).1 + 100000) (read_time v).1 then hard_reset_send else snk_requested)
  unfolding Sink.run_snk_requested start_timer set_state_timeout
  unanswered-resets w later he hs =
      let v = record (Sink.run_snk_requested drv w) { clock = later } in
      let due = (read_time w).1 + 100000 in
      let t : v.state_timeout ≡ due = rw (he) refl in
      let s : v.timeout_state ≡ hard_reset_send = rw (he) refl in
      let r : v.task_state ≡ snk_requested = rw (he) hs in
      elim (Bool-cases (leb due (read_time v).1)) [
        | inl e ↦
            (let k : due ≤ (read_time v).1 = ground arith in
              rw (e) ((timer-expires drv v (omega (arith, t)) (omega (arith, t, k))).0 ∙ s))
        | inr e ↦
            (let k : (read_time v).1 < due = ground arith in
              rw (e) ((timer-waits drv v (inr (omega (arith, t, k)))).0 ∙ r))
      ]
