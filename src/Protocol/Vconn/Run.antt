-- ===== src/Protocol/Vconn/Run.antt =====
-- NOA_ESP32_PD/usb_pd_protocol.cpp: the three cases of a VCONN swap in `pd_run_state_machine`.
use noa_esp32_pd.Base.{ℕ, not, Bool, true, false, if◌then◌else◌}
use noa_esp32_pd.Base.Int.{is_neg, is_minus_one}
use noa_esp32_pd.Message.Types.Ctrl
use noa_esp32_pd.Protocol.Flags
use noa_esp32_pd.Protocol.Port.{PdState, TcpmDrv}
use noa_esp32_pd.Protocol.Core.{msec, has_flag, set_flag, clear_flag, set_wake}
use noa_esp32_pd.Protocol.Transmit.{send_control}
use noa_esp32_pd.Protocol.Vconn.State.{
  VconnPort, main, swap_ready, start_wait, just_entered, return_state, enter,
}

module _ {S : Type 0} (drv : TcpmDrv S) where
  -- PD_STATE_VCONN_SWAP_SEND
  unfoldable pub run_vconn_swap_send : VconnPort S → VconnPort S
  unfolding just_entered send_control set_wake enter return_state start_wait
  run_vconn_swap_send v =
      if just_entered v
      then (let r = send_control drv Ctrl.vconn_swap v.port in
          let u = record v { port = r.0 } in
          if is_neg r.1
          then enter drv (if is_minus_one r.1 then main PdState.soft_reset else return_state u)
              (record u { port = set_wake (msec 10) u.port })
          else start_wait (msec 100) (return_state u) u)
      else v

-- `tcpm_set_vconn` is an operation of the driver that the other builds do not call.
module _ {S : Type 0} (drv : TcpmDrv S) (set_vconn : Bool → S → S) (swap_delay : ℕ) where
  unfoldable pub tcpm_set_vconn : Bool → VconnPort S → VconnPort S
  tcpm_set_vconn enable v = record v {
    port = record v.port { tcpc = set_vconn enable v.port.tcpc };
  }

  -- PD_STATE_VCONN_SWAP_INIT
  unfoldable pub run_vconn_swap_init : VconnPort S → VconnPort S
  unfolding just_entered has_flag tcpm_set_vconn start_wait return_state
  run_vconn_swap_init v =
      if not (just_entered v)
      then v
      else if has_flag v.port Flags.vconn_on
      then start_wait (msec 100) (return_state v) v
      else start_wait swap_delay swap_ready (tcpm_set_vconn true v)

  -- PD_STATE_VCONN_SWAP_READY
  unfoldable pub run_vconn_swap_ready : VconnPort S → VconnPort S
  unfolding just_entered has_flag set_flag clear_flag send_control set_wake enter return_state
      tcpm_set_vconn start_wait
  run_vconn_swap_ready v =
      if not (just_entered v)
      then v
      else if has_flag v.port Flags.vconn_on
      then (let u = tcpm_set_vconn false v in
          start_wait swap_delay (return_state u)
            (record u { port = clear_flag Flags.vconn_on u.port }))
      else let r = send_control drv Ctrl.ps_rdy (set_flag Flags.vconn_on v.port) in
        let u = record v { port = r.0 } in
        if is_minus_one r.1
        then enter drv (main PdState.soft_reset) (record u { port = set_wake (msec 10) u.port })
        else enter drv (return_state u) u
