-- ===== src/Protocol/Negotiate.antt =====
-- NOA_ESP32_PD/usb_pd_protocol.cpp: the messages with data objects.
use noa_esp32_pd.Base.{
  ℕ, ◌+◌, ◌/◌, ◌^◌, ◌==◌, ◌&&◌, ◌||◌, not, bit_or, Bool, true, false, List, [], get_or,
  if◌then◌else◌,
}
use noa_esp32_pd.Base.Bits.{has, clear_bits}
use noa_esp32_pd.Base.Int.{ℤ, pos, is_neg}
use noa_esp32_pd.Fusb302.Chip.{EcError}
use noa_esp32_pd.Fusb302.Frame.{bist_mode_2}
use noa_esp32_pd.Message.Header.{header_type, header_cnt}
use noa_esp32_pd.Message.Objects.{
  pdo_type, pdo_type_fixed, pdo_fixed_dual_role, pdo_fixed_external, pdo_fixed_comm_cap,
  pdo_fixed_data_swap, rdo_pos, vdo_cmdt, vdo_cmdt_mask,
}
use noa_esp32_pd.Message.Types.Ctrl
use noa_esp32_pd.Message.Types.DataMsg
use noa_esp32_pd.Message.Types.Vdm
use noa_esp32_pd.Policy.Request.{
  max_power, pd_build_request, pd_process_source_cap, pd_process_source_cap_callback,
  pd_check_requested_voltage,
}
use noa_esp32_pd.Protocol.Flags
use noa_esp32_pd.Protocol.Port.{
  VdmState, TcpmDrv, Port, snk_discovery, snk_requested, snk_transition, snk_ready, src_accepted,
  src_ready, src_get_sink_cap, snk_disconnected, src_disconnected,
}
use noa_esp32_pd.Protocol.Core.{
  msec, dual_role_if_else, is_source, in_state, set_state, set_flag, clear_flag, read_time,
}
use noa_esp32_pd.Protocol.Transmit.{pd_transmit, send_control, send_request}

-- `success` of a code.
abbrev pub is_success : EcError → Bool
is_success EcError.success = true
is_success _ = false

module _ {S : Type 0} where
  -- `if (pdo & bit) flags |= m; else flags &= ~m;`
  unfoldable pub copy_flag : ℕ → ℕ → ℕ → Port S → Port S
  unfolding set_flag clear_flag
  copy_flag pdo bit m w = if has pdo bit then set_flag m w else clear_flag m w

  unfoldable pub pd_update_pdo_flags : ℕ → Port S → Port S
  unfolding copy_flag pdo_type
  pd_update_pdo_flags pdo w =
      if pdo_type pdo == pdo_type_fixed
      then copy_flag pdo pdo_fixed_data_swap Flags.partner_dr_data (
          copy_flag pdo pdo_fixed_comm_cap Flags.partner_usb_comm (
            copy_flag pdo pdo_fixed_external Flags.partner_extpower
              (copy_flag pdo pdo_fixed_dual_role Flags.partner_dr_power w)))
      else w

  -- A reply while a VDM of ours is out: on BUSY, wait and send it again.
  unfoldable pub vdm_reply : VdmState → ℕ → Port S → Port S
  unfolding vdo_cmdt read_time
  vdm_reply VdmState.vdm_busy header w =
      if vdo_cmdt header == Vdm.cmdt_rsp_busy
      then (let r = read_time w in
          let v = r.0 in
          record v {
            vdm_timeout = r.1 + msec 100;
            vdm_state = VdmState.wait_rsp_busy;
            vdo_retry = bit_or (clear_bits header vdo_cmdt_mask) Vdm.cmdt_init;
          })
      else record w { vdm_state = VdmState.vdm_done }
  vdm_reply _ header w = w

  -- `queue_vdm` is reached only with an answer, and neither `pd_svdm` nor `pd_custom_vdm` of this
  -- build gives one.
  unfoldable pub handle_vdm_request : ℕ → Port S → Port S
  unfolding vdm_reply
  handle_vdm_request header w = vdm_reply w.vdm_state header w

module _ {S : Type 0} (drv : TcpmDrv S) where
  -- `charging && max_request_allowed` is 1. The result is EC_SUCCESS (0), or the error of the
  -- transmission.
  unfoldable pub pd_send_request_msg : Bool → Port S → Port S × ℤ
  unfolding pd_build_request send_request set_state
  pd_send_request_msg always_send_request w0 =
      let w = record w0 { new_power_request = false } in
      let q = pd_build_request max_power w in
      if not always_send_request && w.prev_request_mv == q.2
      then (w, pos 0)
      else let v = record w { curr_limit = q.1; supply_voltage = q.2; prev_request_mv = q.2 } in
        let r = send_request drv q.0 v in
        if is_neg r.1 then r else (set_state drv snk_requested r.0, pos 0)

  -- PD_DATA_SOURCE_CAP
  unfoldable pub on_source_cap : ℕ → List ℕ → Port S → Port S
  unfolding in_state set_flag pd_update_pdo_flags pd_process_source_cap pd_send_request_msg
      pd_process_source_cap_callback
  on_source_cap cnt payload w =
      if in_state w snk_discovery || in_state w snk_transition || in_state w snk_ready
      then pd_process_source_cap_callback cnt
          (pd_send_request_msg true (
            pd_process_source_cap cnt payload
              (pd_update_pdo_flags (get_or payload 0 0) (set_flag Flags.previous_pd_conn w)))).0
      else w

  -- The end of PD_DATA_REQUEST: reject, and go to SRC_READY whatever the role.
  unfoldable pub reject_request : Port S → Port S
  unfolding send_control set_state
  reject_request w = set_state drv src_ready (send_control drv Ctrl.reject w).0

  -- PD_DATA_REQUEST
  unfoldable pub on_request : ℕ → List ℕ → Port S → Port S
  unfolding reject_request send_control set_flag set_state pd_check_requested_voltage rdo_pos
  on_request cnt payload w =
      let rdo = get_or payload 0 0 in
      if is_source w.power_role && cnt == 1 && is_success (pd_check_requested_voltage rdo)
      then (let r = send_control drv Ctrl.accept w in
          if is_neg r.1
          then r.0
          else (let v = set_flag Flags.explicit_contract r.0 in
              set_state drv src_accepted (record v { requested_idx = rdo_pos rdo })))
      else reject_request w

  -- PD_DATA_BIST, carrier mode 2 only.
  unfoldable pub on_bist : List ℕ → Port S → Port S
  unfolding in_state pd_transmit set_state
  on_bist payload w =
      if in_state w (dual_role_if_else w.power_role snk_ready src_ready)
        && get_or payload 0 0 / 2 ^ 28 == 5
      then set_state drv (dual_role_if_else w.power_role snk_disconnected src_disconnected)
          (pd_transmit drv bist_mode_2 0 [] w).0
      else w

  -- PD_DATA_SINK_CAP
  unfoldable pub on_sink_cap : List ℕ → Port S → Port S
  unfolding set_flag pd_update_pdo_flags in_state set_state
  on_sink_cap payload w =
      let v = pd_update_pdo_flags (get_or payload 0 0) (set_flag Flags.snk_cap_recvd w) in
      if in_state v src_get_sink_cap then set_state drv src_ready v else v

  unfoldable pub handle_data_request : ℕ → List ℕ → Port S → Port S
  unfolding header_type header_cnt on_source_cap on_request on_bist on_sink_cap handle_vdm_request
  handle_data_request head payload w =
      let type = header_type head in
      let cnt = header_cnt head in
      if type == DataMsg.source_cap
      then on_source_cap cnt payload w
      else if type == DataMsg.request
      then on_request cnt payload w
      else if type == DataMsg.bist
      then on_bist payload w
      else if type == DataMsg.sink_cap
      then on_sink_cap payload w
      else if type == DataMsg.vendor_def
      then handle_vdm_request (get_or payload 0 0) w
      else w
