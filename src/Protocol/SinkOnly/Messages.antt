-- ===== src/Protocol/SinkOnly/Messages.antt =====
-- NOA_ESP32_PD/usb_pd_protocol.cpp: every message that a port which stays a sink handles, and every
-- VDM that it sends, keeps the invariant.
use noa_esp32_pd.Base.{ℕ, ◌==◌, Bool, true, false, ◌≡◌, ◌&&◌, get_or, List, []}
use noa_esp32_pd.Protocol.Flags
use noa_esp32_pd.Protocol.Port.{TcpmDrv, Port}
use noa_esp32_pd.Protocol.Core.{index, set_flag}
use noa_esp32_pd.Protocol.Vdm.{
  vdm_send, vdm_wait, vdm_await, vdm_step, pd_vdm_send_state_machine, pd_send_vdm, queue_vdm,
}
use noa_esp32_pd.Protocol.Port.{VdmState}
use noa_esp32_pd.Protocol.Core.{is_source}
use noa_esp32_pd.Protocol.Transmit.{pd_transmit, port_header, send_request}
use noa_esp32_pd.Message.Types.DataMsg
use noa_esp32_pd.Fusb302.Frame.{sop, bist_mode_2}
use noa_esp32_pd.Policy.Request.{
  pd_check_requested_voltage, pd_build_request, max_power, pd_process_source_cap,
  pd_process_source_cap_callback,
}
use noa_esp32_pd.Protocol.Negotiate.{
  is_success, copy_flag, pd_update_pdo_flags, pd_send_request_msg, on_source_cap, reject_request,
  on_request, on_bist, on_sink_cap, vdm_reply, handle_vdm_request, handle_data_request,
}
use noa_esp32_pd.Protocol.SinkOnly.{
  IsSinkOnly, KeepsSafe, is_sink_side, sink_rules, read_time-IsSinkOnly, transmit-IsSinkOnly,
  else-IsSinkOnly, if-IsSinkOnly,
}

module _ {S : Type 0} (drv : TcpmDrv S) (Safe : S → Type 0) (keeps : KeepsSafe drv Safe) where
  pub send_vdm-IsSinkOnly :
      (vid : ℕ) (cmd : ℕ) (data' : List ℕ) (count : ℕ) (w : Port S)
      → IsSinkOnly Safe w
      → IsSinkOnly Safe (pd_send_vdm vid cmd data' count w)
  unfolding pd_send_vdm queue_vdm
  send_vdm-IsSinkOnly vid cmd data' count w h = search sink_rules

  vdm_send-IsSinkOnly : (w : Port S) → IsSinkOnly Safe w → IsSinkOnly Safe (vdm_send drv w)
  unfolding vdm_send
  vdm_send-IsSinkOnly w h =
      let head = port_header DataMsg.vendor_def w.vdo_count w in
      let hv = transmit-IsSinkOnly drv Safe keeps sop head w.vdo_data w h in
      let v = (pd_transmit drv sop head w.vdo_data w).0 in
      let hr = read_time-IsSinkOnly Safe v hv in search sink_rules

  vdm_wait-IsSinkOnly : (w : Port S) → IsSinkOnly Safe w → IsSinkOnly Safe (vdm_wait w)
  unfolding vdm_wait
  vdm_wait-IsSinkOnly w h = let hr = read_time-IsSinkOnly Safe w h in search sink_rules

  vdm_await-IsSinkOnly : (w : Port S) → IsSinkOnly Safe w → IsSinkOnly Safe (vdm_await w)
  unfolding vdm_await
  vdm_await-IsSinkOnly w h = let hr = read_time-IsSinkOnly Safe w h in search sink_rules

  vdm_step-IsSinkOnly :
      (s : VdmState) (w : Port S) → IsSinkOnly Safe w → IsSinkOnly Safe (vdm_step drv s w)
  unfolding vdm_step
  vdm_step-IsSinkOnly VdmState.vdm_ready w h = vdm_send-IsSinkOnly w h
  vdm_step-IsSinkOnly VdmState.wait_rsp_busy w h = vdm_wait-IsSinkOnly w h
  vdm_step-IsSinkOnly VdmState.vdm_busy w h = vdm_await-IsSinkOnly w h
  vdm_step-IsSinkOnly _ w h = h

  pub vdm_machine-IsSinkOnly :
      (w : Port S) → IsSinkOnly Safe w → IsSinkOnly Safe (pd_vdm_send_state_machine drv w)
  unfolding pd_vdm_send_state_machine
  vdm_machine-IsSinkOnly w h = vdm_step-IsSinkOnly w.vdm_state w h

  copy_flag-IsSinkOnly :
      (pdo : ℕ) (bit : ℕ) (m : ℕ) (w : Port S)
      → IsSinkOnly Safe w
      → IsSinkOnly Safe (copy_flag pdo bit m w)
  unfolding copy_flag
  copy_flag-IsSinkOnly pdo bit m w h = search sink_rules

  update_pdo_flags-IsSinkOnly :
      (pdo : ℕ) (w : Port S) → IsSinkOnly Safe w → IsSinkOnly Safe (pd_update_pdo_flags pdo w)
  unfolding pd_update_pdo_flags
  update_pdo_flags-IsSinkOnly pdo w h = search (sink_rules, copy_flag-IsSinkOnly) depth 7

  pub send_request_msg-IsSinkOnly :
      (always : Bool) (w : Port S)
      → IsSinkOnly Safe w
      → IsSinkOnly Safe ((pd_send_request_msg drv always w).0)
  unfolding pd_send_request_msg send_request is_sink_side index
  send_request_msg-IsSinkOnly always w h =
      let v = record w { new_power_request = false } in
      let hv : IsSinkOnly Safe v = search in
      let q = pd_build_request max_power v in
      let u = record v { curr_limit = q.1; supply_voltage = q.2; prev_request_mv = q.2 } in
      let hu : IsSinkOnly Safe u = search in search sink_rules depth 7

  source_cap-IsSinkOnly :
      (cnt : ℕ) (payload : List ℕ) (w : Port S)
      → IsSinkOnly Safe w
      → IsSinkOnly Safe (on_source_cap drv cnt payload w)
  unfolding on_source_cap pd_process_source_cap pd_process_source_cap_callback
  source_cap-IsSinkOnly cnt payload w h =
      let v = pd_update_pdo_flags (get_or payload 0 0) (set_flag Flags.previous_pd_conn w) in
      let hv : IsSinkOnly Safe v = search (sink_rules, update_pdo_flags-IsSinkOnly) in
      let u = pd_process_source_cap cnt payload v in
      let hu : IsSinkOnly Safe u = search in
      let hr = send_request_msg-IsSinkOnly true u hu in search sink_rules

  reject_request-IsSinkOnly :
      (w : Port S) → IsSinkOnly Safe w → IsSinkOnly Safe (reject_request drv w)
  unfolding reject_request is_sink_side index
  reject_request-IsSinkOnly w h = search sink_rules

  request-IsSinkOnly :
      (cnt : ℕ) (payload : List ℕ) (w : Port S)
      → IsSinkOnly Safe w
      → IsSinkOnly Safe (on_request drv cnt payload w)
  unfolding on_request
  request-IsSinkOnly cnt payload w h =
      let rdo = get_or payload 0 0 in
      let e : (is_source w.power_role && cnt == 1 && is_success (pd_check_requested_voltage rdo))
          ≡ false =
        cc in
      search (else-IsSinkOnly, reject_request-IsSinkOnly)

  bist-IsSinkOnly :
      (payload : List ℕ) (w : Port S) → IsSinkOnly Safe w → IsSinkOnly Safe (on_bist drv payload w)
  unfolding on_bist is_sink_side index
  bist-IsSinkOnly payload w h =
      let hv = transmit-IsSinkOnly drv Safe keeps bist_mode_2 0 [] w h in search sink_rules

  sink_cap-IsSinkOnly :
      (payload : List ℕ) (w : Port S)
      → IsSinkOnly Safe w
      → IsSinkOnly Safe (on_sink_cap drv payload w)
  unfolding on_sink_cap is_sink_side index
  sink_cap-IsSinkOnly payload w h = search (sink_rules, update_pdo_flags-IsSinkOnly) depth 7

  vdm_reply-IsSinkOnly :
      (s : VdmState) (header : ℕ) (w : Port S)
      → IsSinkOnly Safe w
      → IsSinkOnly Safe (vdm_reply s header w)
  unfolding vdm_reply
  vdm_reply-IsSinkOnly VdmState.vdm_busy header w h =
      let hr = read_time-IsSinkOnly Safe w h in search sink_rules
  vdm_reply-IsSinkOnly _ header w h = h

  vdm_request-IsSinkOnly :
      (header : ℕ) (w : Port S) → IsSinkOnly Safe w → IsSinkOnly Safe (handle_vdm_request header w)
  unfolding handle_vdm_request
  vdm_request-IsSinkOnly header w h = vdm_reply-IsSinkOnly w.vdm_state header w h

  pub data_request-IsSinkOnly :
      (head : ℕ) (payload : List ℕ) (w : Port S)
      → IsSinkOnly Safe w
      → IsSinkOnly Safe (handle_data_request drv head payload w)
  unfolding handle_data_request
  data_request-IsSinkOnly head payload w h =
      search
        (
          if-IsSinkOnly, source_cap-IsSinkOnly, request-IsSinkOnly, bist-IsSinkOnly,
          sink_cap-IsSinkOnly, vdm_request-IsSinkOnly,
        )
        depth 9
