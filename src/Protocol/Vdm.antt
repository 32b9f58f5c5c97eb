-- ===== src/Protocol/Vdm.antt =====
-- NOA_ESP32_PD/usb_pd_protocol.cpp: sending vendor defined messages.
use noa_esp32_pd.Base.{
  ℕ, ◌+◌, ◌-◌, ◌%◌, ltb, leb, ◌==◌, ◌||◌, not, bit_and, List, get_or, set, if◌then◌else◌,
}
use noa_esp32_pd.Base.Int.{is_neg}
use noa_esp32_pd.Fusb302.Frame.{sop}
use noa_esp32_pd.Message.Objects.{vdo, vdo_cmd, vdo_cmdt, vdo_svdm}
use noa_esp32_pd.Message.Types.DataMsg
use noa_esp32_pd.Message.Types.Vdm as Cmd
use noa_esp32_pd.Policy.Request.{store_caps}
use noa_esp32_pd.Protocol.Port.{VdmState, TcpmDrv, Port}
use noa_esp32_pd.Protocol.Core.{msec, to_num, pd_is_connected, pdo_busy, read_time}
use noa_esp32_pd.Protocol.Transmit.{pd_transmit, port_header}

unfoldable pub vdm_get_ready_timeout : ℕ → ℕ
unfolding vdo_svdm vdo_cmd vdo_cmdt
vdm_get_ready_timeout vdm_hdr =
    let cmd = vdo_cmd vdm_hdr in
    let mode = cmd == Cmd.cmd_enter_mode || cmd == Cmd.cmd_exit_mode in
    if vdo_svdm vdm_hdr == 0
    then msec 500
    else if vdo_cmdt vdm_hdr == Cmd.cmdt_init
    then (if mode then msec 100 else msec 30)
    else (if mode then msec 25 else msec 15)

module _ {S : Type 0} where
  -- `memcpy(&vdo_data[1], data, 4 * data_cnt)` is the loop of `store_caps` from index 1.
  unfoldable pub queue_vdm : ℕ → List ℕ → ℕ → Port S → Port S
  unfolding store_caps
  queue_vdm header data' data_cnt w = record w {
    vdo_count = (data_cnt + 1) % 256;
    vdo_data = store_caps data_cnt 1 data' (set w.vdo_data 0 header);
    vdm_state = VdmState.vdm_ready;
  }

  -- VDO_MAX_SIZE is 7.
  unfoldable pub pd_send_vdm : ℕ → ℕ → List ℕ → ℕ → Port S → Port S
  unfolding queue_vdm vdo vdo_cmd
  pd_send_vdm vid cmd data' count w =
      let structured =
        bit_and vid Cmd.usb_sid_pd == Cmd.usb_sid_pd || leb (vdo_cmd cmd) Cmd.cmd_attention in
      if ltb (7 - 1) count then w else queue_vdm (vdo vid (to_num structured) cmd) data' count w

  unfoldable pub vdm_wait : Port S → Port S
  unfolding read_time
  vdm_wait w =
      let r = read_time w in
      let v = r.0 in
      if ltb v.vdm_timeout r.1
      then record v {
        vdo_data = set v.vdo_data 0 v.vdo_retry;
        vdo_count = 1;
        vdm_state = VdmState.vdm_ready;
      }
      else v

  unfoldable pub vdm_await : Port S → Port S
  unfolding read_time
  vdm_await w =
      if w.vdm_timeout == 0
      then w
      else let r = read_time w in
        let v = r.0 in
        if ltb v.vdm_timeout r.1 then record v { vdm_state = VdmState.err_tmout } else v

module _ {S : Type 0} (drv : TcpmDrv S) where
  unfoldable pub vdm_send : Port S → Port S
  unfolding pd_is_connected pdo_busy pd_transmit port_header vdm_get_ready_timeout read_time
  vdm_send w =
      if not (pd_is_connected w)
      then record w { vdm_state = VdmState.err_busy }
      else if pdo_busy w
      then w
      else let r =
          pd_transmit drv sop (port_header DataMsg.vendor_def w.vdo_count w) w.vdo_data w in
        let v = r.0 in
        if is_neg r.1
        then record v { vdm_state = VdmState.err_send }
        else let t = read_time v in
          let u = t.0 in
          record u {
            vdm_state = VdmState.vdm_busy;
            vdm_timeout = t.1 + vdm_get_ready_timeout (get_or u.vdo_data 0 0);
          }

  unfoldable pub vdm_step : VdmState → Port S → Port S
  unfolding vdm_send vdm_wait vdm_await
  vdm_step VdmState.vdm_ready w = vdm_send w
  vdm_step VdmState.wait_rsp_busy w = vdm_wait w
  vdm_step VdmState.vdm_busy w = vdm_await w
  vdm_step _ w = w

  unfoldable pub pd_vdm_send_state_machine : Port S → Port S
  unfolding vdm_step
  pd_vdm_send_state_machine w = vdm_step w.vdm_state w
