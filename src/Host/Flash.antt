-- ===== src/Host/Flash.antt =====
-- NOA_ESP32_PD/usb_pd_protocol.cpp: `hc_remote_flash` and `pd_fetch_acc_log_entry`, firmware update
-- and log of a device by vendor messages. What the other tasks do to the port during one
-- `task_wait_event` is a parameter, and a loop that waits is on fuel: `none` when it runs out.
-- CONFIG_BATTERY_PRESENT_CUSTOM and CONFIG_BATTERY_PRESENT_GPIO are not set.
use noa_esp32_pd.Base.Options.{◌>>=◌}
use noa_esp32_pd.Base.{
  ℕ, zero, suc, ◌+◌, ◌-◌, ◌/◌, ◌%◌, ◌^◌, min, ltb, leb, ◌==◌, ◌||◌, not, Bool, true, false,
  if◌then◌else◌, List, [], Option, none, some, drop,
}
use noa_esp32_pd.Message.Types.Vdm as Cmd
use noa_esp32_pd.Protocol.Port.{VdmState, Port}
use noa_esp32_pd.Protocol.Core.{msec, read_time}
use noa_esp32_pd.Protocol.Vdm.{pd_send_vdm}
use noa_esp32_pd.Host.Result.{EcResult}

-- `cmd`: the host may send another.
pub data FwCmd : Type 0 where
  reboot flash_erase erase_sig flash_write other : FwCmd

-- `struct ec_params_usb_pd_fw_update`, with the words that follow it and `args->params_size`.
pub record FwUpdate : Type 0 where
  pub port : ℕ
  pub cmd : FwCmd
  pub size : ℕ
  pub data' : List ℕ
  pub params_size : ℕ

-- `vdm_state > 0`
unfoldable pub vdm_pending : VdmState → Bool
vdm_pending VdmState.vdm_ready = true
vdm_pending VdmState.vdm_busy = true
vdm_pending VdmState.wait_rsp_busy = true
vdm_pending _ = false

-- `vdm_state < 0`
unfoldable pub vdm_failed : VdmState → Bool
vdm_failed VdmState.err_busy = true
vdm_failed VdmState.err_send = true
vdm_failed VdmState.err_tmout = true
vdm_failed _ = false

-- The result after the wait of `hc_remote_flash`.
unfoldable pub update_result : VdmState → EcResult
unfolding vdm_pending vdm_failed
update_result VdmState.err_tmout = EcResult.timeout
update_result s =
    if vdm_pending s
    then EcResult.timeout
    else if vdm_failed s
    then EcResult.error
    else EcResult.success

-- The result after that of `pd_fetch_acc_log_entry`.
unfoldable pub log_result : VdmState → EcResult
unfolding vdm_pending vdm_failed
log_result s =
    if vdm_pending s
    then EcResult.timeout
    else if vdm_failed s
    then EcResult.error
    else EcResult.success

module _ {S : Type 0} (others : Port S → Port S) where
  -- `while (vdm_state > 0 && get_time().val < timeout.val) task_wait_event(...)`
  unfoldable pub wait_vdm : ℕ → ℕ → Port S → Option (Port S)
  unfolding vdm_pending read_time
  wait_vdm zero timeout w = none
  wait_vdm (suc fuel) timeout w =
      let r = read_time w in
      let rest = wait_vdm fuel timeout (others r.0) in
      if vdm_pending w.vdm_state then (if ltb r.1 timeout then rest else some r.0) else some w

  -- `timeout.val = get_time().val + wait` and the loop.
  unfoldable pub wait_vdm_for : ℕ → ℕ → Port S → Option (Port S)
  unfolding wait_vdm read_time
  wait_vdm_for fuel wait w = let r = read_time w in wait_vdm fuel (r.1 + wait) r.0

  -- The loop of USB_PD_FW_FLASH_WRITE over the words from `data + i`, of which `left` are to be
  -- sent; VDO_MAX_SIZE is 7. The first argument bounds the rounds.
  unfoldable pub write_chunks : ℕ → ℕ → List ℕ → ℕ → Port S → Option (Port S × EcResult)
  unfolding wait_vdm_for pd_send_vdm vdm_pending
  write_chunks zero fuel words left w = if left == 0 then some (w, EcResult.success) else none
  write_chunks (suc rounds) fuel words left w =
      let v = pd_send_vdm Cmd.usb_vid_google Cmd.vdo_cmd_flash_write words (min left (7 - 1)) w in
      elim (left == 0) [
        | true ↦ some (w, EcResult.success)
        | false ↦ do
          u ← wait_vdm_for fuel (msec 500) v
          (let rest = write_chunks rounds fuel (drop (7 - 1) words) (left - (7 - 1)) u in
              if vdm_pending u.vdm_state then some (u, EcResult.timeout) else rest)
      ]

  -- The commands.
  unfoldable pub run_update : ℕ → FwCmd → ℕ → List ℕ → Port S → Option (Port S × EcResult)
  unfolding write_chunks wait_vdm_for update_result pd_send_vdm
  run_update fuel FwCmd.reboot size data' w =
      some (pd_send_vdm Cmd.usb_vid_google Cmd.vdo_cmd_reboot [] 0 w, EcResult.success)
  run_update fuel FwCmd.flash_erase size data' w =
      some (pd_send_vdm Cmd.usb_vid_google Cmd.vdo_cmd_flash_erase [] 0 w, EcResult.success)
  run_update fuel FwCmd.erase_sig size data' w = do
    v ← wait_vdm_for fuel (msec 500) (pd_send_vdm Cmd.usb_vid_google Cmd.vdo_cmd_erase_sig [] 0 w)
    some (v, update_result v.vdm_state)
  run_update fuel FwCmd.flash_write size data' w =
      if size == 0 || not (size % 4 == 0)
      then some (w, EcResult.invalid_param)
      else write_chunks (size / 4) fuel data' (size / 4) w
  run_update fuel FwCmd.other size data' w = some (w, EcResult.invalid_param)

  -- The sum of `p->size` and `sizeof(*p)`, which is not in the repository, is one of 32 bits. There
  -- is one port.
  unfoldable pub hc_remote_flash : ℕ → ℕ → FwUpdate → Port S → Option (Port S × EcResult)
  unfolding run_update vdm_pending
  hc_remote_flash params_header fuel p w =
      if leb 1 p.port
      then some (w, EcResult.invalid_param)
      else if ltb p.params_size ((p.size + params_header) % 2 ^ 32)
      then some (w, EcResult.invalid_param)
      else if vdm_pending w.vdm_state
      then some (w, EcResult.busy)
      else run_update fuel p.cmd p.size p.data' w

  unfoldable pub fetch_log : ℕ → VdmState → Port S → Option (Port S × EcResult)
  unfolding vdm_pending wait_vdm_for pd_send_vdm log_result
  fetch_log fuel VdmState.vdm_busy w = some (w, EcResult.busy)
  fetch_log fuel s w = elim (vdm_pending s) [
    | true ↦ some (w, EcResult.unavailable)
    | false ↦ do
      v ← wait_vdm_for fuel (msec 75) (pd_send_vdm Cmd.usb_vid_google Cmd.vdo_cmd_get_log [] 0 w)
      some (v, log_result v.vdm_state)
  ]

  unfoldable pub pd_fetch_acc_log_entry : ℕ → Port S → Option (Port S × EcResult)
  unfolding fetch_log
  pd_fetch_acc_log_entry fuel w = fetch_log fuel w.vdm_state w
