-- ===== src/Protocol/Vconn/State.antt =====
-- NOA_ESP32_PD/usb_pd_protocol.cpp: the states of a build with CONFIG_USBC_VCONN_SWAP, and the
-- messages that they take.
use noa_esp32_pd.Base.{
  ℕ, ◌+◌, ◌-◌, min, ltb, leb, ◌==◌, ◌&&◌, ◌||◌, not, Bool, false, if◌then◌else◌,
}
use noa_esp32_pd.Base.Int.{is_neg}
use noa_esp32_pd.Message.Types.Ctrl
use noa_esp32_pd.Protocol.Flags
use noa_esp32_pd.Protocol.Port.{
  PdState, disabled, snk_disconnected, src_disconnected, snk_ready, src_ready, TcpmDrv, Port,
}
use noa_esp32_pd.Protocol.Core.{
  msec, index, has_flag, set_wake, read_time, tcpm_set_rx_enable, ready_return_state,
}
use noa_esp32_pd.Protocol.Transmit.{send_control}

-- `enum pd_states`: the states of the other builds, and the three of a swap.
pub data VconnState : Type 0 where
  main : PdState → VconnState
  swap_send swap_init swap_ready : VconnState

-- The port, with its states, for which those of `port` stand in the other builds.
pub record VconnPort (S : Type 0) : Type 0 where
  pub port : Port S
  pub task_state : VconnState
  pub last_state : VconnState
  pub timeout_state : VconnState

-- Numbers that tell the states apart.
abbrev pub place : VconnState → ℕ
unfolding index
place (main s) = index s
place swap_send = 33
place swap_init = 34
place swap_ready = 35

-- `a == b` on states.
unfoldable pub same_vconn : VconnState → VconnState → Bool
unfolding place
same_vconn a b = place a == place b

module _ {S : Type 0} where
  unfoldable pub set_timeout : ℕ → VconnState → VconnPort S → VconnPort S
  set_timeout timeout next v = record v {
    port = record v.port { state_timeout = timeout };
    timeout_state = next;
  }

  -- `set_state_timeout(port, get_time().val + wait, next)`
  unfoldable pub start_wait : ℕ → VconnState → VconnPort S → VconnPort S
  unfolding read_time set_timeout
  start_wait wait next v =
      let r = read_time v.port in set_timeout (r.1 + wait) next (record v { port = r.0 })

  unfoldable pub is_at : VconnPort S → VconnState → Bool
  unfolding same_vconn
  is_at v s = same_vconn v.task_state s

  -- `last_state != task_state`
  unfoldable pub just_entered : VconnPort S → Bool
  unfolding same_vconn
  just_entered v = not (same_vconn v.last_state v.task_state)

  -- In SRC_READY or SNK_READY.
  unfoldable pub is_ready : VconnPort S → Bool
  unfolding is_at
  is_ready v = is_at v (main src_ready) || is_at v (main snk_ready)

  -- READY_RETURN_STATE
  unfoldable pub return_state : VconnPort S → VconnState
  unfolding ready_return_state
  return_state v = main (ready_return_state v.port)

module _ {S : Type 0} (drv : TcpmDrv S) where
  -- `set_state`
  unfoldable pub enter : VconnState → VconnPort S → VconnPort S
  unfolding set_timeout same_vconn tcpm_set_rx_enable
  enter next v =
      let last = v.task_state in
      let u = record (set_timeout 0 (main disabled) v) { task_state = next } in
      if same_vconn last next
      then u
      else if same_vconn last (main snk_disconnected) && same_vconn next (main src_disconnected)
          || same_vconn last (main src_disconnected) && same_vconn next (main snk_disconnected)
      then u
      else if same_vconn next (main src_disconnected) || same_vconn next (main snk_disconnected)
      then record u { port = tcpm_set_rx_enable drv false u.port }
      else u

  unfoldable pub pd_request_vconn_swap : VconnPort S → VconnPort S
  unfolding is_ready enter
  pd_request_vconn_swap v = if is_ready v then enter swap_send v else v

  -- `can_swap` is what `pd_check_vconn_swap` says.
  unfoldable pub pd_try_vconn_src : Bool → VconnPort S → VconnPort S
  unfolding has_flag pd_request_vconn_swap
  pd_try_vconn_src can_swap v =
      if has_flag v.port Flags.vconn_on then v else if can_swap then pd_request_vconn_swap v else v

  -- PD_CTRL_VCONN_SWAP
  unfoldable pub on_vconn_swap : Bool → VconnPort S → VconnPort S
  unfolding is_ready send_control enter
  on_vconn_swap can_swap v =
      if not (is_ready v)
      then v
      else if can_swap
      then (let r = send_control drv Ctrl.accept v.port in
          let u = record v { port = r.0 } in if is_neg r.1 then u else enter swap_init u)
      else record v { port = (send_control drv Ctrl.reject v.port).0 }

  -- PD_CTRL_ACCEPT in VCONN_SWAP_SEND
  unfoldable pub on_accept_vconn : VconnPort S → VconnPort S
  unfolding is_at enter
  on_accept_vconn v = if is_at v swap_send then enter swap_init v else v

  -- PD_CTRL_REJECT and PD_CTRL_WAIT in VCONN_SWAP_SEND
  unfoldable pub on_reject_vconn : VconnPort S → VconnPort S
  unfolding is_at enter return_state
  on_reject_vconn v = if is_at v swap_send then enter (return_state v) v else v

  -- PD_CTRL_PS_RDY in VCONN_SWAP_INIT
  unfoldable pub on_ps_rdy_vconn : VconnPort S → VconnPort S
  unfolding is_at has_flag enter
  on_ps_rdy_vconn v =
      if is_at v swap_init
      then (if has_flag v.port Flags.vconn_on then enter swap_ready v else v)
      else v

  -- The state timeout, and the time until the next run.
  unfoldable pub check_wait : VconnPort S → VconnPort S
  unfolding read_time enter set_wake
  check_wait v0 =
      let r = read_time v0.port in
      let v = record v0 { port = r.0 } in
      let left = v.port.state_timeout - r.1 in
      if v.port.state_timeout == 0
      then v
      else if leb v.port.state_timeout r.1
      then (let u = enter v.timeout_state v in
          record u { port = set_wake (min u.port.wake (msec 10)) u.port })
      else if ltb left v.port.wake
      then record v { port = set_wake left v.port }
      else v
