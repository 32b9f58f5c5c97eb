-- ===== src/Protocol/Core.antt =====
-- NOA_ESP32_PD/usb_pd_protocol.cpp: time, state changes, and the queries on the state. The board
-- hooks with an empty body (`pd_set_input_current_limit`, `pd_power_supply_reset`,
-- `pd_execute_data_swap`, `pd_transition_voltage`, `pd_check_pr_role`, `pd_check_dr_role`) and the
-- debug prints change nothing and are left out here and in the modules above.
use noa_esp32_pd.Base.{
  ℕ, ◌+◌, ◌*◌, ◌==◌, Bool, true, false, not, ◌&&◌, ◌||◌, if◌then◌else◌, bit_and,
}
use noa_esp32_pd.Base.Bits.{has, set_bits, clear_bits}
use noa_esp32_pd.Base.Int.{pos}
use noa_esp32_pd.Board.Clock.{get_time}
use noa_esp32_pd.Fusb302.Alert.{TxStatus}
use noa_esp32_pd.Fusb302.Control.{CcPull}
use noa_esp32_pd.Protocol.Flags
use noa_esp32_pd.Protocol.Port.{PdState, PowerRole, sink, source, DataRole, ufp, dfp, TcpmDrv, Port}
use noa_esp32_pd.Protocol.Port.{
  disabled, snk_disconnected, snk_disconnected_debounce, src_disconnected,
  src_disconnected_debounce, snk_ready, src_ready, snk_swap_snk_disable, snk_swap_src_disable,
  snk_swap_standby, snk_swap_complete, src_swap_snk_disable, src_swap_src_disable, src_swap_standby,
}

-- MSEC_US
abbrev pub msec : ℕ → ℕ
msec n = n * 1000

pub PdState-discrete : Discrete PdState
PdState-discrete = hlevel

-- PD_ROLE_SOURCE and PD_ROLE_DFP are 1 and count as true.
abbrev pub is_source : PowerRole → Bool
is_source sink = false
is_source source = true

abbrev pub is_dfp : DataRole → Bool
is_dfp ufp = false
is_dfp dfp = true

abbrev pub to_num : Bool → ℕ
to_num false = 0
to_num true = 1

-- DUAL_ROLE_IF_ELSE
abbrev pub dual_role_if_else : {A : Type 0} → PowerRole → A → A → A
dual_role_if_else sink x y = x
dual_role_if_else source x y = y

-- The place of a state in the enumeration, by which states are compared.
unfoldable pub index : PdState → ℕ
index PdState.disabled = 0
index PdState.suspended = 1
index PdState.snk_disconnected = 2
index PdState.snk_disconnected_debounce = 3
index PdState.snk_hard_reset_recover = 4
index PdState.snk_discovery = 5
index PdState.snk_requested = 6
index PdState.snk_transition = 7
index PdState.snk_ready = 8
index PdState.snk_swap_init = 9
index PdState.snk_swap_snk_disable = 10
index PdState.snk_swap_src_disable = 11
index PdState.snk_swap_standby = 12
index PdState.snk_swap_complete = 13
index PdState.src_disconnected = 14
index PdState.src_disconnected_debounce = 15
index PdState.src_hard_reset_recover = 16
index PdState.src_startup = 17
index PdState.src_discovery = 18
index PdState.src_negociate = 19
index PdState.src_accepted = 20
index PdState.src_powered = 21
index PdState.src_transition = 22
index PdState.src_ready = 23
index PdState.src_get_sink_cap = 24
index PdState.dr_swap = 25
index PdState.src_swap_init = 26
index PdState.src_swap_snk_disable = 27
index PdState.src_swap_src_disable = 28
index PdState.src_swap_standby = 29
index PdState.soft_reset = 30
index PdState.hard_reset_send = 31
index PdState.hard_reset_execute = 32

-- `a == b` on states.
unfoldable pub same_state : PdState → PdState → Bool
unfolding index
same_state a b = index a == index b

module _ {S : Type 0} where
  -- `get_time().val`: one reading of each counter.
  unfoldable pub read_time : Port S → Port S × ℕ
  unfolding get_time
  read_time w =
      let k = w.clock in
      (
        record w { clock = record { millis = k.millis; micros = k.micros; calls = k.calls + 1 } },
        get_time (k.millis k.calls) (k.micros k.calls),
      )

  unfoldable pub set_state_timeout : ℕ → PdState → Port S → Port S
  set_state_timeout timeout next w = record w { state_timeout = timeout; timeout_state = next }

  -- `set_state_timeout(port, get_time().val + wait, next)`
  unfoldable pub start_timer : ℕ → PdState → Port S → Port S
  unfolding read_time set_state_timeout
  start_timer wait next w = let r = read_time w in set_state_timeout (r.1 + wait) next r.0

  unfoldable pub set_wake : ℕ → Port S → Port S
  set_wake t w = record w { wake = t }

  unfoldable pub set_flag : ℕ → Port S → Port S
  set_flag m w = record w { flags = set_bits w.flags m }

  unfoldable pub clear_flag : ℕ → Port S → Port S
  clear_flag m w = record w { flags = clear_bits w.flags m }

  unfoldable pub has_flag : Port S → ℕ → Bool
  has_flag w m = has w.flags m

  unfoldable pub in_state : Port S → PdState → Bool
  unfolding same_state
  in_state w s = same_state w.task_state s

  -- `pd[port].last_state != pd[port].task_state`
  unfoldable pub entered : Port S → Bool
  unfolding same_state
  entered w = not (same_state w.last_state w.task_state)

  unfoldable pub pd_is_connected : Port S → Bool
  unfolding in_state
  pd_is_connected w =
      if in_state w disabled
      then false
      else dual_role_if_else w.power_role
          (not (in_state w snk_disconnected) && not (in_state w snk_disconnected_debounce))
          (not (in_state w src_disconnected) && not (in_state w src_disconnected_debounce))

  -- READY_RETURN_STATE
  unfoldable pub ready_return_state : Port S → PdState
  ready_return_state w = dual_role_if_else w.power_role snk_ready src_ready

  unfoldable pub pd_is_power_swapping : Port S → Bool
  unfolding in_state
  pd_is_power_swapping w =
      in_state w snk_swap_snk_disable
      || in_state w snk_swap_src_disable
      || in_state w snk_swap_standby
      || in_state w snk_swap_complete
      || in_state w src_swap_snk_disable
      || in_state w src_swap_src_disable
      || in_state w src_swap_standby

  -- `pdo_busy`: not in a READY state.
  unfoldable pub pdo_busy : Port S → Bool
  unfolding in_state
  pdo_busy w = not (in_state w src_ready) && not (in_state w snk_ready)

  -- PD_MESSAGE_ID_COUNT is 7, used as a mask.
  unfoldable pub inc_id : Port S → Port S
  inc_id w = record w { msg_id = bit_and (w.msg_id + 1) 7 }

  unfoldable pub pd_transmit_complete : TxStatus → Port S → Port S
  unfolding inc_id
  pd_transmit_complete TxStatus.success w =
      let v = inc_id w in record v { tx_status = TxStatus.success }
  pd_transmit_complete status w = record w { tx_status = status }

module _ {S : Type 0} (drv : TcpmDrv S) where
  unfoldable pub tcpm_set_cc : CcPull → Port S → Port S
  tcpm_set_cc pull w = record w { tcpc = (drv.set_cc pull w.tcpc).0 }

  unfoldable pub tcpm_set_rx_enable : Bool → Port S → Port S
  tcpm_set_rx_enable enable w = record w { tcpc = (drv.set_rx_enable enable w.tcpc).0 }

  unfoldable pub tcpm_set_polarity : Port S → Port S
  tcpm_set_polarity w = record w { tcpc = (drv.set_polarity (pos w.polarity) w.tcpc).0 }

  unfoldable pub tcpm_get_cc : Port S → Port S
  tcpm_get_cc w =
      let r = drv.get_cc w.cc1 w.cc2 w.tcpc in record w { tcpc = r.0; cc1 = r.1.0; cc2 = r.1.1 }

  -- `pd_update_roles`
  unfoldable pub pd_update_roles : Port S → Port S
  pd_update_roles w = record w {
    tcpc = (drv.set_msg_header (is_source w.power_role) (is_dfp w.data_role) w.tcpc).0;
  }

  unfoldable pub pd_set_data_role : DataRole → Port S → Port S
  unfolding pd_update_roles
  pd_set_data_role role w = pd_update_roles (record w { data_role = role })

  unfoldable pub pd_dr_swap : Port S → Port S
  unfolding pd_set_data_role set_flag
  pd_dr_swap w =
      set_flag Flags.check_identity (pd_set_data_role (if is_dfp w.data_role then ufp else dfp) w)

  -- Reception goes off when the port enters a disconnected state, but not when it toggles from
  -- one role's disconnected state to the other's.
  unfoldable pub set_state : PdState → Port S → Port S
  unfolding set_state_timeout same_state tcpm_set_rx_enable
  set_state next w =
      let last = w.task_state in
      let v = record (set_state_timeout 0 disabled w) { task_state = next } in
      if same_state last next
      then v
      else if same_state last snk_disconnected && same_state next src_disconnected
          || same_state last src_disconnected && same_state next snk_disconnected
      then v
      else if same_state next src_disconnected || same_state next snk_disconnected
      then tcpm_set_rx_enable false v
      else v
