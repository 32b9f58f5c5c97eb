-- ===== src/Protocol/Negotiation.antt =====
-- NOA_ESP32_PD/usb_pd_protocol.cpp: how a sink comes to a power contract, message by message.
use noa_esp32_pd.Base.{
  ℕ, ◌-◌, ◌%◌, ◌^◌, leb, ◌==◌, ◌||◌, true, false, ◌≡◌, refl, arith, List, [], ◌∷◌, get_or, ap, ◌∙◌,
}
use noa_esp32_pd.Base.Bits.{has, set_bits, has-set_bits}
use noa_esp32_pd.Base.Int.{is_neg}
use noa_esp32_pd.Fusb302.Alert.{TxStatus}
use noa_esp32_pd.Fusb302.Frame.{sop}
use noa_esp32_pd.Message.Header.{header_type, header_cnt}
use noa_esp32_pd.Message.Types.Ctrl
use noa_esp32_pd.Message.Types.DataMsg
use noa_esp32_pd.Policy.Request.{
  max_power, request_of, store_caps, pd_build_request, pd_process_source_cap,
  pd_process_source_cap_callback,
}
use noa_esp32_pd.Protocol.Flags
use noa_esp32_pd.Protocol.Port.{
  PdState, sink, TcpmDrv, Port, snk_discovery, snk_requested, snk_transition, snk_ready,
}
use noa_esp32_pd.Protocol.Core.{
  set_state, set_flag, clear_flag, in_state, same_state, index, has_flag, pd_is_connected,
}
use noa_esp32_pd.Protocol.Transmit.{port_header, pd_transmit, send_request, tx_result}
use noa_esp32_pd.Protocol.Negotiate.{
  copy_flag, pd_update_pdo_flags, pd_send_request_msg, on_source_cap, handle_data_request,
}
use noa_esp32_pd.Protocol.Control.{on_accept, on_ps_rdy, handle_ctrl_request, handle_request}
use noa_esp32_pd.Protocol.StateChange.{set_state_stays, closes_rx}

module _ {S : Type 0} where
  -- The flags of the partner are all that a data object changes.
  pub update_pdo_flags_form :
      (pdo : ℕ) (w : Port S) → (f : ℕ) × (pd_update_pdo_flags pdo w ≡ record w { flags = f })
  unfolding pd_update_pdo_flags copy_flag set_flag clear_flag
  update_pdo_flags_form pdo w = ((pd_update_pdo_flags pdo w).flags, ground arith)

stays_on : (last : PdState) → closes_rx last snk_requested ≡ false
unfolding closes_rx same_state index
stays_on last = ground arith

contract_bit : has (2 ^ 6) (2 ^ 6) ≡ true
unfolding has
contract_bit = refl

pub contract_set : (f : ℕ) → has (set_bits f Flags.explicit_contract) Flags.explicit_contract ≡ true
contract_set f =
    let e : has (2 ^ 6) (2 ^ 6) ≡ true = contract_bit in ground (arith, has-set_bits 6 f (2 ^ 6), e)

module _ {S : Type 0} (drv : TcpmDrv S) where
  -- A request that is sent anyway, after a transmission that succeeded: the request for the object
  -- that the sketch chose goes out, what it asks for is noted, and the port waits in SNK_REQUESTED.
  send_request_msg_lem :
      (w : Port S)
      → w.tx_status ≡ TxStatus.success
      → let w1 = record w { new_power_request = false } in
        let q = pd_build_request max_power w1 in
        let w2 = record w1 { curr_limit = q.1; supply_voltage = q.2; prev_request_mv = q.2 } in
        (pd_send_request_msg drv true w).0 ≡ set_state drv snk_requested (send_request drv q.0 w2).0
  unfolding pd_send_request_msg send_request pd_transmit
  send_request_msg_lem w h =
      let e : is_neg (tx_result w.tx_status) ≡ false = rw (h) refl in rw (e) refl

  -- What entering SNK_REQUESTED leaves alone.
  requested_fields :
      (w : Port S)
      → let v = set_state drv snk_requested w in
        (v.task_state ≡ snk_requested)
        × (v.tcpc ≡ w.tcpc)
        × (v.curr_limit ≡ w.curr_limit)
        × (v.supply_voltage ≡ w.supply_voltage)
        × (v.pd_src_caps ≡ w.pd_src_caps)
        × (v.power_role ≡ w.power_role)
        × (v.tx_status ≡ w.tx_status)
  requested_fields w =
      rw (set_state_stays drv snk_requested w (stays_on w.task_state))
        (refl, refl, refl, refl, refl, refl, refl)

  -- Capabilities that arrive in SNK_DISCOVERY, SNK_TRANSITION or SNK_READY, after a transmission
  -- that succeeded: they are stored from the front of the table, the request for the object that
  -- the sketch chose among them is sent as the one data object of a REQUEST message, its current
  -- and voltage are noted, the sketch learns the last index, and the port is in SNK_REQUESTED.
  pub source_cap-requests :
      (cnt : ℕ) (payload : List ℕ) (w : Port S)
      → (in_state w snk_discovery || in_state w snk_transition || in_state w snk_ready) ≡ true
      → w.tx_status ≡ TxStatus.success
      → let caps = store_caps cnt 0 payload w.pd_src_caps in
        let i = w.pd_source_cap_current_index in
        let r = request_of i (get_or caps i 0) in
        let v = on_source_cap drv cnt payload w in
        (v.task_state ≡ snk_requested)
        × (v.tcpc ≡ (drv.transmit sop (port_header DataMsg.request 1 w) (r.0 ∷ []) w.tcpc).0)
        × (v.curr_limit ≡ r.1)
        × (v.supply_voltage ≡ r.2)
        × (v.pd_src_caps ≡ caps)
        × (v.pd_source_cap_max_index ≡ cnt - 1)
        × (v.power_role ≡ w.power_role)
        × (v.tx_status ≡ w.tx_status)
  unfolding on_source_cap pd_process_source_cap pd_process_source_cap_callback set_flag
      pd_build_request port_header send_request pd_transmit
  source_cap-requests cnt payload w hin htx =
      let e = update_pdo_flags_form (get_or payload 0 0) (set_flag Flags.previous_pd_conn w) in
      let v = record w { flags = e.0 } in
      let u = record v {
        pd_src_cap_cnt = cnt % 256;
        pd_src_caps = store_caps cnt 0 payload w.pd_src_caps;
      } in
      let w1 = record u { new_power_request = false } in
      let q = pd_build_request max_power w1 in
      let w2 = record w1 { curr_limit = q.1; supply_voltage = q.2; prev_request_mv = q.2 } in
      let f = requested_fields (send_request drv q.0 w2).0 in
      rw (hin, e.1, send_request_msg_lem u htx) (f.0, f.1, f.2, f.3, f.4, refl, f.5, f.6)

  -- ACCEPT for a request of ours: the contract is explicit, and the power is in transition.
  accept-transition :
      (w : Port S)
      → w.task_state ≡ snk_requested
      → let v = on_accept drv w in
        (v.task_state ≡ snk_transition)
        × (has_flag v Flags.explicit_contract ≡ true)
        × (v.power_role ≡ w.power_role)
        × (v.tcpc ≡ w.tcpc)
  unfolding on_accept in_state same_state index set_flag has_flag closes_rx
  accept-transition w h =
      let u = set_flag Flags.explicit_contract w in
      let c : closes_rx w.task_state snk_transition ≡ false = rw (h) refl in
      let e = contract_set w.flags in
      let m : on_accept drv w ≡ set_state drv snk_transition u = rw (h) refl in
      rw (m, set_state_stays drv snk_transition u c) (refl, e, refl, refl)

  -- PS_RDY for a sink whose power is in transition: the port is ready, and the flags stay.
  ps_rdy-ready :
      (w : Port S)
      → w.power_role ≡ sink
      → w.task_state ≡ snk_transition
      → let v = on_ps_rdy drv w in
        (v.task_state ≡ snk_ready) × (v.flags ≡ w.flags) × (v.tcpc ≡ w.tcpc)
  unfolding on_ps_rdy in_state same_state index closes_rx
  ps_rdy-ready w hr h =
      let c : closes_rx w.task_state snk_ready ≡ false = rw (h) refl in
      let m : on_ps_rdy drv w ≡ set_state drv snk_ready w = rw (h, hr) refl in
      rw (m, set_state_stays drv snk_ready w c) (refl, refl, refl)

  -- A connected port gives a message to the handler of its kind.
  handled_ctrl :
      (head : ℕ) (payload : List ℕ) (w : Port S)
      → pd_is_connected w ≡ true
      → header_cnt head ≡ 0
      → handle_request drv head payload w ≡ handle_ctrl_request drv head w
  unfolding handle_request
  handled_ctrl head payload w hc hn = rw (hc, hn) refl

  pub handled_data :
      (head : ℕ) (payload : List ℕ) (w : Port S)
      → pd_is_connected w ≡ true
      → (header_cnt head == 0) ≡ false
      → handle_request drv head payload w ≡ handle_data_request drv head payload w
  unfolding handle_request
  handled_data head payload w hc hn = rw (hc, hn) refl

  connected :
      (w : Port S) (s : PdState)
      → w.power_role ≡ sink
      → w.task_state ≡ s
      → leb 4 (index s) ≡ true
      → pd_is_connected w ≡ true
  unfolding pd_is_connected in_state same_state index
  connected w s hr h k = rw (hr, h) (ground arith)

  -- From SNK_DISCOVERY to a contract. After a transmission that succeeded, a sink that handles
  -- SOURCE_CAP with at least one object, then ACCEPT and then PS_RDY is in SNK_REQUESTED, then in
  -- SNK_TRANSITION with an explicit contract, and then in SNK_READY with that contract; of the
  -- three it answers only the first, with the request for the object that the sketch chose.
  pub contract-reached :
      (head1 head2 head3 : ℕ) (payload1 payload2 payload3 : List ℕ) (w : Port S)
      → w.power_role ≡ sink
      → w.task_state ≡ snk_discovery
      → w.tx_status ≡ TxStatus.success
      → header_type head1 ≡ DataMsg.source_cap
      → (header_cnt head1 == 0) ≡ false
      → header_type head2 ≡ Ctrl.accept
      → header_cnt head2 ≡ 0
      → header_type head3 ≡ Ctrl.ps_rdy
      → header_cnt head3 ≡ 0
      → let caps = store_caps (header_cnt head1) 0 payload1 w.pd_src_caps in
        let i = w.pd_source_cap_current_index in
        let rdo = (request_of i (get_or caps i 0)).0 in
        let a = handle_request drv head1 payload1 w in
        let b = handle_request drv head2 payload2 a in
        let c = handle_request drv head3 payload3 b in
        (a.task_state ≡ snk_requested)
        × (a.tcpc ≡ (drv.transmit sop (port_header DataMsg.request 1 w) (rdo ∷ []) w.tcpc).0)
        × (b.task_state ≡ snk_transition)
        × (has_flag b Flags.explicit_contract ≡ true)
        × (c.task_state ≡ snk_ready)
        × (has_flag c Flags.explicit_contract ≡ true)
        × (c.tcpc ≡ a.tcpc)
  unfolding handle_data_request handle_ctrl_request in_state same_state index has_flag
  contract-reached head1 head2 head3 payload1 payload2 payload3 w hr hs ht t1 n1 t2 n2 t3 n3 =
      let a = handle_request drv head1 payload1 w in
      let in1 : (in_state w snk_discovery || in_state w snk_transition || in_state w snk_ready)
          ≡ true =
        rw (hs) refl in
      let ea : a ≡ on_source_cap drv (header_cnt head1) payload1 w =
        handled_data head1 payload1 w (connected w snk_discovery hr hs refl) n1 ∙ rw (t1) refl in
      let fa = source_cap-requests (header_cnt head1) payload1 w in1 ht in
      let sa : a.task_state ≡ snk_requested = ap (λ p. p.task_state) ea ∙ fa.0 in
      let ra : a.power_role ≡ sink = ap (λ p. p.power_role) ea ∙ fa.6 ∙ hr in
      let ca = ap (λ p. p.tcpc) ea ∙ fa.1 in
      let b = handle_request drv head2 payload2 a in
      let eb : b ≡ on_accept drv a =
        handled_ctrl head2 payload2 a (connected a snk_requested ra sa refl) n2 ∙ rw (t2) refl in
      let fb = accept-transition a sa in
      let sb : b.task_state ≡ snk_transition = ap (λ p. p.task_state) eb ∙ fb.0 in
      let rb : b.power_role ≡ sink = ap (λ p. p.power_role) eb ∙ fb.2 ∙ ra in
      let gb : has_flag b Flags.explicit_contract ≡ true =
        ap (λ p. has_flag p Flags.explicit_contract) eb ∙ fb.1 in
      let cb = ap (λ p. p.tcpc) eb ∙ fb.3 in
      let ec : handle_request drv head3 payload3 b ≡ on_ps_rdy drv b =
        handled_ctrl head3 payload3 b (connected b snk_transition rb sb refl) n3 ∙ rw (t3) refl in
      let fc = ps_rdy-ready b rb sb in
      (
        sa,
        ca,
        sb,
        gb,
        ap (λ p. p.task_state) ec ∙ fc.0,
        ap (λ p. has_flag p Flags.explicit_contract) ec
            ∙ ap (λ f. has f Flags.explicit_contract) fc.1
            ∙ gb,
        ap (λ p. p.tcpc) ec ∙ fc.2 ∙ cb,
      )
