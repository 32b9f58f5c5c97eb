-- ===== src/Protocol/SourceSide.antt =====
-- NOA_ESP32_PD/usb_pd_protocol.cpp: a source that offers its capabilities, serves a request and waits
-- until it has power.
use noa_esp32_pd.Base.{
  ◌+◌, ◌≤◌, ltb, Bool-cases, inl, inr, taken, not_taken, ℕ, ◌<◌, ◌==◌, ◌&&◌, Bool, true, false,
  if◌then◌else◌, ◌≡◌, refl, ap, ◌∙◌, List, [], ◌∷◌, length, get_or, get_or-set_self, arith,
}
use noa_esp32_pd.Base.Bits.Fields.{bit_and_mask}
use noa_esp32_pd.Base.Int.{is_neg}
use noa_esp32_pd.Board.{pd_src_pdo, pd_src_pdo_cnt}
use noa_esp32_pd.Fusb302.Alert.{TxStatus}
use noa_esp32_pd.Fusb302.Frame.{sop}
use noa_esp32_pd.Message.Header.{header_type, header_cnt}
use noa_esp32_pd.Message.Layout.{pd_header_fields}
use noa_esp32_pd.Message.Objects.{pdo_type, pdo_type_battery, rdo_pos}
use noa_esp32_pd.Message.Types.Ctrl
use noa_esp32_pd.Message.Types.DataMsg
use noa_esp32_pd.Policy.Bounds.{request-accepted, request-fields}
use noa_esp32_pd.Policy.Request.{request_of, store_caps, pd_check_requested_voltage}
use noa_esp32_pd.Protocol.Flags
use noa_esp32_pd.Protocol.Port.{
  PdState, source, TcpmDrv, Port, src_negociate, src_accepted, src_disconnected, src_ready,
  src_discovery, src_powered, src_transition, hard_reset_send, Clock,
}
use noa_esp32_pd.Protocol.Core.{
  pd_transmit_complete, inc_id, msec, entered, start_timer, set_state_timeout, read_time, set_state,
  set_flag, set_wake, in_state, same_state, index, has_flag, pd_is_connected, is_source, is_dfp,
  to_num,
}
use noa_esp32_pd.Protocol.Transmit.{
  port_header, pd_transmit, send_control, send_source_cap, tx_result,
}
use noa_esp32_pd.Protocol.Negotiate.{is_success, on_request, reject_request}
use noa_esp32_pd.Protocol.Control.{handle_request}
use noa_esp32_pd.Protocol.Source.{
  run_src_discovery, run_src_accepted, run_src_powered, run_src_transition,
}
use noa_esp32_pd.Protocol.EntryTimer.{clock_time, Same, Same-trans, timed_out, newly}
use noa_esp32_pd.Protocol.Run.{check_timeout}
use noa_esp32_pd.Protocol.StateChange.{set_state_stays, closes_rx}
use noa_esp32_pd.Protocol.Negotiation.{contract_set}

to_num-lt : (b : Bool) → to_num b < 2
to_num-lt true = omega arith
to_num-lt false = omega arith

-- A port's header gives back the type and the count of its message.
pub port_header_fields :
    {S : Type 0} (type cnt : ℕ) (w : Port S)
    → type < 16
    → cnt < 8
    → w.msg_id < 8
    → (header_type (port_header type cnt w) ≡ type) × (header_cnt (port_header type cnt w) ≡ cnt)
unfolding port_header
port_header_fields type cnt w ht hc hi =
    let e =
      pd_header_fields type (to_num (is_source w.power_role)) (to_num (is_dfp w.data_role)) w.msg_id
        cnt 1 ht (to_num-lt (is_source w.power_role)) (to_num-lt (is_dfp w.data_role)) hi hc
        (omega arith) in
    (e.0, e.3)

-- The one object that a source of this firmware offers, and the request for it.
abbrev pub offered : ℕ
offered = get_or pd_src_pdo 0 0

abbrev pub asked : ℕ
asked = (request_of 0 offered).0

offered_type : (pdo_type offered == pdo_type_battery) ≡ false
unfolding pd_src_pdo pdo_type
offered_type = refl

served : is_success (pd_check_requested_voltage asked) ≡ true
unfolding pd_check_requested_voltage
served =
    ap is_success
      (request-accepted pd_src_pdo pd_src_pdo_cnt 0 (omega arith) (omega arith) offered_type)

asked_pos : rdo_pos asked ≡ 1
asked_pos = (request-fields 0 offered (omega arith) offered_type).0

accepted_stays : (last : PdState) → closes_rx last src_accepted ≡ false
unfolding closes_rx same_state index
accepted_stays last = ground arith

ready_stays : (last : PdState) → closes_rx last src_ready ≡ false
unfolding closes_rx same_state index
ready_stays last = ground arith

-- What a sink stores of the offer.
pub stored_offer :
    (table : List ℕ) → 0 < length table → get_or (store_caps 1 0 pd_src_pdo table) 0 0 ≡ offered
unfolding store_caps pd_src_pdo
stored_offer table h = get_or-set_self table 0 offered 0 h

module _ {S : Type 0} (drv : TcpmDrv S) where
  -- A source that has offered its capabilities takes the request for its object.
  pub request_taken :
      (w : Port S)
      → w.power_role ≡ source
      → w.tx_status ≡ TxStatus.success
      → let v = on_request drv 1 (asked ∷ []) w in
        (v.task_state ≡ src_accepted)
        × (v.requested_idx ≡ 1)
        × (has_flag v Flags.explicit_contract ≡ true)
        × (v.tcpc ≡ (drv.transmit sop (port_header Ctrl.accept 0 w) [] w.tcpc).0)
        × (v.last_state ≡ w.last_state)
        × (v.power_role ≡ source)
  unfolding on_request send_control pd_transmit set_flag has_flag
  request_taken w hr ht =
      let r = send_control drv Ctrl.accept w in
      let u : Port S = record (set_flag Flags.explicit_contract r.0) {
        requested_idx = rdo_pos asked;
      } in
      let serves : (is_source w.power_role
            && 1 == 1
            && is_success (pd_check_requested_voltage asked))
          ≡ true =
        rw (hr, served) refl in
      let m : on_request drv 1 (asked ∷ []) w ≡ set_state drv src_accepted u =
        taken (is_source w.power_role && 1 == 1 && is_success (pd_check_requested_voltage asked))
          (if is_neg (tx_result w.tx_status) then r.0 else set_state drv src_accepted u)
          (reject_request drv w) serves
        ∙ not_taken (is_neg (tx_result w.tx_status)) r.0 (set_state drv src_accepted u)
            (ap (λ s. is_neg (tx_result s)) ht) in
      rw (m, set_state_stays drv src_accepted u (accepted_stays w.task_state))
        (refl, asked_pos, contract_set w.flags, refl, refl, hr)

  -- The message that tells the sink that the power is there.
  pub power_ready :
      (w : Port S)
      → w.tx_status ≡ TxStatus.success
      → let v = run_src_transition drv w in
        (v.task_state ≡ src_ready)
        × (v.tcpc ≡ (drv.transmit sop (port_header Ctrl.ps_rdy 0 w) [] w.tcpc).0)
        × (v.flags ≡ w.flags)
        × (v.requested_idx ≡ w.requested_idx)
        × (v.power_role ≡ w.power_role)
  unfolding run_src_transition send_control pd_transmit set_wake
  power_ready w ht =
      let r = send_control drv Ctrl.ps_rdy w in
      let u = set_wake 10000 r.0 in
      let m : run_src_transition drv w ≡ set_state drv src_ready u =
        not_taken (is_neg (tx_result w.tx_status)) (set_state drv src_disconnected r.0)
          (set_state drv src_ready u) (ap (λ s. is_neg (tx_result s)) ht) in
      rw (m, set_state_stays drv src_ready u (ready_stays w.task_state))
        (refl, refl, refl, refl, refl)

  pub source_connected :
      (w : Port S) → w.power_role ≡ source → w.task_state ≡ src_negociate → pd_is_connected w ≡ true
  unfolding pd_is_connected in_state same_state index
  source_connected w hr h = rw (hr, h) (ground arith)

  negociate_stays : (last : PdState) → closes_rx last src_negociate ≡ false
  unfolding closes_rx same_state index
  negociate_stays last = ground arith

  -- The offer of a source in SRC_DISCOVERY.
  pub offers :
      (w : Port S)
      → w.power_role ≡ source
      → w.tx_status ≡ TxStatus.success
      → ltb w.caps_count 50 ≡ true
      → let v = run_src_discovery drv w in
        (v.task_state ≡ src_negociate)
        × (v.power_role ≡ source)
        × (v.tx_status ≡ TxStatus.success)
        × (v.tcpc
            ≡ (drv.transmit sop
                (port_header DataMsg.source_cap pd_src_pdo_cnt w)
                pd_src_pdo
                w.tcpc).0)
  unfolding run_src_discovery send_source_cap pd_transmit set_flag set_wake start_timer
      set_state_timeout read_time port_header
  offers w hr ht hc =
      let limit = if ltb w.hard_reset_count 2 then hard_reset_send else src_disconnected in
      let sent = λ (x : Port S). (send_source_cap drv x).0 in
      let ok : is_neg (tx_result w.tx_status) ≡ false = ap (λ s. is_neg (tx_result s)) ht in
      elim (Bool-cases (entered w && has_flag w Flags.previous_pd_conn)) [
        | inl e ↦
            (let x = start_timer (msec 5500) limit w in
              rw
                (
                  e,
                  hc,
                  ok,
                  set_state_stays drv src_negociate (sent x) (negociate_stays x.task_state),
                )
                (refl, hr, ht, refl))
        | inr e ↦
            rw
              (e, hc, ok, set_state_stays drv src_negociate (sent w) (negociate_stays w.task_state))
              (refl, hr, ht, refl)
      ]

  -- The source's side of a negotiation, step by step: it has sent its offer in SRC_DISCOVERY, has
  -- taken the request and sent ACCEPT, has waited in SRC_ACCEPTED, and in SRC_POWERED. The completion
  -- of a transmission is `pd_transmit_complete`.
  abbrev pub after_offer : Port S → Port S
  after_offer w = record (pd_transmit_complete TxStatus.success (run_src_discovery drv w)) {
    last_state = src_discovery;
  }

  abbrev pub after_request : ℕ → Port S → Port S
  after_request request w =
      pd_transmit_complete TxStatus.success (handle_request drv request (asked ∷ []) w)

  abbrev pub after_accepted : Clock → Port S → Port S
  after_accepted later w =
      check_timeout drv
        (record (run_src_accepted drv w) { last_state = src_accepted; clock = later })

  abbrev pub after_powered : Clock → Port S → Port S
  after_powered later w =
      check_timeout drv (record (run_src_powered drv w) { last_state = src_powered; clock = later })

  pub complete_fields :
      (w : Port S)
      → let v = pd_transmit_complete TxStatus.success w in
        (v.msg_id < 8)
        × (v.tx_status ≡ TxStatus.success)
        × (v.task_state ≡ w.task_state)
        × (v.power_role ≡ w.power_role)
        × (v.tcpc ≡ w.tcpc)
        × (v.flags ≡ w.flags)
        × (v.requested_idx ≡ w.requested_idx)
        × (v.last_state ≡ w.last_state)
  unfolding pd_transmit_complete inc_id
  complete_fields w =
      (omega (arith, bit_and_mask 3 (w.msg_id + 1)), refl, refl, refl, refl, refl, refl, refl)

  -- From SRC_ACCEPTED to SRC_TRANSITION.
  pub comes_to_transition :
      (w : Port S) (l1 l2 : Clock)
      → w.task_state ≡ src_accepted
      → w.last_state ≡ src_discovery
      → (read_time w).1 + msec 35 ≤ clock_time l1
      → (read_time (after_accepted l1 w)).1 + msec 10 ≤ clock_time l2
      → let v = after_powered l2 (after_accepted l1 w) in
        (v.task_state ≡ src_transition) × Same drv v w
  unfolding run_src_accepted run_src_powered same_state index closes_rx
  comes_to_transition w l1 l2 hs hl d1 d2 =
      let a =
        timed_out drv (msec 35) src_accepted src_powered l1 w
          (newly drv w src_discovery src_accepted hl hs refl) hs refl (omega arith) d1 in
      let u = after_accepted l1 w in
      let b =
        timed_out drv 10000 src_powered src_transition l2 u
          (newly drv u src_accepted src_powered a.1 a.0 refl) a.0 refl (omega arith) d2 in
      (b.0, Same-trans drv (after_powered l2 u) u w b.2 a.2)
