-- ===== src/Protocol/SinkRefines/Received.antt =====
-- NOA_ESP32_PD/usb_pd_protocol.cpp: `handle_request` of a sink implements the sink's policy.
use noa_esp32_pd.Base.{
  ℕ, ◌/◌, ◌^◌, ◌==◌, ◌||◌, ◌&&◌, Bool, true, false, if◌then◌else◌, ◌≡◌, refl, sym, subst, ap, ◌∙◌,
  not, arith, List, [], get_or,
}
use noa_esp32_pd.Base.Int.{ℤ, pos, is_neg}
use noa_esp32_pd.Fusb302.Frame.{bist_mode_2}
use noa_esp32_pd.Message.Header.{header_type, header_cnt}
use noa_esp32_pd.Message.Types.Ctrl
use noa_esp32_pd.Message.Types.DataMsg
use noa_esp32_pd.Policy.Request.{
  max_power, pd_build_request, pd_process_source_cap, pd_process_source_cap_callback,
  pd_check_requested_voltage,
}
use noa_esp32_pd.Protocol.Flags
use noa_esp32_pd.Protocol.Port.{
  PdState, VdmState, sink, TcpmDrv, Port, snk_discovery, snk_requested, snk_transition, snk_ready,
  snk_disconnected, src_disconnected, src_ready, src_get_sink_cap,
}
use noa_esp32_pd.Protocol.Core.{
  same_state, in_state, is_source, dual_role_if_else, set_state, set_flag, has_flag,
  pd_is_connected,
}
use noa_esp32_pd.Protocol.Transmit.{pd_transmit, send_control, send_request}
use noa_esp32_pd.Protocol.Negotiate.{
  is_success, pd_send_request_msg, on_source_cap, reject_request, on_request, on_bist, on_sink_cap,
  vdm_reply, handle_vdm_request, handle_data_request,
}
use noa_esp32_pd.Protocol.Control.{handle_ctrl_request, handle_request}
use noa_esp32_pd.Protocol.Negotiation.{update_pdo_flags_form}
use noa_esp32_pd.Protocol.StateChange.{set_state_lem}
use noa_esp32_pd.Protocol.SinkOnly.{is_sink_side}
use noa_esp32_pd.Protocol.SinkPolicy.{Input, ctrl_input, data_input, hears, must_act, SinkStep}
use noa_esp32_pd.Protocol.SinkRefines.{moved, branch, found, kept, of_type, ctrl_step}

-- A sink asks in three states.
asks_from :
    (a b c : Bool)
    → (a || b || c) ≡ true
    → (P : Type 0) → ((a ≡ true) → P)
    → ((b ≡ true) → P)
    → ((c ≡ true) → P)
    → P
asks_from true b c e P f g h = f refl
asks_from false true c e P f g h = g refl
asks_from false false true e P f g h = h refl
asks_from false false false e P f g h = ground arith

and_left : (a b : Bool) → (a && b) ≡ true → a ≡ true
and_left true b e = refl
and_left false b e = e

reply_keeps :
    {S : Type 0} (s : VdmState) (header : ℕ) (w : Port S)
    → (vdm_reply s header w).task_state ≡ w.task_state
unfolding vdm_reply
reply_keeps VdmState.vdm_busy header w = ground arith
reply_keeps _ header w = refl

deaf_by :
    (a b c : Bool)
    → (if a then false else not b && not c) ≡ false
    → (not a && not b && not c) ≡ false
deaf_by true b c e = refl
deaf_by false b c e = e

other_data :
    (t : ℕ)
    → (t == DataMsg.source_cap) ≡ false
    → (t == DataMsg.request) ≡ false
    → (t == DataMsg.bist) ≡ false
    → (t == DataMsg.sink_cap) ≡ false
    → data_input t ≡ Input.others
other_data t o r b k = rw (o, r, b, k) refl

module _ {S : Type 0} (drv : TcpmDrv S) where
  of_pair :
      (b : Bool) (r t : Port S × ℤ) (P : PdState → Type 0)
      → P r.0.task_state
      → P t.0.task_state
      → P (if b then r else t).0.task_state
  of_pair true r t P h k = h
  of_pair false r t P h k = k

  -- The request goes out, or its transmission fails and the port stays.
  request_msg_states :
      (u : Port S) (P : PdState → Type 0)
      → P u.task_state
      → P snk_requested
      → P (pd_send_request_msg drv true u).0.task_state
  unfolding pd_send_request_msg send_request pd_transmit
  request_msg_states u P h k =
      let w1 = record u { new_power_request = false } in
      let q = pd_build_request max_power w1 in
      let v = record w1 { curr_limit = q.1; supply_voltage = q.2; prev_request_mv = q.2 } in
      let r = send_request drv q.0 v in
      of_pair (is_neg r.1) r (set_state drv snk_requested r.0, pos 0) P h
        (subst P (sym (ap (λ p. p.task_state) (set_state_lem drv snk_requested r.0))) k)

  either :
      {k : Bool} {s : PdState} (c : Bool) (i j : Input) (x y : Port S)
      → SinkStep k i s x.task_state
      → SinkStep k j s y.task_state
      → SinkStep k (if c then i else j) s (if c then x else y).task_state
  either true i j x y h k = h
  either false i j x y h k = k

  module _ (w : Port S) (hr : w.power_role ≡ sink) (hs : is_sink_side w.task_state ≡ true) where
    asks :
        (in_state w snk_discovery || in_state w snk_transition || in_state w snk_ready) ≡ true
        → SinkStep (has_flag w Flags.explicit_contract) Input.offer w.task_state snk_requested
    asks e =
        asks_from (in_state w snk_discovery) (in_state w snk_transition) (in_state w snk_ready) e _
          (found drv w snk_discovery snk_requested SinkStep.asks_first)
          (found drv w snk_transition snk_requested SinkStep.asks_instead)
          (found drv w snk_ready snk_requested SinkStep.asks_anew)

    offer_step :
        (cnt : ℕ) (payload : List ℕ)
        → SinkStep
            (has_flag w Flags.explicit_contract)
            Input.offer
            w.task_state
            (on_source_cap drv cnt payload w).task_state
    unfolding on_source_cap pd_process_source_cap pd_process_source_cap_callback set_flag
    offer_step cnt payload =
        let f = update_pdo_flags_form (get_or payload 0 0) (set_flag Flags.previous_pd_conn w) in
        let u = pd_process_source_cap cnt payload (record w { flags = f.0 }) in
        let v = pd_process_source_cap_callback cnt (pd_send_request_msg drv true u).0 in
        rw (f.1) (
          branch drv (in_state w snk_discovery || in_state w snk_transition || in_state w snk_ready)
            v w
            (λ e.
              request_msg_states u
                (λ s. SinkStep (has_flag w Flags.explicit_contract) Input.offer w.task_state s)
                (SinkStep.ignored Input.offer w.task_state refl) (asks e))
            (λ _. kept drv w hr hs Input.offer w refl refl))

    request_step :
        (cnt : ℕ) (payload : List ℕ)
        → SinkStep
            (has_flag w Flags.explicit_contract)
            Input.misplaced_request
            w.task_state
            (on_request drv cnt payload w).task_state
    unfolding on_request reject_request send_control pd_transmit
    request_step cnt payload =
        let rdo = get_or payload 0 0 in
        let e : (is_source w.power_role && cnt == 1 && is_success (pd_check_requested_voltage rdo))
            ≡ false =
          rw (hr) refl in
        rw (e)
          (moved drv src_ready (send_control drv Ctrl.reject w).0 (SinkStep.strays w.task_state))

    bist_step :
        (payload : List ℕ)
        → SinkStep
            (has_flag w Flags.explicit_contract)
            Input.test
            w.task_state
            (on_bist drv payload w).task_state
    unfolding on_bist pd_transmit
    bist_step payload =
        let t = (pd_transmit drv bist_mode_2 0 [] w).0 in
        let b = get_or payload 0 0 / 2 ^ 28 == 5 in
        let s = dual_role_if_else w.power_role snk_ready src_ready in
        let n = dual_role_if_else w.power_role snk_disconnected src_disconnected in
        let h : SinkStep (has_flag w Flags.explicit_contract) Input.test s n =
          rw (hr) SinkStep.tested in
        branch drv (in_state w s && b) (set_state drv n t) w
          (λ e. moved drv n t (found drv w s n h (and_left (in_state w s) b e)))
          (λ _. kept drv w hr hs Input.test w refl refl)

    sink_cap_step :
        (payload : List ℕ)
        → SinkStep
            (has_flag w Flags.explicit_contract)
            Input.caps
            w.task_state
            (on_sink_cap drv payload w).task_state
    unfolding on_sink_cap set_flag in_state
    sink_cap_step payload =
        let f = update_pdo_flags_form (get_or payload 0 0) (set_flag Flags.snk_cap_recvd w) in
        let v = record w { flags = f.0 } in
        rw (f.1) (
          branch drv (in_state v src_get_sink_cap) (set_state drv src_ready v) v
            (λ e.
              moved drv src_ready v (found drv w src_get_sink_cap src_ready SinkStep.answered e))
            (λ e. kept drv w hr hs Input.caps v e refl))

    data_step :
        (head : ℕ) (payload : List ℕ)
        → SinkStep
            (has_flag w Flags.explicit_contract)
            (data_input (header_type head))
            w.task_state
            (handle_data_request drv head payload w).task_state
    unfolding handle_data_request handle_vdm_request
    data_step head payload =
        let t = header_type head in
        let n = header_cnt head in
        let i = data_input in
        of_type drv w hr hs i t DataMsg.source_cap _ _ (offer_step n payload) (λ o.
          of_type drv w hr hs i t DataMsg.request _ _ (request_step n payload) (λ r.
            of_type drv w hr hs i t DataMsg.bist _ _ (bist_step payload) (λ b.
              of_type drv w hr hs i t DataMsg.sink_cap _ _ (sink_cap_step payload) (λ k.
                of_type drv w hr hs i t DataMsg.vendor_def _ _
                  (kept drv w hr hs _ (handle_vdm_request (get_or payload 0 0) w) refl
                    (reply_keeps w.vdm_state (get_or payload 0 0) w))
                  (λ _.
                    kept drv w hr hs (i t) w
                      (ap (λ x. must_act x (has_flag w Flags.explicit_contract) w.task_state)
                        (other_data t o r b k))
                      refl)))))

    deaf : pd_is_connected w ≡ false → hears w.task_state ≡ false
    unfolding pd_is_connected in_state
    deaf e =
        let at = λ (s : PdState). same_state w.task_state s in
        let snk = not (at snk_disconnected) && not (at PdState.snk_disconnected_debounce) in
        let src = not (at src_disconnected) && not (at PdState.src_disconnected_debounce) in
        deaf_by (at PdState.disabled) (at snk_disconnected) (at PdState.snk_disconnected_debounce) (
          ap (λ r. if at PdState.disabled then false else dual_role_if_else r snk src) (sym hr) ∙ e)

    -- A sink that handles a message takes a step of the policy, for what the message is to it and
    -- whether it has an explicit contract: a message with data objects by its type, another by its
    -- own. The port has the sink role and is in a state of the sink side. A sink that listens ignores
    -- no ACCEPT or REJECT to its request, no WAIT without a contract, and no PS_RDY, SOFT_RESET or
    -- REQUEST.
    pub handle_request-refines :
        (head : ℕ) (payload : List ℕ)
        → SinkStep
            (has_flag w Flags.explicit_contract)
            (if header_cnt head == 0
              then ctrl_input (header_type head)
              else data_input (header_type head))
            w.task_state
            (handle_request drv head payload w).task_state
    unfolding handle_request
    handle_request-refines head payload =
        let c = header_cnt head == 0 in
        let i = ctrl_input (header_type head) in
        let j = data_input (header_type head) in
        let x = handle_ctrl_request drv head w in
        let y = handle_data_request drv head payload w in
        branch drv (pd_is_connected w) (if c then x else y) w
          (λ _. either c i j x y (ctrl_step drv w hr hs head) (data_step head payload))
          (λ e. SinkStep.unheard _ w.task_state (deaf e))
