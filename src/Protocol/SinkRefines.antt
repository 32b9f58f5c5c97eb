-- ===== src/Protocol/SinkRefines.antt =====
-- NOA_ESP32_PD/usb_pd_protocol.cpp: the steps of the sink's policy that the control messages take.
pub mod Received
use noa_esp32_pd.Base.{
  not_taken, ℕ, ◌==◌, ◌||◌, ◌&&◌, not, Bool, true, false, Bool-cases, inl, inr, if◌then◌else◌, ◌≡◌,
  ◌≢◌, refl, sym, subst, ap, ◌∙◌, List, [], ◌∷◌, get_or, arith,
}
use noa_esp32_pd.Message.Header.{header_type, header_cnt}
use noa_esp32_pd.Message.Types.Ctrl
use noa_esp32_pd.Message.Types.DataMsg
use noa_esp32_pd.Protocol.Port.{
  PdState, PowerRole, sink, source, TcpmDrv, Port, disabled, snk_discovery, snk_requested,
  snk_transition, snk_ready, snk_disconnected, src_ready, src_get_sink_cap, soft_reset,
  hard_reset_send,
}
use noa_esp32_pd.Protocol.Core.{
  in_state, same_state, index, set_state, dual_role_if_else, start_timer, set_state_timeout,
  read_time, has_flag, clear_flag, set_flag,
}
use noa_esp32_pd.Protocol.Flags
use noa_esp32_pd.Protocol.Reset.{execute_soft_reset}
use noa_esp32_pd.Protocol.Transmit.{pd_transmit, send_control, send_source_cap, send_sink_cap}
use noa_esp32_pd.Board.{pd_check_power_swap, pd_check_data_swap}
use noa_esp32_pd.Protocol.SameState.{same_state-eq, same_state-ne}
use noa_esp32_pd.Protocol.StateChange.{set_state_lem}
use noa_esp32_pd.Protocol.SinkOnly.{is_sink_side, same_state-false, IsSinkPort}
use noa_esp32_pd.Protocol.Control.{
  on_ps_rdy, on_refused, request_refused, on_accept, on_get_source_cap, on_pr_swap, on_dr_swap,
  handle_ctrl_request, handle_request,
}
use noa_esp32_pd.Base.Int.{is_neg}
use noa_esp32_pd.Protocol.SinkPolicy.{Input, ctrl_input, data_input, must_act, SinkStep}

pub and_false : (a b : Bool) → b ≡ false → (a && b) ≡ false
and_false true b e = e
and_false false b e = refl

pub and_first : (a b : Bool) → a ≡ false → (a && b) ≡ false
and_first true b e = ground arith
and_first false b e = refl

and_not : (a b : Bool) → b ≡ true → (a && not b) ≡ false
and_not true b e = rw (e) refl
and_not false b e = refl

or_false : (a b : Bool) → a ≡ false → b ≡ false → (a || b) ≡ false
or_false true b e f = e
or_false false b e f = f

other_ctrl :
    (t : ℕ)
    → (t == Ctrl.accept) ≡ false
    → (t == Ctrl.reject) ≡ false
    → (t == Ctrl.wait) ≡ false
    → (t == Ctrl.ps_rdy) ≡ false
    → (t == Ctrl.soft_reset) ≡ false
    → ctrl_input t ≡ Input.others
other_ctrl t a r d p s = rw (a, r, d, p, s) refl

module _ {S : Type 0} (drv : TcpmDrv S) where
  pub moved :
      {c : Bool} {i : Input} {s : PdState} (next : PdState) (u : Port S)
      → SinkStep c i s next
      → SinkStep c i s (set_state drv next u).task_state
  moved next u h = rw (set_state_lem drv next u) h

  pub branch :
      {c : Bool} {i : Input} {s : PdState} (b : Bool) (x y : Port S)
      → ((b ≡ true) → SinkStep c i s x.task_state)
      → ((b ≡ false) → SinkStep c i s y.task_state)
      → SinkStep c i s (if b then x else y).task_state
  branch true x y h k = h refl
  branch false x y h k = k refl

  -- A branch for a state that the port is never in.
  pub skip :
      {c : Bool} {i : Input} {s : PdState} (b : Bool) (x y : Port S)
      → b ≡ false
      → SinkStep c i s y.task_state
      → SinkStep c i s (if b then x else y).task_state
  skip b x y e h = rw (e) h

  as_sink :
      {c : Bool} {i : Input} {s : PdState} (r : PowerRole) (x y : Port S)
      → r ≡ sink
      → SinkStep c i s x.task_state
      → SinkStep c i s (dual_role_if_else r x y).task_state
  as_sink r x y e h = rw (e) h

  -- A step from the state that a test has found.
  pub found :
      {c : Bool} {i : Input} (w : Port S) (s t : PdState)
      → SinkStep c i s t
      → in_state w s ≡ true
      → SinkStep c i w.task_state t
  unfolding in_state
  found {c} {i} w s t h e = subst (λ x. SinkStep c i x t) (sym (same_state-eq w.task_state s e)) h

  soft_reset_to :
      {c : Bool} {i : Input} {s : PdState} (u : Port S)
      → u.power_role ≡ sink
      → SinkStep c i s snk_discovery
      → SinkStep c i s (execute_soft_reset drv u).task_state
  unfolding execute_soft_reset
  soft_reset_to u hr h =
      rw
        (
          set_state_lem drv (dual_role_if_else u.power_role snk_discovery PdState.src_discovery)
              (record u { msg_id = 0 }),
          hr,
        )
        h

  module _ (w : Port S) (hr : w.power_role ≡ sink) (hs : is_sink_side w.task_state ≡ true) where
    pub never : (s : PdState) → is_sink_side s ≡ false → in_state w s ≡ false
    unfolding in_state
    never s h = same_state-false w.task_state s hs h

    ps_rdy_step :
        SinkStep
          (has_flag w Flags.explicit_contract)
          Input.power_ready
          w.task_state
          (on_ps_rdy drv w).task_state
    unfolding on_ps_rdy is_sink_side index in_state
    ps_rdy_step =
        skip (in_state w PdState.snk_swap_src_disable) _ _ (never PdState.snk_swap_src_disable refl)
          (skip (in_state w PdState.src_swap_standby) _ _ (never PdState.src_swap_standby refl) (
            branch (in_state w snk_discovery) _ _
              (λ e.
                moved hard_reset_send w
                  (found w snk_discovery hard_reset_send SinkStep.too_early e))
              (λ e.
                skip (in_state w PdState.snk_swap_standby) _ _ (never PdState.snk_swap_standby refl)
                  (as_sink w.power_role _ _ hr (
                    moved snk_ready w (
                      SinkStep.is_ready w.task_state
                        (same_state-ne w.task_state snk_discovery e)))))))

    pub kept :
        (i : Input) (v : Port S)
        → must_act i (has_flag w Flags.explicit_contract) w.task_state ≡ false
        → v.task_state ≡ w.task_state
        → SinkStep (has_flag w Flags.explicit_contract) i w.task_state v.task_state
    kept i v h e =
        subst (λ s. SinkStep (has_flag w Flags.explicit_contract) i w.task_state s) (sym e)
          (SinkStep.ignored i w.task_state h)

    refused_step :
        SinkStep
          (has_flag w Flags.explicit_contract)
          Input.refused
          w.task_state
          (on_refused drv false w).task_state
    unfolding on_refused request_refused is_sink_side index in_state
    refused_step = skip (in_state w PdState.dr_swap) _ _ (never PdState.dr_swap refl) (
        skip (in_state w PdState.src_swap_init) _ _ (never PdState.src_swap_init refl) (
          skip (in_state w PdState.snk_swap_init) _ _ (never PdState.snk_swap_init refl) (
            branch (in_state w snk_requested) _ _
              (λ e.
                branch (has_flag w Flags.explicit_contract) _ _
                  (λ g.
                    moved snk_ready w (found w snk_requested snk_ready (SinkStep.keeps_power g) e))
                  (λ g.
                    moved snk_discovery w
                      (found w snk_requested snk_discovery (SinkStep.gets_none g) e)))
              (λ e. kept Input.refused w e refl))))

    deferred_step :
        SinkStep
          (has_flag w Flags.explicit_contract)
          Input.deferred
          w.task_state
          (on_refused drv true w).task_state
    unfolding on_refused request_refused is_sink_side index in_state start_timer set_state_timeout
        read_time
    deferred_step = skip (in_state w PdState.dr_swap) _ _ (never PdState.dr_swap refl) (
        skip (in_state w PdState.src_swap_init) _ _ (never PdState.src_swap_init refl) (
          skip (in_state w PdState.snk_swap_init) _ _ (never PdState.snk_swap_init refl) (
            branch (in_state w snk_requested) _ _
              (λ e.
                branch (has_flag w Flags.explicit_contract) _ _
                  (λ g.
                    SinkStep.ignored Input.deferred w.task_state
                      (and_not (in_state w snk_requested) (has_flag w Flags.explicit_contract) g))
                  (λ g.
                    moved snk_discovery w
                      (found w snk_requested snk_discovery (SinkStep.starts_again g) e)))
              (λ e.
                kept Input.deferred w
                  (and_first (in_state w snk_requested) (not (has_flag w Flags.explicit_contract))
                    e)
                  refl))))

    accept_step :
        SinkStep
          (has_flag w Flags.explicit_contract)
          Input.accepted
          w.task_state
          (on_accept drv w).task_state
    unfolding on_accept clear_flag is_sink_side index in_state
    accept_step =
        branch (in_state w soft_reset) _ _
          (λ e.
            soft_reset_to (clear_flag Flags.vbus_never_low w) hr
              (found w soft_reset snk_discovery SinkStep.is_reset e))
          (λ r. skip (in_state w PdState.dr_swap) _ _ (never PdState.dr_swap refl) (
            skip (in_state w PdState.src_swap_init) _ _ (never PdState.src_swap_init refl) (
              skip (in_state w PdState.snk_swap_init) _ _ (never PdState.snk_swap_init refl) (
                branch (in_state w snk_requested) _ _
                  (λ e.
                    moved snk_transition (set_flag Flags.explicit_contract w)
                      (found w snk_requested snk_transition SinkStep.goes_over e))
                  (λ e.
                    kept Input.accepted w
                      (or_false (in_state w soft_reset) (in_state w snk_requested) r e) refl)))))

    reset_step :
        SinkStep
          (has_flag w Flags.explicit_contract)
          Input.reset_request
          w.task_state
          (send_control drv Ctrl.accept (execute_soft_reset drv w)).0.task_state
    unfolding send_control pd_transmit
    reset_step = soft_reset_to w hr (SinkStep.resets w.task_state)

    get_source_cap_kept : (on_get_source_cap drv w).task_state ≡ w.task_state
    unfolding on_get_source_cap send_source_cap pd_transmit is_sink_side index in_state
    get_source_cap_kept =
        let r = send_source_cap drv w in
        ap {A = Port S} (λ v. v.task_state)
          (not_taken (not (is_neg r.1) && in_state r.0 PdState.src_discovery) _ _ (
            and_false (not (is_neg r.1)) (in_state r.0 PdState.src_discovery)
              (never PdState.src_discovery refl)))

    pr_swap_kept : (on_pr_swap drv w).task_state ≡ w.task_state
    unfolding on_pr_swap pd_check_power_swap send_control pd_transmit
    pr_swap_kept = refl

    dr_swap_kept : (on_dr_swap drv w).task_state ≡ w.task_state
    unfolding on_dr_swap pd_check_data_swap send_control pd_transmit
    dr_swap_kept = refl

    sink_cap_kept : (send_sink_cap drv w).task_state ≡ w.task_state
    unfolding send_sink_cap pd_transmit
    sink_cap_kept = refl

    vconn_swap_kept : (send_control drv Ctrl.reject w).0.task_state ≡ w.task_state
    unfolding send_control pd_transmit
    vconn_swap_kept = refl

    -- A branch for the messages of one type.
    pub of_type :
        (input : ℕ → Input) (type k : ℕ) (x y : Port S)
        → SinkStep (has_flag w Flags.explicit_contract) (input k) w.task_state x.task_state
        → ((type == k) ≡ false
            → SinkStep (has_flag w Flags.explicit_contract) (input type) w.task_state y.task_state)
        → SinkStep
            (has_flag w Flags.explicit_contract)
            (input type)
            w.task_state
            (if type == k then x else y).task_state
    of_type input type k x y h m =
        branch (type == k) x y
          (λ e.
            let d : k ≡ type = ground arith in
            subst
              (λ t.
                SinkStep (has_flag w Flags.explicit_contract) (input t) w.task_state x.task_state)
              d h)
          m

    pub ctrl_step :
        (head : ℕ)
        → SinkStep
            (has_flag w Flags.explicit_contract)
            (ctrl_input (header_type head))
            w.task_state
            (handle_ctrl_request drv head w).task_state
    unfolding handle_ctrl_request
    ctrl_step head =
        let t = header_type head in
        let i = ctrl_input in
        of_type i t Ctrl.get_source_cap _ _
          (kept _ (on_get_source_cap drv w) refl get_source_cap_kept)
          (λ _.
            of_type i t Ctrl.get_sink_cap _ _ (kept _ (send_sink_cap drv w) refl sink_cap_kept)
              (λ _. of_type i t Ctrl.ps_rdy _ _ ps_rdy_step (λ p.
                of_type i t Ctrl.reject _ _ refused_step (λ r.
                  of_type i t Ctrl.wait _ _ deferred_step (λ d.
                    of_type i t Ctrl.accept _ _ accept_step (λ a.
                      of_type i t Ctrl.soft_reset _ _ reset_step (λ s.
                        of_type i t Ctrl.pr_swap _ _ (kept _ (on_pr_swap drv w) refl pr_swap_kept)
                          (λ _.
                            of_type i t Ctrl.dr_swap _ _
                              (kept _ (on_dr_swap drv w) refl dr_swap_kept)
                              (λ _.
                                of_type i t Ctrl.vconn_swap _ _
                                  (kept _ (send_control drv Ctrl.reject w).0 refl vconn_swap_kept)
                                  (λ _.
                                    kept (i t) w
                                      (ap
                                        (λ x.
                                          must_act x (has_flag w Flags.explicit_contract)
                                            w.task_state)
                                        (other_ctrl t a r d p s))
                                      refl))))))))))
