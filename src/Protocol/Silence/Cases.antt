-- ===== src/Protocol/Silence/Cases.antt =====
-- NOA_ESP32_PD/usb_pd_protocol.cpp: the cases of a sink that waits in vain, on their entry.
use noa_esp32_pd.Base.{
  Bool, not, ℕ, ◌+◌, ◌<◌, ltb, ◌==◌, ◌&&◌, ◌||◌, true, false, Bool-cases, inl, inr, if◌then◌else◌,
  ◌≡◌, refl, sym, ap, subst, ◌∙◌, [], arith,
}
use noa_esp32_pd.Board.Clock.{get_time}
use noa_esp32_pd.Fusb302.Frame.{hard_reset}
use noa_esp32_pd.Protocol.Flags
use noa_esp32_pd.Protocol.Port.{
  PdState, sink, TcpmDrv, Port, Clock, snk_discovery, snk_hard_reset_recover, hard_reset_send,
  hard_reset_execute, disabled,
}
use noa_esp32_pd.Protocol.Core.{
  msec, set_state, set_wake, read_time, entered, same_state, index, has_flag, set_flag, clear_flag,
  start_timer, set_state_timeout, tcpm_get_cc, in_state, dual_role_if_else,
}
use noa_esp32_pd.Protocol.Transmit.{pd_transmit, tx_result}
use noa_esp32_pd.Protocol.CcLines.{get_typec_current_limit}
use noa_esp32_pd.Protocol.Reset.{pd_execute_hard_reset, reset_by_role}
use noa_esp32_pd.Base.Int.{is_neg}
use noa_esp32_pd.Protocol.Sink
use noa_esp32_pd.Protocol.Swap
use noa_esp32_pd.Protocol.StateChange.{set_state_stays, closes_rx}
use noa_esp32_pd.Protocol.Silence.Quiet.{
  time_at, later, tick, surroundings, calm, HardResetLog, At, Left,
}

module _ {S : Type 0} (drv : TcpmDrv S) (log : HardResetLog drv) where
  -- What the watch on the Type-C current leaves alone.
  pub watch_keeps :
      (s t : PdState) (timer n : ℕ) (k : Clock) (w : Port S)
      → Left log.sent s timer t n k w
      → Left log.sent s timer t n k (Sink.watch_current drv w)
  unfolding Sink.watch_current set_wake tcpm_get_cc surroundings
  watch_keeps s t timer n k w (a, b, c, d, e, f) =
      let v = tcpm_get_cc drv (set_wake (msec 40) w) in
      let h : Left log.sent s timer t n k v =
        (a, b, c, d, (e.0, log.looked w.cc1 w.cc2 w.tcpc ∙ e.1), f) in
      let limit = get_typec_current_limit v.polarity v.cc1 v.cc2 in
      elim (Bool-cases (v.typec_curr == limit)) [
        | inl o ↦ rw (o) h
        | inr o ↦ elim (Bool-cases v.typec_curr_change) [
          | inl g ↦ rw (o, g) h
          | inr g ↦ rw (o, g) h
        ]
      ]

  discovery_timer-Left :
      (last : PdState) (n i : ℕ) (k : Clock) (w : Port S)
      → At log.sent snk_discovery last n (later k i) w
      → has_flag w Flags.vbus_never_low ≡ false
      → n < 2
      → Left log.sent snk_discovery
          (time_at k i + msec 600)
          hard_reset_send
          n
          (later k (i + 1))
          (Sink.discovery_timer drv w)
  unfolding Sink.discovery_timer start_timer set_state_timeout read_time time_at surroundings
  discovery_timer-Left last n i k w (a, b, c, d, e) hf hn =
      let m : k.calls + i + 1 ≡ k.calls + (i + 1) = omega arith in
      let clock : tick w.clock ≡ record k { calls = k.calls + (i + 1) } =
        ap tick e ∙ ap (λ j. record k { calls = j }) m in
      let few : ltb w.hard_reset_count 2 ≡ true = ground (arith, d.0) in
      rw (hf, few)
        (
          a,
          ap (λ t. get_time (t.millis t.calls) (t.micros t.calls) + msec 600) e,
          refl,
          c,
          d,
          clock,
        )

  watched :
      (b : Bool) (s t : PdState) (timer n : ℕ) (k : Clock) (v : Port S)
      → Left log.sent s timer t n k v
      → Left log.sent s timer t n k
          (Sink.watch_current drv (if b then v else record v { typec_curr = 0 }))
  unfolding surroundings
  watched true s t timer n k v h = watch_keeps s t timer n k v h
  watched false s t timer n k v h = watch_keeps s t timer n k (record v { typec_curr = 0 }) h

  -- Entering SNK_DISCOVERY with fewer than two hard resets.
  pub discovery-Left :
      (last : PdState) (n i : ℕ) (k : Clock) (w : Port S)
      → At log.sent snk_discovery last n (later k i) w
      → same_state last snk_discovery ≡ false
      → has_flag w Flags.vbus_never_low ≡ false
      → n < 2
      → Left log.sent snk_discovery
          (time_at k i + msec 600)
          hard_reset_send
          n
          (later k (i + 1))
          (Sink.run_snk_discovery drv w)
  unfolding Sink.run_snk_discovery entered
  discovery-Left last n i k w h he hf hn =
      let entry : same_state w.last_state w.task_state ≡ false =
        ap (λ t. same_state t w.task_state) h.1 ∙ ap (λ t. same_state last t) h.0 ∙ he in
      let v = Sink.discovery_timer drv w in
      let known = same_state v.last_state PdState.snk_disconnected_debounce in
      let lost : Port S = if known then v else record v { typec_curr = 0 } in
      let m : Sink.run_snk_discovery drv w ≡ Sink.watch_current drv lost =
        ap (λ b. if not b then Sink.watch_current drv lost else Sink.watch_current drv w) entry in
      let r = discovery_timer-Left last n i k w h hf hn in
      let timer = time_at k i + msec 600 in
      subst (λ u. Left log.sent snk_discovery timer hard_reset_send n (later k (i + 1)) u) (sym m)
        (watched known snk_discovery hard_reset_send timer n (later k (i + 1)) v r)

  execute_stays : (last : PdState) → closes_rx last hard_reset_execute ≡ false
  unfolding closes_rx same_state index
  execute_stays last = ground arith

  recover_stays : (last : PdState) → closes_rx last snk_hard_reset_recover ≡ false
  unfolding closes_rx same_state index
  recover_stays last = ground arith

  woken :
      (s t : PdState) (timer n : ℕ) (k : Clock) (w : Port S)
      → Left log.sent s timer t n k w
      → Left log.sent s timer t n k (set_wake (msec 10) w)
  unfolding set_wake surroundings
  woken s t timer n k w h = h

  -- The hard reset that a sink sends goes out at once.
  sent_at_once :
      (n : ℕ) (k : Clock) (w : Port S)
      → surroundings w ≡ calm
      → (w.hard_reset_count ≡ n) × (log.sent w.tcpc + 1 ≡ n)
      → w.clock ≡ k
      → Left log.sent hard_reset_execute 0 disabled n k (Swap.send_hard_reset drv w)
  unfolding Swap.send_hard_reset pd_transmit tx_result surroundings
  sent_at_once n k w c d e =
      let v = record w { tcpc = (drv.transmit hard_reset 0 [] w.tcpc).0 } in
      let u = record v { hard_reset_sent = true } in
      let at_once = set_wake (msec 10) (set_state drv hard_reset_execute u) in
      let waits = start_timer (msec 25) hard_reset_execute u in
      let up : Port S = record u {
        task_state = hard_reset_execute;
        state_timeout = 0;
        timeout_state = disabled;
      } in
      subst (λ x. Left log.sent hard_reset_execute 0 disabled n k x)
        (sym (
          ap
            (λ t.
              if is_neg (tx_result t)
              then set_wake (msec 10) v
              else dual_role_if_else w.power_role at_once waits)
            (ap (λ t. t.1) c)
          ∙ ap (λ p. dual_role_if_else p at_once waits) (ap (λ t. t.0) c)
          ∙ ap (λ x. set_wake (msec 10) x)
              (set_state_stays drv hard_reset_execute u (execute_stays w.task_state))))
        (woken hard_reset_execute disabled 0 n k up
          (refl, refl, refl, c, (d.0, log.transmitted 0 [] w.tcpc ∙ d.1), e))

  pub sends-Left :
      (last : PdState) (n : ℕ) (k : Clock) (w : Port S)
      → At log.sent hard_reset_send last n k w
      → same_state last hard_reset_send ≡ false
      → Left log.sent hard_reset_execute 0 disabled (n + 1) k (Swap.run_hard_reset_send drv w)
  unfolding Swap.run_hard_reset_send clear_flag surroundings entered
  sends-Left last n k w (a, b, c, d, e) he =
      let x = record w { hard_reset_count = w.hard_reset_count + 1; hard_reset_sent = false } in
      let entry : same_state w.last_state w.task_state ≡ false = rw (a, b) he in
      elim (Bool-cases (
        same_state w.last_state snk_discovery
        || same_state w.last_state PdState.soft_reset && has_flag w Flags.vbus_never_low)) [
          | inl g ↦
              rw (entry, g)
                (sent_at_once (n + 1) k (clear_flag Flags.vbus_never_low x) c
                  (ap (λ j. j + 1) d.0, ap (λ j. j + 1) d.1) e)
          | inr g ↦
              rw (entry, g)
                (sent_at_once (n + 1) k x c (ap (λ j. j + 1) d.0, ap (λ j. j + 1) d.1) e)
        ]

  pub executes-Left :
      (n : ℕ) (k : Clock) (w : Port S)
      → At log.sent hard_reset_execute hard_reset_send n k w
      → Left log.sent snk_hard_reset_recover 0 disabled n k (Swap.run_hard_reset_execute drv w)
  unfolding Swap.run_hard_reset_execute pd_execute_hard_reset reset_by_role in_state set_wake
      same_state index surroundings
  executes-Left n k w (a, b, c, d, e) =
      let u = record w { msg_id = 0; last_state = hard_reset_execute } in
      let role : w.power_role ≡ sink = ap (λ t. t.0) c in
      let m : Swap.run_hard_reset_execute drv w
          ≡ set_wake (msec 10) (set_state drv snk_hard_reset_recover u) =
        rw (b, a, role) refl in
      let stays_up = set_state_stays drv snk_hard_reset_recover u (recover_stays w.task_state) in
      subst (λ v. Left log.sent snk_hard_reset_recover 0 disabled n k v)
        (sym (m ∙ ap (λ v. set_wake (msec 10) v) stays_up)) (refl, refl, refl, c, d, e)

  pub recover-Left :
      (last : PdState) (n i : ℕ) (k : Clock) (w : Port S)
      → At log.sent snk_hard_reset_recover last n (later k i) w
      → same_state last snk_hard_reset_recover ≡ false
      → Left log.sent snk_hard_reset_recover
          (time_at k i + msec 650)
          (if ltb n 2 then hard_reset_send else snk_discovery)
          n
          (later k (i + 1))
          (Sink.run_snk_hard_reset_recover drv w)
  unfolding Sink.run_snk_hard_reset_recover Sink.pd_is_vbus_present start_timer set_state_timeout
      set_flag read_time time_at surroundings entered
  recover-Left last n i k w (a, b, c, d, e) he =
      let m : k.calls + i + 1 ≡ k.calls + (i + 1) = omega arith in
      let clock : tick w.clock ≡ record k { calls = k.calls + (i + 1) } =
        ap tick e ∙ ap (λ j. record k { calls = j }) m in
      let entry : same_state w.last_state w.task_state ≡ false = rw (a, b) he in
      rw (entry) (
        a,
        ap (λ c. get_time (c.millis c.calls) (c.micros c.calls) + msec 650) e,
        ap (λ j. if ltb j 2 then hard_reset_send else snk_discovery) d.0,
        c,
        d,
        clock,
      )
