-- ===== src/Protocol/Silence/Quiet.antt =====
-- NOA_ESP32_PD/usb_pd_protocol.cpp: a run of `pd_run_state_machine` for a sink that gets no message.
use noa_esp32_pd.Base.{
  ℕ, ◌+◌, ◌≤◌, ◌<◌, leb, ◌==◌, ◌||◌, not, Bool, true, false, Bool-cases, inl, inr, if◌then◌else◌,
  ◌≡◌, refl, sym, ap, subst, ◌∙◌, List, arith,
}
use noa_esp32_pd.Base.Bits.{has}
use noa_esp32_pd.Board.Clock.{get_time}
use noa_esp32_pd.Board.{pd_board_checks}
use noa_esp32_pd.Fusb302.Alert.{TxStatus}
use noa_esp32_pd.Fusb302.Frame.{hard_reset, nothing}
use noa_esp32_pd.Protocol.Port.{PdState, PowerRole, sink, VdmState, TcpmDrv, Port, Clock}
use noa_esp32_pd.Protocol.Core.{
  msec, set_state, set_wake, read_time, pd_is_connected, pd_is_power_swapping,
}
use noa_esp32_pd.Protocol.Vdm.{pd_vdm_send_state_machine, vdm_step}
use noa_esp32_pd.Protocol.Sink
use noa_esp32_pd.Protocol.Run.{
  run_state, check_timeout, check_disconnect, sink_disconnect, before_switch, on_events, receive,
  on_received, pd_run_state_machine,
}
use noa_esp32_pd.Protocol.StateChange.{set_state_lem, closes_rx}

-- The `i`-th time read from a clock, counted from its next.
unfoldable pub time_at : Clock → ℕ → ℕ
unfolding get_time
time_at k i = get_time (k.millis (k.calls + i)) (k.micros (k.calls + i))

abbrev pub later : Clock → ℕ → Clock
later k i = record k { calls = k.calls + i }

abbrev pub Surroundings : Type 0
Surroundings = PowerRole × TxStatus × VdmState × ℕ × Bool

abbrev pub tick : Clock → Clock
tick k = record k { calls = k.calls + 1 }

-- What the runs below do not change.
unfoldable pub surroundings : {S : Type 0} → Port S → Surroundings
surroundings w = (w.power_role, w.tx_status, w.vdm_state, w.evt, w.req_suspend_state)

abbrev pub calm : Surroundings
calm = (sink, TxStatus.success, VdmState.vdm_done, 0, false)

-- A count of the hard resets that a driver has been told to transmit.
pub record HardResetLog {S : Type 0} (drv : TcpmDrv S) : Type 0 where
  pub sent : S → ℕ
  pub transmitted :
      (header : ℕ) (data' : List ℕ) (s : S)
      → sent (drv.transmit hard_reset header data' s).0 ≡ sent s + 1
  pub heard : (s : S) → sent (drv.get_message s).0 ≡ sent s
  pub enabled : (on : Bool) (s : S) → sent (drv.set_rx_enable on s).0 ≡ sent s
  pub looked : (cc1 cc2 : ℕ) (s : S) → sent (drv.get_cc cc1 cc2 s).0 ≡ sent s

-- A sink before a run: its state, the state of the run before, the number of its hard resets,
-- counted and sent, and its clock.
abbrev pub At : {S : Type 0} → (S → ℕ) → PdState → PdState → ℕ → Clock → Port S → Type 0
At sent s last n k w =
    (w.task_state ≡ s)
    × (w.last_state ≡ last)
    × (surroundings w ≡ calm)
    × ((w.hard_reset_count ≡ n) × (sent w.tcpc ≡ n))
    × (w.clock ≡ k)

-- What a state's case left: the port in a state, its timer and where that leads.
abbrev pub Left : {S : Type 0} → (S → ℕ) → PdState → ℕ → PdState → ℕ → Clock → Port S → Type 0
Left sent s timer t n k v =
    (v.task_state ≡ s)
    × (v.state_timeout ≡ timer)
    × (v.timeout_state ≡ t)
    × (surroundings v ≡ calm)
    × ((v.hard_reset_count ≡ n) × (sent v.tcpc ≡ n))
    × (v.clock ≡ k)

module _ {S : Type 0} (drv : TcpmDrv S) (silent : (s : S) → (drv.get_message s).1 ≡ nothing)
    (log : HardResetLog drv) where
  -- A sink always has VBUS, so it is never taken for disconnected.
  stays_connected : (w : Port S) → w.power_role ≡ sink → check_disconnect drv w ≡ w
  unfolding check_disconnect sink_disconnect Sink.pd_is_vbus_present
  stays_connected w h = elim (Bool-cases (not (pd_is_connected w) || pd_is_power_swapping w)) [
    | inl e ↦ rw (e, h) refl
    | inr e ↦ rw (e, h) refl
  ]

  vdm_quiet : (w : Port S) → w.vdm_state ≡ VdmState.vdm_done → pd_vdm_send_state_machine drv w ≡ w
  unfolding pd_vdm_send_state_machine vdm_step
  vdm_quiet w h = ap (λ t. vdm_step drv t w) h

  events_quiet : (w : Port S) → w.evt ≡ 0 → on_events drv w ≡ record w { incoming_packet = false }
  unfolding on_events has
  events_quiet w h = rw (h) refl

  receive_quiet : (w : Port S) → receive drv w ≡ record w { tcpc = (drv.get_message w.tcpc).0 }
  unfolding receive on_received
  receive_quiet w =
      ap (λ r. on_received drv r (record w { tcpc = (drv.get_message w.tcpc).0 })) (silent w.tcpc)

  abbrev pub listened : Port S → Port S
  listened w = record w { tcpc = (drv.get_message w.tcpc).0; incoming_packet = false }

  before_quiet : (w : Port S) → surroundings w ≡ calm → before_switch drv false w ≡ listened w
  unfolding before_switch surroundings pd_board_checks
  before_quiet w h =
      let hs : w.req_suspend_state ≡ false = ap (λ t. t.4) h in
      let v = record w { incoming_packet = false } in
      let finish : Port S → Port S =
        λ u. if u.req_suspend_state then set_state drv PdState.suspended u else u in
      ap (λ u. finish (receive drv (on_events drv u))) (vdm_quiet w (ap (λ t. t.2) h))
      ∙ ap (λ u. finish (receive drv u)) (events_quiet w (ap (λ t. t.3) h))
      ∙ ap finish (receive_quiet v)
      ∙ ap (λ b. if b then set_state drv PdState.suspended (listened w) else listened w) hs

  -- The run of a state, up to its timer.
  abbrev pub switched : PdState → Port S → Port S
  switched s w = run_state drv s (set_wake (msec 500) (listened w))

  -- A run that no message reaches: the switch and the timer.
  quiet_run :
      (s : PdState) (w : Port S)
      → w.task_state ≡ s
      → surroundings w ≡ calm
      → (check_timeout drv (record (switched s w) { last_state = s })).power_role ≡ sink
      → pd_run_state_machine drv false w
        ≡ check_timeout drv (record (switched s w) { last_state = s })
  unfolding pd_run_state_machine set_wake
  quiet_run s w hs h hp =
      let run : Port S → Port S = λ v. check_disconnect drv (
        check_timeout drv (record (run_state drv v.task_state (set_wake (msec 500) v)) {
          last_state = v.task_state;
        })) in
      ap run (before_quiet w h)
      ∙ ap
          (λ t. check_disconnect drv (check_timeout drv (record (switched t w) { last_state = t })))
          hs
      ∙ stays_connected (check_timeout drv (record (switched s w) { last_state = s })) hp

  expires :
      (s t last : PdState) (timer n i : ℕ) (k : Clock) (v : Port S)
      → Left log.sent s timer t n (later k i) v
      → 0 < timer
      → timer ≤ time_at k i
      → At log.sent t last n (later k (i + 1)) (check_timeout drv (record v { last_state = last }))
  unfolding check_timeout read_time set_wake time_at surroundings
  expires s t last timer n i k v (a, b, c, d, e, f) g late =
      let now = (read_time v).1 in
      let e1 : (v.state_timeout == 0) ≡ false = ground arith in
      let due : v.state_timeout ≤ now = rw (f, b) late in
      let e2 : leb v.state_timeout now ≡ true = ground arith in
      let m : k.calls + i + 1 ≡ k.calls + (i + 1) = omega arith in
      let u = record (read_time v).0 { last_state = last } in
      let off : log.sent (
            if closes_rx v.task_state v.timeout_state
            then (drv.set_rx_enable false v.tcpc).0
            else v.tcpc)
          ≡ n =
        elim (Bool-cases (closes_rx v.task_state v.timeout_state)) [
          | inl o ↦ rw (o) (log.enabled false v.tcpc ∙ e.1)
          | inr o ↦ rw (o) e.1
        ] in
      rw (e1, e2, set_state_lem drv v.timeout_state u)
        (c, refl, d, (e.0, off), ap tick f ∙ ap (λ j. record k { calls = j }) m)

  stays :
      (s t last : PdState) (n i : ℕ) (k : Clock) (v : Port S)
      → Left log.sent s 0 t n (later k i) v
      → At log.sent s last n (later k (i + 1)) (check_timeout drv (record v { last_state = last }))
  unfolding check_timeout read_time surroundings
  stays s t last n i k v (a, b, c, d, e, f) =
      let m : k.calls + i + 1 ≡ k.calls + (i + 1) = omega arith in
      rw (b) (a, refl, d, e, ap tick f ∙ ap (λ j. record k { calls = j }) m)

  -- A run of a state whose case left a timer that is over, and of one that left none.
  pub run_expires :
      (s left t last : PdState) (timer n m i : ℕ) (k : Clock) (w : Port S)
      → At log.sent s last n (later k i) w
      → Left log.sent left timer t m (later k (i + 1)) (switched s w)
      → 0 < timer
      → timer ≤ time_at k (i + 1)
      → At log.sent t s m (later k (i + 1 + 1)) (pd_run_state_machine drv false w)
  unfolding surroundings
  run_expires s left t last timer n m i k w (a, b, c, d, e) h g late =
      let r = expires left t s timer m (i + 1) k (switched s w) h g late in
      subst (λ u. At log.sent t s m (later k (i + 1 + 1)) u)
        (sym (quiet_run s w a c (ap (λ x. x.0) r.2))) r

  pub run_stays :
      (s left t last : PdState) (n m i : ℕ) (k : Clock) (w : Port S)
      → At log.sent s last n (later k i) w
      → Left log.sent left 0 t m (later k i) (switched s w)
      → At log.sent left s m (later k (i + 1)) (pd_run_state_machine drv false w)
  unfolding surroundings
  run_stays s left t last n m i k w (a, b, c, d, e) h =
      let r = stays left t s m i k (switched s w) h in
      subst (λ u. At log.sent left s m (later k (i + 1)) u)
        (sym (quiet_run s w a c (ap (λ x. x.0) r.2))) r

  -- What a run is given: the port before its switch.
  pub ready :
      (s last : PdState) (n : ℕ) (k : Clock) (w : Port S)
      → At log.sent s last n k w
      → At log.sent s last n k (set_wake (msec 500) (listened w))
  unfolding set_wake surroundings
  ready s last n k w (a, b, c, d, e) = (a, b, c, (d.0, log.heard w.tcpc ∙ d.1), e)
