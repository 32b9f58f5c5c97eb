-- ===== src/Protocol/EntryTimer.antt =====
-- NOA_ESP32_PD/usb_pd_protocol.cpp: a state that starts a timer on its entry, and the check of that
-- timer when it is due.
use noa_esp32_pd.Base.{not, leb, ◌+◌, ◌≤◌, ℕ, ◌<◌, ◌==◌, true, false, ◌≡◌, refl, ap, ◌∙◌, arith}
use noa_esp32_pd.Protocol.Port.{PdState, TcpmDrv, Port, Clock}
use noa_esp32_pd.Protocol.Core.{
  entered, start_timer, set_state_timeout, read_time, set_wake, same_state,
}
use noa_esp32_pd.Board.Clock.{get_time}
use noa_esp32_pd.Protocol.Sink.{timer_on_entry}
use noa_esp32_pd.Protocol.Run.{check_timeout}
use noa_esp32_pd.Protocol.StateChange.{set_state_stays, closes_rx}

-- The time that a clock gives next.
unfoldable pub clock_time : Clock → ℕ
unfolding get_time
clock_time k = get_time (k.millis k.calls) (k.micros k.calls)

module _ {S : Type 0} (drv : TcpmDrv S) where
  -- What a run of a waiting state and the check of its timer leave alone.
  abbrev pub Same : Port S → Port S → Type 0
  Same v w =
      (v.tcpc ≡ w.tcpc)
      × (v.flags ≡ w.flags)
      × (v.requested_idx ≡ w.requested_idx)
      × (v.tx_status ≡ w.tx_status)
      × (v.power_role ≡ w.power_role)
      × (v.msg_id ≡ w.msg_id)

  fires :
      (next : PdState) (v : Port S)
      → 0 < v.state_timeout
      → v.state_timeout ≤ (read_time v).1
      → v.timeout_state ≡ next
      → closes_rx v.task_state v.timeout_state ≡ false
      → let u = check_timeout drv v in
        (u.task_state ≡ next) × (u.last_state ≡ v.last_state) × Same u v
  unfolding check_timeout read_time set_wake
  fires next v h k t c =
      let r = read_time v in
      let e1 : (v.state_timeout == 0) ≡ false = ground arith in
      let e2 : leb v.state_timeout r.1 ≡ true = ground arith in
      rw (e1, e2, set_state_stays drv v.timeout_state r.0 c)
        (t, refl, (refl, refl, refl, refl, refl, refl))

  waits :
      (wait : ℕ) (s next : PdState) (later : Clock) (w : Port S)
      → entered w ≡ true
      → let v = record (timer_on_entry wait next w) { last_state = s; clock = later } in
        (v.state_timeout ≡ (read_time w).1 + wait)
        × (v.timeout_state ≡ next)
        × (v.task_state ≡ w.task_state)
        × Same v w
  unfolding timer_on_entry start_timer set_state_timeout
  waits wait s next later w he = rw (he) (refl, refl, refl, (refl, refl, refl, refl, refl, refl))

  pub Same-trans : (u v w : Port S) → Same u v → Same v w → Same u w
  Same-trans u v w (a, b, c, d, e, x) (f, g, h, i, j, y) =
      (a ∙ f, b ∙ g, c ∙ h, d ∙ i, e ∙ j, x ∙ y)

  -- The check of the timer that a state set on its entry, at a later time that is due.
  pub timed_out :
      (wait : ℕ) (s next : PdState) (later : Clock) (w : Port S)
      → entered w ≡ true
      → w.task_state ≡ s
      → closes_rx s next ≡ false
      → 0 < wait
      → (read_time w).1 + wait ≤ clock_time later
      → let v =
          check_timeout drv
            (record (timer_on_entry wait next w) { last_state = s; clock = later }) in
        (v.task_state ≡ next) × (v.last_state ≡ s) × Same v w
  unfolding read_time clock_time
  timed_out wait s next later w he hs hc hw hd =
      let v = record (timer_on_entry wait next w) { last_state = s; clock = later } in
      let h = waits wait s next later w he in
      let c : closes_rx v.task_state v.timeout_state ≡ false =
        ap (λ x. closes_rx x v.timeout_state) (h.2 ∙ hs) ∙ ap (λ x. closes_rx s x) h.1 ∙ hc in
      let r = fires next v (omega (arith, h.0, hw)) (omega (arith, h.0, hd)) h.1 c in
      (r.0, r.1, Same-trans (check_timeout drv v) v w r.2 h.3)

  pub newly :
      (w : Port S) (last s : PdState)
      → w.last_state ≡ last
      → w.task_state ≡ s
      → same_state last s ≡ false
      → entered w ≡ true
  unfolding entered
  newly w last s hl hs h =
      ap (λ x. not (same_state x w.task_state)) hl ∙ ap (λ x. not (same_state last x)) hs ∙ ap not h
