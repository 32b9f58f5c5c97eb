-- ===== src/Protocol/StateChange.antt =====
-- NOA_ESP32_PD/usb_pd_protocol.cpp: what a change of state does, and what the state timer does.
use noa_esp32_pd.Base.{
  ◌+◌, ◌-◌, ◌≤◌, ◌<◌, ltb, leb, ◌==◌, ◌&&◌, ◌||◌, not, Bool, true, false, if◌then◌else◌, ◌≡◌, refl,
  arith, Bool-cases, inl, inr, ◌⊎◌, ◌≢◌, le→leb, ◌^◌,
}
use noa_esp32_pd.Board.Clock.{get_time-lt}
use noa_esp32_pd.Protocol.Port.{
  PdState, disabled, snk_disconnected, src_disconnected, TcpmDrv, Port,
}
use noa_esp32_pd.Protocol.Core.{
  set_state, set_state_timeout, same_state, tcpm_set_rx_enable, read_time, set_wake,
}
use noa_esp32_pd.Protocol.Run.{check_timeout}

-- A change from `last` to `next` turns reception off: it enters a disconnected state and is not
-- the toggle between the two of them.
unfoldable pub closes_rx : PdState → PdState → Bool
closes_rx last next =
    not (same_state last next)
    && not (
        same_state last snk_disconnected && same_state next src_disconnected
        || same_state last src_disconnected && same_state next snk_disconnected)
    && (same_state next src_disconnected || same_state next snk_disconnected)

module _ {S : Type 0} where
  -- The four ways through the tests of `set_state`.
  by_tests :
      (same toggle disc : Bool) (v : Port S) (t : S)
      → (if same then v else if toggle then v else if disc then record v { tcpc = t } else v)
        ≡ record v { tcpc = if not same && not toggle && disc then t else v.tcpc }
  by_tests true toggle disc v t = refl
  by_tests false true disc v t = refl
  by_tests false false true v t = refl
  by_tests false false false v t = refl

module _ {S : Type 0} (drv : TcpmDrv S) where
  -- `set_state` puts the port into the state, stops the state timer, turns the reception of the
  -- chip off exactly when it enters a disconnected state other than by the toggle between the two,
  -- and changes nothing else.
  pub set_state_lem :
      (next : PdState) (w : Port S)
      → set_state drv next w ≡ record w {
        tcpc = if closes_rx w.task_state next then (drv.set_rx_enable false w.tcpc).0 else w.tcpc;
        task_state = next;
        state_timeout = 0;
        timeout_state = disabled;
      }
  unfolding set_state set_state_timeout tcpm_set_rx_enable closes_rx
  set_state_lem next w =
      let last = w.task_state in
      by_tests (same_state last next)
        (same_state last snk_disconnected && same_state next src_disconnected
          || same_state last src_disconnected && same_state next snk_disconnected)
        (same_state next src_disconnected || same_state next snk_disconnected)
        (record (set_state_timeout 0 disabled w) { task_state = next })
        (drv.set_rx_enable false w.tcpc).0

  pub set_state_stays :
      (next : PdState) (w : Port S)
      → closes_rx w.task_state next ≡ false
      → set_state drv next w
        ≡ record w { task_state = next; state_timeout = 0; timeout_state = disabled }
  set_state_stays next w h = rw (set_state_lem next w, h) refl

  -- When the state timer is set and its time has come, the port enters the state that the timer
  -- leads to, with the timer stopped and the next run within 10 ms.
  pub timer-expires :
      (w : Port S)
      → w.state_timeout ≢ 0
      → w.state_timeout ≤ (read_time w).1
      → let v = check_timeout drv w in
        (v.task_state ≡ w.timeout_state) × (v.state_timeout ≡ 0) × (v.wake ≤ 10000)
  unfolding check_timeout read_time set_wake
  timer-expires w h k =
      let r = read_time w in
      let e1 : (w.state_timeout == 0) ≡ false = ground arith in
      let e2 : leb w.state_timeout r.1 ≡ true = le→leb _ _ k in
      rw (e1, e2, set_state_lem w.timeout_state r.0) (refl, refl, omega arith)

  -- Before its time, or when the timer is not set, the state and the timer stay, and the next run
  -- is no later than it was to be.
  pub timer-waits :
      (w : Port S)
      → (w.state_timeout ≡ 0) ⊎ ((read_time w).1 < w.state_timeout)
      → let v = check_timeout drv w in
        (v.task_state ≡ w.task_state) × (v.state_timeout ≡ w.state_timeout) × (v.wake ≤ w.wake)
  unfolding check_timeout read_time set_wake
  timer-waits w (inl h) = rw (h) (refl, refl, omega arith)
  timer-waits w (inr h) =
      let now = (read_time w).1 in
      let e1 : (w.state_timeout == 0) ≡ false = ground arith in
      let e2 : leb w.state_timeout now ≡ false = ground arith in
      elim (Bool-cases (ltb (w.state_timeout - now) w.wake)) [
        | inl e ↦ rw (e1, e2, e) (refl, refl, ground arith)
        | inr e ↦ rw (e1, e2, e) (refl, refl, omega arith)
      ]

  -- A timer whose time is past the wrap of the clock never comes due: `get_time` takes the
  -- milliseconds modulo 2 ^ 32 microseconds, so its value stays below 2 ^ 32 + 1000.
  pub timer_past_wrap :
      (w : Port S)
      → 2 ^ 32 + 1000 ≤ w.state_timeout
      → ((check_timeout drv w).task_state ≡ w.task_state)
        × ((check_timeout drv w).state_timeout ≡ w.state_timeout)
  unfolding read_time
  timer_past_wrap w h =
      let k = w.clock in
      let t = get_time-lt (k.millis k.calls) (k.micros k.calls) in
      let e = timer-waits w (inr (omega arith)) in (e.0, e.1)
