-- ===== src/Protocol/Silence/Recovery.antt =====
-- NOA_ESP32_PD/usb_pd_protocol.cpp: the hard resets that a sink sends to a silent source.
use noa_esp32_pd.Base.{
  ℕ, ◌+◌, ◌≤◌, ltb, false, if◌then◌else◌, ◌≡◌, refl, ap, suc, zero, List, [], ◌∷◌, arith,
}
use noa_esp32_pd.Fusb302.Frame.{nothing}
use noa_esp32_pd.Protocol.Flags
use noa_esp32_pd.Protocol.Port.{
  PdState, TcpmDrv, Port, Clock, snk_discovery, snk_hard_reset_recover, hard_reset_send,
  hard_reset_execute, disabled,
}
use noa_esp32_pd.Protocol.Core.{msec, set_wake, same_state, index, has_flag}
use noa_esp32_pd.Protocol.Run.{run_state, pd_run_state_machine}
use noa_esp32_pd.Protocol.Silence.Quiet.{
  time_at, later, surroundings, calm, HardResetLog, At, listened, run_expires, run_stays, ready,
}
use noa_esp32_pd.Protocol.Silence.Cases.{discovery-Left, sends-Left, executes-Left, recover-Left}

module _ {S : Type 0} (drv : TcpmDrv S) (silent : (s : S) → (drv.get_message s).1 ≡ nothing)
    (log : HardResetLog drv) where
  -- Three runs: HARD_RESET_SEND, HARD_RESET_EXECUTE and the expiry of SNK_HARD_RESET_RECOVER.
  resets :
      (last : PdState) (n i : ℕ) (k : Clock) (w : Port S)
      → At log.sent hard_reset_send last n (later k i) w
      → same_state last hard_reset_send ≡ false
      → time_at k (i + 1 + 1) + msec 650 ≤ time_at k (i + 1 + 1 + 1)
      → let run = pd_run_state_machine drv false in
        At log.sent hard_reset_execute hard_reset_send (n + 1) (later k (i + 1)) (run w)
        × At log.sent snk_hard_reset_recover hard_reset_execute
            (n + 1)
            (later k (i + 1 + 1))
            (run (run w))
        × At log.sent
            (if ltb (n + 1) 2 then hard_reset_send else snk_discovery)
            snk_hard_reset_recover
            (n + 1)
            (later k (i + 1 + 1 + 1 + 1))
            (run (run (run w)))
  unfolding run_state same_state index
  resets last n i k w h he late =
      let run = pd_run_state_machine drv false in
      let t = if ltb (n + 1) 2 then hard_reset_send else snk_discovery in
      let a =
        run_stays drv silent log hard_reset_send hard_reset_execute disabled last n (n + 1) i k w h
          (sends-Left drv log last n (later k i) (set_wake (msec 500) (listened drv silent log w))
            (ready drv silent log hard_reset_send last n (later k i) w h) he) in
      let b =
        run_stays drv silent log hard_reset_execute snk_hard_reset_recover disabled hard_reset_send
          (n + 1) (n + 1) (i + 1) k (run w) a
          (executes-Left drv log (n + 1) (later k (i + 1))
            (set_wake (msec 500) (listened drv silent log (run w)))
            (ready drv silent log hard_reset_execute hard_reset_send (n + 1) (later k (i + 1))
              (run w) a)) in
      let c =
        run_expires drv silent log snk_hard_reset_recover snk_hard_reset_recover t
          hard_reset_execute (time_at k (i + 1 + 1) + msec 650) (n + 1) (n + 1) (i + 1 + 1) k
          (run (run w)) b
          (recover-Left drv log hard_reset_execute (n + 1) (i + 1 + 1) k
            (set_wake (msec 500) (listened drv silent log (run (run w))))
            (ready drv silent log snk_hard_reset_recover hard_reset_execute (n + 1)
              (later k (i + 1 + 1)) (run (run w)) b)
            refl)
          (omega arith) late in
      (a, b, c)

  -- The state after each of the next runs, and how many hard resets have been transmitted by then.
  unfoldable pub states_after : ℕ → Port S → List (PdState × ℕ)
  unfolding pd_run_state_machine
  states_after zero w = []
  states_after (suc n) w =
      let v = pd_run_state_machine drv false w in (v.task_state, log.sent v.tcpc) ∷ states_after n v

  -- A sink enters SNK_DISCOVERY: no hard reset is counted or transmitted, VBUS_NEVER_LOW is clear,
  -- no VDM, event or suspend request is pending, the driver never delivers a message and a
  -- transmission succeeds. If the time is read 600 ms later, and twice 650 ms later, once a timer was
  -- set, then seven runs of `pd_run_state_machine` go twice through HARD_RESET_SEND,
  -- HARD_RESET_EXECUTE and SNK_HARD_RESET_RECOVER and end in SNK_DISCOVERY; the run in each of the
  -- two HARD_RESET_SEND transmits one hard reset, and no other run transmits one.
  pub silent_source :
      (w : Port S)
      → w.task_state ≡ snk_discovery
      → same_state w.last_state snk_discovery ≡ false
      → surroundings w ≡ calm
      → w.hard_reset_count ≡ 0
      → log.sent w.tcpc ≡ 0
      → has_flag w Flags.vbus_never_low ≡ false
      → time_at w.clock 0 + msec 600 ≤ time_at w.clock 1
      → time_at w.clock 4 + msec 650 ≤ time_at w.clock 5
      → time_at w.clock 8 + msec 650 ≤ time_at w.clock 9
      → states_after 7 w
        ≡ (hard_reset_send, 0)
          ∷ (hard_reset_execute, 1)
          ∷ (snk_hard_reset_recover, 1)
          ∷ (hard_reset_send, 1)
          ∷ (hard_reset_execute, 2)
          ∷ (snk_hard_reset_recover, 2)
          ∷ (snk_discovery, 2)
          ∷ []
  unfolding run_state states_after same_state index has_flag
  silent_source w hs hl hc hn hm hf t1 t2 t3 =
      let run = pd_run_state_machine drv false in
      let k = w.clock in
      let first : w.clock.calls ≡ w.clock.calls + 0 = omega arith in
      let start : At log.sent snk_discovery w.last_state 0 (later k 0) w =
        (hs, refl, hc, (hn, hm), ap (λ j. record w.clock { calls = j }) first) in
      let a =
        run_expires drv silent log snk_discovery snk_discovery hard_reset_send w.last_state
          (time_at k 0 + msec 600) 0 0 0 k w start
          (discovery-Left drv log w.last_state 0 0 k
            (set_wake (msec 500) (listened drv silent log w))
            (ready drv silent log snk_discovery w.last_state 0 (later k 0) w start) hl hf
            (ground arith))
          (omega arith) t1 in
      let b = resets snk_discovery 0 2 k (run w) a refl t2 in
      let v = run (run (run (run w))) in
      let c = resets snk_hard_reset_recover 1 6 k v b.2 refl t3 in
      rw
        (
          a.0, a.3.1, b.0.0, b.0.3.1, b.1.0, b.1.3.1, b.2.0, b.2.3.1, c.0.0, c.0.3.1, c.1.0,
          c.1.3.1, c.2.0, c.2.3.1,
        )
        refl
