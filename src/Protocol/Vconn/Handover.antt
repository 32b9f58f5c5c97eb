-- ===== src/Protocol/Vconn/Handover.antt =====
-- NOA_ESP32_PD/usb_pd_protocol.cpp: VCONN passes from one port to the other without a gap.
use noa_esp32_pd.Base.{
  min, taken, not_taken, ℕ, ◌+◌, ◌≤◌, ◌<◌, leb, ◌==◌, ◌&&◌, ◌||◌, Bool, true, false, if◌then◌else◌,
  ◌≡◌, refl, ap, ◌∙◌, [], arith,
}
use noa_esp32_pd.Base.Bits.{has, set_bits, clear_bits, has-set_pow, has-clear_pow}
use noa_esp32_pd.Base.Int.{is_minus_one}
use noa_esp32_pd.Fusb302.Alert.{TxStatus}
use noa_esp32_pd.Fusb302.Frame.{sop}
use noa_esp32_pd.Message.Types.Ctrl
use noa_esp32_pd.Protocol.Flags
use noa_esp32_pd.Protocol.Port.{
  PdState, disabled, PowerRole, sink, source, snk_disconnected, src_disconnected, snk_ready,
  src_ready, TcpmDrv, Clock,
}
use noa_esp32_pd.Protocol.Core.{
  msec, index, dual_role_if_else, has_flag, set_flag, clear_flag, read_time, set_wake,
  tcpm_set_rx_enable, ready_return_state,
}
use noa_esp32_pd.Protocol.Transmit.{port_header, pd_transmit, send_control, tx_result}
use noa_esp32_pd.Protocol.Vconn.State.{
  VconnState, VconnPort, main, swap_init, swap_ready, place, same_vconn, set_timeout, start_wait,
  is_at, just_entered, return_state, enter, on_ps_rdy_vconn, check_wait,
}
use noa_esp32_pd.Protocol.Vconn.Run.{tcpm_set_vconn, run_vconn_swap_init, run_vconn_swap_ready}

vconn_set : (f : ℕ) → has (set_bits f Flags.vconn_on) Flags.vconn_on ≡ true
vconn_set f = ground (arith, has-set_pow 12 12 f)

vconn_cleared : (f : ℕ) → has (clear_bits f Flags.vconn_on) Flags.vconn_on ≡ false
vconn_cleared f = ground (arith, has-clear_pow 12 12 f refl refl)

-- A state other than the two disconnected ones.
abbrev is_open : VconnState → Bool
unfolding same_vconn
is_open s = same_vconn s (main src_disconnected) || same_vconn s (main snk_disconnected)

ready_open : (r : PowerRole) → is_open (main (dual_role_if_else r snk_ready src_ready)) ≡ false
unfolding same_vconn index
ready_open sink = refl
ready_open source = refl

module _ {S : Type 0} (drv : TcpmDrv S) where
  all_same :
      (a b c : Bool) (u x : VconnPort S)
      → c ≡ false
      → (if a then u else if b then u else if c then x else u) ≡ u
  all_same true b c u x h = refl
  all_same false true c u x h = refl
  all_same false false c u x h = not_taken c x u h

  -- Such a state is entered with the timer stopped, and nothing else changes.
  enter_lem :
      (next : VconnState) (v : VconnPort S)
      → is_open next ≡ false
      → enter drv next v ≡ record (set_timeout 0 (main disabled) v) { task_state = next }
  unfolding enter same_vconn
  enter_lem next v h =
      let last = v.task_state in
      let u = record (set_timeout 0 (main disabled) v) { task_state = next } in
      all_same (same_vconn last next)
        (same_vconn last (main snk_disconnected) && same_vconn next (main src_disconnected)
          || same_vconn last (main src_disconnected) && same_vconn next (main snk_disconnected))
        (is_open next) u (record u { port = tcpm_set_rx_enable drv false u.port }) h

  ready_is_open : is_open swap_ready ≡ false
  unfolding same_vconn index
  ready_is_open = refl

  -- The next run is soon.
  abbrev hasten : VconnPort S → VconnPort S
  hasten u = record u { port = set_wake (min u.port.wake (msec 10)) u.port }

  -- The wait is over.
  waited :
      (v : VconnPort S)
      → 0 < v.port.state_timeout
      → v.port.state_timeout ≤ (read_time v.port).1
      → check_wait drv v
        ≡ hasten (enter drv v.timeout_state (record v { port = (read_time v.port).0 }))
  unfolding check_wait read_time set_wake
  waited v h g =
      let r = read_time v.port in
      let u = record v { port = r.0 } in
      let next = hasten (enter drv v.timeout_state u) in
      let set : (v.port.state_timeout == 0) ≡ false = ground arith in
      let over : leb v.port.state_timeout r.1 ≡ true = ground arith in
      not_taken (v.port.state_timeout == 0) u _ set
      ∙ taken (leb v.port.state_timeout r.1) next _ over

module _ {S : Type 0} (drv : TcpmDrv S) (set_vconn : Bool → S → S) (swap_delay : ℕ) where
  -- The two ways through VCONN_SWAP_INIT.
  init_supplier :
      (v : VconnPort S)
      → just_entered v ≡ true
      → has_flag v.port Flags.vconn_on ≡ true
      → run_vconn_swap_init drv set_vconn swap_delay v ≡ start_wait (msec 100) (return_state v) v
  unfolding run_vconn_swap_init
  init_supplier v h on = rw (h, on) refl

  init_other :
      (v : VconnPort S)
      → just_entered v ≡ true
      → has_flag v.port Flags.vconn_on ≡ false
      → run_vconn_swap_init drv set_vconn swap_delay v
        ≡ start_wait swap_delay swap_ready (tcpm_set_vconn drv set_vconn swap_delay true v)
  unfolding run_vconn_swap_init
  init_other v h off = rw (h, off) refl

  -- The supplier in VCONN_SWAP_READY.
  ready_supplier :
      (v : VconnPort S)
      → just_entered v ≡ true
      → has_flag v.port Flags.vconn_on ≡ true
      → let u = run_vconn_swap_ready drv set_vconn swap_delay v in
        (u.port.tcpc ≡ set_vconn false v.port.tcpc) × (has_flag u.port Flags.vconn_on ≡ false)
  unfolding run_vconn_swap_ready start_wait set_timeout tcpm_set_vconn clear_flag has_flag
  ready_supplier v h on =
      let u = tcpm_set_vconn drv set_vconn swap_delay false v in
      let m : run_vconn_swap_ready drv set_vconn swap_delay v
          ≡ start_wait swap_delay (return_state u)
              (record u { port = clear_flag Flags.vconn_on u.port }) =
        rw (h, on) refl in
      rw (m) (refl, vconn_cleared v.port.flags)

  -- The other port there.
  ready_other :
      (v : VconnPort S)
      → just_entered v ≡ true
      → has_flag v.port Flags.vconn_on ≡ false
      → v.port.tx_status ≡ TxStatus.success
      → let u = run_vconn_swap_ready drv set_vconn swap_delay v in
        (u.port.tcpc ≡ (drv.transmit sop (port_header Ctrl.ps_rdy 0 v.port) [] v.port.tcpc).0)
        × ((has_flag u.port Flags.vconn_on ≡ true) × (u.task_state ≡ return_state v))
  unfolding run_vconn_swap_ready send_control pd_transmit set_flag has_flag return_state port_header
      ready_return_state set_timeout
  ready_other v h off ok =
      let r = send_control drv Ctrl.ps_rdy (set_flag Flags.vconn_on v.port) in
      let u = record v { port = r.0 } in
      let sent : is_minus_one (tx_result v.port.tx_status) ≡ false =
        ap (λ s. is_minus_one (tx_result s)) ok in
      let m : run_vconn_swap_ready drv set_vconn swap_delay v ≡ (
          if is_minus_one (tx_result v.port.tx_status)
          then enter drv (main PdState.soft_reset) (record u { port = set_wake (msec 10) u.port })
          else enter drv (return_state u) u) =
        rw (h, off) refl in
      let n =
        not_taken (is_minus_one (tx_result v.port.tx_status)) _ (enter drv (return_state u) u)
          sent in
      let e = enter_lem drv (return_state u) u (ready_open v.port.power_role) in
      rw (m ∙ n ∙ e) (refl, (vconn_set v.port.flags, refl))

  -- After VCONN_SWAP_INIT was run, with the clock at a later reading.
  abbrev pub after_init : Clock → VconnPort S → VconnPort S
  after_init later v =
      let u = run_vconn_swap_init drv set_vconn swap_delay v in
      record u { port = record u.port { clock = later }; last_state = swap_init }

  -- The supplier, whom PS_RDY reaches.
  told :
      (v : VconnPort S) (later : Clock)
      → v.task_state ≡ swap_init
      → just_entered v ≡ true
      → has_flag v.port Flags.vconn_on ≡ true
      → let u = on_ps_rdy_vconn drv (after_init later v) in
        ((u.task_state ≡ swap_ready) × (u.last_state ≡ swap_init))
        × ((u.port.tcpc ≡ v.port.tcpc) × (u.port.flags ≡ v.port.flags))
  unfolding on_ps_rdy_vconn is_at start_wait set_timeout has_flag read_time same_vconn index
  told v later at h on =
      let w = start_wait (msec 100) (return_state v) v in
      let x = record w { port = record w.port { clock = later }; last_state = swap_init } in
      let here : (place v.task_state == 34) ≡ true = rw (at) refl in
      let m : on_ps_rdy_vconn drv x ≡ enter drv swap_ready x =
        taken (is_at x swap_init) _ x here
        ∙ taken (has_flag x.port Flags.vconn_on) (enter drv swap_ready x) x on in
      let f =
        ap
          (λ (u : VconnPort S).
            on_ps_rdy_vconn drv
              (record u { port = record u.port { clock = later }; last_state = swap_init }))
          (init_supplier v h on) in
      rw (f ∙ m ∙ enter_lem drv swap_ready x (ready_is_open drv)) ((refl, refl), (refl, refl))

  -- The other port, when its VCONN has come up.
  come_up :
      (v : VconnPort S) (later : Clock)
      → just_entered v ≡ true
      → has_flag v.port Flags.vconn_on ≡ false
      → 0 < swap_delay
      → (read_time v.port).1 + swap_delay ≤ (read_time (record v.port { clock = later })).1
      → let u = check_wait drv (after_init later v) in
        ((u.task_state ≡ swap_ready) × (u.last_state ≡ swap_init))
        × ((u.port.tcpc ≡ set_vconn true v.port.tcpc)
            × ((u.port.flags ≡ v.port.flags) × (u.port.tx_status ≡ v.port.tx_status)))
  unfolding start_wait set_timeout tcpm_set_vconn read_time set_wake
  come_up v later h off some_delay late =
      let w = start_wait swap_delay swap_ready (tcpm_set_vconn drv set_vconn swap_delay true v) in
      let x = record w { port = record w.port { clock = later }; last_state = swap_init } in
      let f =
        ap
          (λ (u : VconnPort S).
            check_wait drv
              (record u { port = record u.port { clock = later }; last_state = swap_init }))
          (init_other v h off) in
      let m = waited drv x (omega arith) late in
      let y = record x { port = (read_time x.port).0 } in
      rw (f ∙ m ∙ ap (hasten drv) (enter_lem drv swap_ready y (ready_is_open drv)))
        ((refl, refl), (refl, (refl, refl)))

entered_at :
    {S : Type 0} (v : VconnPort S)
    → v.task_state ≡ swap_ready
    → v.last_state ≡ swap_init
    → just_entered v ≡ true
unfolding just_entered same_vconn index
entered_at v h g = rw (h, g) refl

module _ {S T : Type 0} (drv : TcpmDrv S) (set_vconn : Bool → S → S) (drv' : TcpmDrv T)
    (set_vconn' : Bool → T → T) (swap_delay : ℕ) where
  -- Two ports that have just entered VCONN_SWAP_INIT, the first of them supplying VCONN and the
  -- second not; the second's transmissions succeed, and its clock gets past the delay of the swap,
  -- which is not 0. The second turns VCONN on; when the delay is over it is in VCONN_SWAP_READY,
  -- notes that it supplies VCONN and sends PS_RDY. Until that message the first has left its
  -- VCONN on; with it, it enters VCONN_SWAP_READY, turns VCONN off and notes that too.
  pub vconn_handed_over :
      (a : VconnPort S) (b : VconnPort T) (told_at later : Clock)
      → a.task_state ≡ swap_init
      → just_entered a ≡ true
      → has_flag a.port Flags.vconn_on ≡ true
      → just_entered b ≡ true
      → has_flag b.port Flags.vconn_on ≡ false
      → b.port.tx_status ≡ TxStatus.success
      → 0 < swap_delay
      → (read_time b.port).1 + swap_delay ≤ (read_time (record b.port { clock = later })).1
      → let up = check_wait drv' (after_init drv' set_vconn' swap_delay later b) in
        let supplies = run_vconn_swap_ready drv' set_vconn' swap_delay up in
        let told = on_ps_rdy_vconn drv (after_init drv set_vconn swap_delay told_at a) in
        let stopped = run_vconn_swap_ready drv set_vconn swap_delay told in
        ((up.task_state ≡ swap_ready) × (up.port.tcpc ≡ set_vconn' true b.port.tcpc))
        × (((supplies.port.tcpc
                ≡ (drv'.transmit sop (port_header Ctrl.ps_rdy 0 up.port) [] up.port.tcpc).0)
              × (has_flag supplies.port Flags.vconn_on ≡ true))
            × (((told.task_state ≡ swap_ready) × (told.port.tcpc ≡ a.port.tcpc))
                × ((stopped.port.tcpc ≡ set_vconn false a.port.tcpc)
                    × (has_flag stopped.port Flags.vconn_on ≡ false))))
  unfolding has_flag
  vconn_handed_over a b told_at later at ha on hb off ok some_delay late =
      let up = check_wait drv' (after_init drv' set_vconn' swap_delay later b) in
      let u = come_up drv' set_vconn' swap_delay b later hb off some_delay late in
      let s =
        ready_other drv' set_vconn' swap_delay up (entered_at up u.0.0 u.0.1)
          (ap (λ f. has f Flags.vconn_on) u.1.1.0 ∙ off) (u.1.1.1 ∙ ok) in
      let heard = on_ps_rdy_vconn drv (after_init drv set_vconn swap_delay told_at a) in
      let t = told drv set_vconn swap_delay a told_at at ha on in
      let q =
        ready_supplier drv set_vconn swap_delay heard (entered_at heard t.0.0 t.0.1)
          (ap (λ f. has f Flags.vconn_on) t.1.1 ∙ on) in
      ((u.0.0, u.1.0), ((s.0, s.1.0), ((t.0.0, t.1.0), (q.0 ∙ ap (set_vconn false) t.1.0, q.1))))
