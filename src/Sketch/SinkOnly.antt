-- ===== src/Sketch/SinkOnly.antt =====
-- NOA_ESP32_PD/NOA_ESP32_PD.ino: the sketch on the FUSB302 stays a sink, whatever the bus answers.
use noa_esp32_pd.Base.{
  ℕ, Bool, true, false, if◌then◌else◌, refl, List, [], ◌∷◌, arith, Bool-cases, inl, inr,
}
use noa_esp32_pd.Base.Bits.{has}
use noa_esp32_pd.Wire.{Bus}
use noa_esp32_pd.Fusb302.Registers.{
  interrupt_collision, interrupta_hardreset, interrupta_hardsent, interrupta_retryfail,
  interrupta_tx_success, interruptb_gcrcsent,
}
use noa_esp32_pd.Fusb302.Chip.{Chip, read, fusb302_pd_reset, fusb302_flush_rx_fifo, write}
use noa_esp32_pd.Fusb302.Control.{fusb302_tcpm_release}
use noa_esp32_pd.Fusb302.Alert.{TxStatus, handle, when, on_chip, fusb302_tcpc_alert}
use noa_esp32_pd.Fusb302.PullDown.{
  PullsDown, init-PullsDown, get_cc-PullsDown, select_rp_value-PullsDown, set_cc-PullsDown,
  set_polarity-PullsDown, set_msg_header-PullsDown, set_rx_enable-PullsDown, get_message-PullsDown,
  transmit-PullsDown,
}
use noa_esp32_pd.Protocol.Port.{Port, Clock}
use noa_esp32_pd.Protocol.Run.{tcpm_init}
use noa_esp32_pd.Protocol.SinkOnly.{
  IsSinkOnly, KeepsSafe, is_sink_side, transmit_complete-IsSinkOnly, if-IsSinkOnly,
}
use noa_esp32_pd.Protocol.SinkOnly.Controls.{hard_reset-IsSinkOnly}
use noa_esp32_pd.Protocol.SinkOnly.Runs.{
  run_state_machine-IsSinkOnly, init-IsSinkOnly, tcpm_init-IsSinkOnly,
}
use noa_esp32_pd.Protocol.Core.{index, pd_transmit_complete}
use noa_esp32_pd.Protocol.Reset.{pd_execute_hard_reset}
use noa_esp32_pd.Sketch.{
  fusb302_tcpm_drv, pd_client, Sketch, Inputs, on_button, button_down, loop, setup, run_loops, run,
  power_on,
}

-- The driver of the FUSB302 is one that keeps the lines pulled down.
pub fusb302_keeps : (fuel : ℕ) → KeepsSafe (fusb302_tcpm_drv fuel) PullsDown
unfolding fusb302_tcpm_release
fusb302_keeps fuel = record {
  init = init-PullsDown;
  release = λ c h. h;
  get_cc = get_cc-PullsDown;
  select_rp_value = select_rp_value-PullsDown;
  set_cc_rd = set_cc-PullsDown;
  set_polarity = set_polarity-PullsDown;
  set_msg_header = set_msg_header-PullsDown;
  set_rx_enable = set_rx_enable-PullsDown;
  get_message = get_message-PullsDown fuel;
  transmit = transmit-PullsDown;
}

module _ (fuel : ℕ) where
  when-IsSinkOnly :
      (b : Bool) (f : Port Chip → Port Chip) (w : Port Chip)
      → ((v : Port Chip) → IsSinkOnly PullsDown v → IsSinkOnly PullsDown (f v))
      → IsSinkOnly PullsDown w
      → IsSinkOnly PullsDown (when (pd_client fuel) b f w)
  unfolding when
  when-IsSinkOnly true f w keep h = keep w h
  when-IsSinkOnly false f w keep h = h

  pd_reset-IsSinkOnly :
      (w : Port Chip)
      → IsSinkOnly PullsDown w
      → IsSinkOnly PullsDown (on_chip (pd_client fuel) fusb302_pd_reset w)
  unfolding on_chip fusb302_pd_reset write
  pd_reset-IsSinkOnly w h = search

  flush-IsSinkOnly :
      (w : Port Chip)
      → IsSinkOnly PullsDown w
      → IsSinkOnly PullsDown (on_chip (pd_client fuel) fusb302_flush_rx_fifo w)
  unfolding on_chip fusb302_flush_rx_fifo write
  flush-IsSinkOnly w h = search

  handle-IsSinkOnly :
      (int int_a int_b : ℕ) (w : Port Chip)
      → IsSinkOnly PullsDown w
      → IsSinkOnly PullsDown (handle (pd_client fuel) int int_a int_b w)
  unfolding handle
  handle-IsSinkOnly int int_a int_b w h =
      let complete : (st : TxStatus) (v : Port Chip)
          → IsSinkOnly PullsDown v
          → IsSinkOnly PullsDown (pd_transmit_complete st v) =
        λ st v k.
          transmit_complete-IsSinkOnly (fusb302_tcpm_drv fuel) PullsDown (fusb302_keeps fuel) st v
            k in
      let reset : (v : Port Chip)
          → IsSinkOnly PullsDown v
          → IsSinkOnly PullsDown (
              pd_execute_hard_reset (fusb302_tcpm_drv fuel)
                (on_chip (pd_client fuel) fusb302_pd_reset v)) =
        λ v k.
          hard_reset-IsSinkOnly (fusb302_tcpm_drv fuel) PullsDown (fusb302_keeps fuel) _
            (pd_reset-IsSinkOnly v k) in
      let quiet : (v : Port Chip)
          → IsSinkOnly PullsDown v
          → IsSinkOnly PullsDown
              (if v.tcpc.rx_enable then v else on_chip (pd_client fuel) fusb302_flush_rx_fifo v) =
        λ v k. search (if-IsSinkOnly, flush-IsSinkOnly) in
      when-IsSinkOnly (has int_b interruptb_gcrcsent) _ _ quiet (
        when-IsSinkOnly (has int_a interrupta_hardreset) _ _ reset (
          when-IsSinkOnly (has int_a interrupta_hardsent) _ _
            (λ v k. complete TxStatus.success _ (pd_reset-IsSinkOnly v k))
            (when-IsSinkOnly (has int_a interrupta_retryfail) _ _ (complete TxStatus.failed) (
              when-IsSinkOnly (has int_a interrupta_tx_success) _ _ (complete TxStatus.success)
                (when-IsSinkOnly (has int interrupt_collision) _ _ (complete TxStatus.failed) h)))))

  alert-IsSinkOnly :
      (w : Port Chip)
      → IsSinkOnly PullsDown w
      → IsSinkOnly PullsDown (fusb302_tcpc_alert (pd_client fuel) w)
  unfolding fusb302_tcpc_alert read
  alert-IsSinkOnly w h = handle-IsSinkOnly _ _ _ _ search

  on_button-IsSinkOnly :
      (i : Inputs) (s : Sketch)
      → IsSinkOnly PullsDown s.port
      → IsSinkOnly PullsDown (on_button i s).port
  unfolding on_button
  on_button-IsSinkOnly i s h = elim (Bool-cases (button_down i s)) [
    | inl e ↦ rw (e) search
    | inr e ↦ rw (e) h
  ]

  loop-IsSinkOnly :
      (i : Inputs) (s : Sketch)
      → IsSinkOnly PullsDown s.port
      → IsSinkOnly PullsDown (loop fuel i s).port
  unfolding loop
  loop-IsSinkOnly i s h =
      let w = (on_button i s).port in
      let hb = on_button-IsSinkOnly i s h in
      run_state_machine-IsSinkOnly (fusb302_tcpm_drv fuel) PullsDown (fusb302_keeps fuel)
        (button_down i s) _ (if-IsSinkOnly PullsDown i.int_low _ w (alert-IsSinkOnly w hb) hb)

  run_loops-IsSinkOnly :
      (inputs : List Inputs) (s : Sketch)
      → IsSinkOnly PullsDown s.port
      → IsSinkOnly PullsDown (run_loops fuel inputs s).port
  unfolding run_loops
  run_loops-IsSinkOnly [] s h = h
  run_loops-IsSinkOnly (i ∷ inputs) s h =
      run_loops-IsSinkOnly inputs (loop fuel i s) (loop-IsSinkOnly i s h)

  setup-IsSinkOnly :
      (s : Sketch) → IsSinkOnly PullsDown s.port → IsSinkOnly PullsDown (setup fuel s).port
  unfolding setup
  setup-IsSinkOnly s h =
      let drv = fusb302_tcpm_drv fuel in
      let keeps = fusb302_keeps fuel in
      init-IsSinkOnly drv PullsDown keeps (tcpm_init drv s.port).0
        (tcpm_init-IsSinkOnly drv PullsDown keeps s.port h)

-- After `setup` and any number of passes of `loop`, whatever the chip, the clock and the inputs
-- answer, the port has the sink role, its state and the state that its timer leads to are none of
-- a role swap or of a source that attaches, its message counter is below 8, and the driver
-- neither pulls the CC lines up nor sources VCONN.
pub run-IsSinkOnly :
    (fuel : ℕ) (inputs : List Inputs) (bus : Bus) (clock : Clock)
    → IsSinkOnly PullsDown (run fuel inputs bus clock).port
unfolding run is_sink_side index
run-IsSinkOnly fuel inputs bus clock =
    let start : IsSinkOnly PullsDown (power_on bus clock).port = record {
      safe = record { down = refl; no_vconn = refl };
      port = (refl, refl, refl, refl, omega arith, refl, refl);
    } in
    run_loops-IsSinkOnly fuel inputs _ (setup-IsSinkOnly fuel _ start)
