-- ===== src/Sketch.antt =====
-- NOA_ESP32_PD/NOA_ESP32_PD.ino: the driver table of the port, and the sketch's loop.
pub mod SinkOnly
pub mod Alerts
pub mod Button
use noa_esp32_pd.Base.{
  ℕ, ◌+◌, ◌-◌, ◌%◌, ◌^◌, ltb, leb, ◌==◌, ◌&&◌, ◌||◌, not, Bool, true, false, List, [], ◌∷◌,
  if◌then◌else◌,
}
use noa_esp32_pd.Fusb302.Chip.{Chip}
use noa_esp32_pd.Fusb302.Sense.{fusb302_tcpm_get_cc}
use noa_esp32_pd.Fusb302.Control.{
  fusb302_tcpm_init, fusb302_tcpm_release, fusb302_tcpm_select_rp_value, fusb302_tcpm_set_cc,
  fusb302_tcpm_set_polarity, fusb302_tcpm_set_msg_header, fusb302_tcpm_set_rx_enable,
}
use noa_esp32_pd.Fusb302.Frame.{fusb302_tcpm_get_message, fusb302_tcpm_transmit}
use noa_esp32_pd.Fusb302.Alert.{Client, fusb302_tcpc_alert}
use noa_esp32_pd.Base.Int.{pos}
use noa_esp32_pd.Wire.{Bus}
use noa_esp32_pd.Fusb302.Alert.{TxStatus}
use noa_esp32_pd.Protocol.Port.{
  TcpmDrv, Port, Clock, PdState, CcState, VdmState, DrpState, sink, ufp,
}
use noa_esp32_pd.Protocol.Core.{pd_transmit_complete}
use noa_esp32_pd.Protocol.Reset.{pd_execute_hard_reset}
use noa_esp32_pd.Protocol.Run.{pd_run_state_machine, pd_init, tcpm_init}

-- `fusb302_tcpm_drv`. `fuel` bounds the packets that one call of `get_message` reads.
abbrev pub fusb302_tcpm_drv : ℕ → TcpmDrv Chip
fusb302_tcpm_drv fuel = record {
  init = fusb302_tcpm_init;
  release = fusb302_tcpm_release;
  get_cc = fusb302_tcpm_get_cc;
  select_rp_value = fusb302_tcpm_select_rp_value;
  set_cc = fusb302_tcpm_set_cc;
  set_polarity = fusb302_tcpm_set_polarity;
  set_msg_header = fusb302_tcpm_set_msg_header;
  set_rx_enable = fusb302_tcpm_set_rx_enable;
  get_message = fusb302_tcpm_get_message fuel;
  transmit = fusb302_tcpm_transmit;
}

-- What the driver's alert calls of the protocol layer.
abbrev pub pd_client : ℕ → Client (Port Chip)
pd_client fuel = record {
  chip = λ w. w.tcpc;
  set_chip = λ c w. record w { tcpc = c };
  pd_transmit_complete = pd_transmit_complete;
  pd_execute_hard_reset = pd_execute_hard_reset (fusb302_tcpm_drv fuel);
}

-- The sketch's own state beside the port; the LED shows `led`. A button that is pressed reads 0.
pub record Sketch : Type 0 where
  pub port : Port Chip
  pub last_pressed : Bool
  pub last_time : ℕ
  pub led : Bool

-- What one pass of the loop reads: the button, `millis()` and the interrupt pin (LOW is true).
pub record Inputs : Type 0 where
  pub pressed : Bool
  pub time : ℕ
  pub int_low : Bool

-- The next object to ask for: one further, or back to the first.
unfoldable pub next_index : ℕ → ℕ → ℕ
next_index current max_index = if ltb current max_index then current + 1 else 0

-- `pushbutton_current_time - pushbutton_last_time` as its 32-bit pattern: the times are ints.
unfoldable pub button_gap : ℕ → ℕ → ℕ
button_gap time last_time = (time % 2 ^ 32 + 2 ^ 32 - last_time % 2 ^ 32) % 2 ^ 32

-- The button counts when it goes down within 100 ms of the pass before; a negative difference is
-- below 100 too.
unfoldable pub button_down : Inputs → Sketch → Bool
unfolding button_gap
button_down i s =
    let gap = button_gap i.time s.last_time in
    i.pressed && not s.last_pressed && (ltb gap 100 || leb (2 ^ 31) gap)

unfoldable pub on_button : Inputs → Sketch → Sketch
unfolding button_down next_index
on_button i s =
    let w = s.port in
    let t =
      if button_down i s
      then record s {
        led = not s.led;
        port = record w {
          pd_source_cap_current_index =
              next_index w.pd_source_cap_current_index w.pd_source_cap_max_index;
        };
      }
      else s in
    record t { last_pressed = i.pressed; last_time = i.time }

unfoldable pub loop : ℕ → Inputs → Sketch → Sketch
unfolding on_button button_down
loop fuel i s =
    let reset = button_down i s in
    let t = on_button i s in
    let w = if i.int_low then fusb302_tcpc_alert (pd_client fuel) t.port else t.port in
    record t { port = pd_run_state_machine (fusb302_tcpm_drv fuel) reset w }

-- `setup`: the chip is initialised by `tcpm_init` and again by `pd_init`.
unfoldable pub setup : ℕ → Sketch → Sketch
setup fuel s =
    let drv = fusb302_tcpm_drv fuel in
    record s { port = pd_init drv (tcpm_init drv s.port).0; last_pressed = false; last_time = 0 }

abbrev pub seven_zeros : List ℕ
seven_zeros = 0 ∷ 0 ∷ 0 ∷ 0 ∷ 0 ∷ 0 ∷ 0 ∷ []

-- The passes of `loop`, in order.
unfoldable pub run_loops : ℕ → List Inputs → Sketch → Sketch
unfolding loop
run_loops fuel [] s = s
run_loops fuel (i ∷ is) s = run_loops fuel is (loop fuel i s)

-- The statics as they are before `setup` runs, over the state of a chip.
abbrev pub port_at : {S : Type 0} → S → Clock → Port S
port_at chip clock = record {
  tcpc = chip;
  clock = clock;
  power_role = sink;
  data_role = ufp;
  msg_id = 0;
  polarity = 0;
  task_state = PdState.disabled;
  last_state = PdState.disabled;
  req_suspend_state = false;
  timeout_state = PdState.disabled;
  flags = 0;
  state_timeout = 0;
  src_recover = 0;
  cc_debounce = 0;
  cc_state = CcState.cc_none;
  tx_status = TxStatus.success;
  requested_idx = 0;
  curr_limit = 0;
  supply_voltage = 0;
  new_power_request = false;
  prev_request_mv = 0;
  try_src_marker = 0;
  vdm_state = VdmState.vdm_done;
  vdm_timeout = 0;
  vdo_data = seven_zeros;
  vdo_count = 0;
  vdo_retry = 0;
  drp_state = DrpState.freeze;
  pd_try_src_enable = false;
  head = 0;
  payload = seven_zeros;
  wake = 10000;
  cc1 = 0;
  cc2 = 0;
  incoming_packet = false;
  hard_reset_count = 0;
  next_role_swap = 40000;
  snk_hard_reset_vbus_off = false;
  typec_curr = 0;
  typec_curr_change = false;
  new_cc_state = CcState.cc_none;
  caps_count = 0;
  hard_reset_sent = false;
  snk_cap_count = 0;
  evt = 0;
  pd_src_caps = seven_zeros;
  pd_src_cap_cnt = 0;
  max_request_mv = 12000;
  pd_source_cap_current_index = 0;
  pd_source_cap_max_index = 0;
}

-- On a given bus, with the statics of the chip.
abbrev pub power_on_port : Bus → Clock → Port Chip
power_on_port bus clock =
    port_at
      (record {
        cc_polarity = pos 0;
        vconn_enabled = false;
        pulling_up = false;
        rx_enable = false;
        mdac_vnc = 0;
        mdac_rd = 0;
        bus = bus;
      })
      clock

abbrev pub power_on : Bus → Clock → Sketch
power_on bus clock = record {
  port = power_on_port bus clock;
  last_pressed = false;
  last_time = 0;
  led = false;
}

-- `setup`, and then one pass of `loop` for each reading of the inputs.
unfoldable pub run : ℕ → List Inputs → Bus → Clock → Sketch
unfolding run_loops
run fuel inputs bus clock = run_loops fuel inputs (setup fuel (power_on bus clock))
