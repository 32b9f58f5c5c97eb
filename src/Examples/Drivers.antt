-- ===== src/Examples/Drivers.antt =====
-- The theorems on the sketch, the port and the FUSB302 at concrete inputs: a bus that answers 0, or
-- a GoodCRC packet and then nothing, and a clock that counts its calls.
use noa_esp32_pd.Base.{◌*◌, ◌==◌, ◌≡◌, refl, true, false, List, [], ◌∷◌, if◌then◌else◌, arith}
use noa_esp32_pd.Base.Bits.{has}
use noa_esp32_pd.Wire.{Bus}
use noa_esp32_pd.Fusb302.Chip.{Chip}
use noa_esp32_pd.Fusb302.Registers.{status1_rx_empty}
use noa_esp32_pd.Fusb302.Frame.{fusb302_tcpm_get_message}
use noa_esp32_pd.Fusb302.PullDown.{PullsDown}
use noa_esp32_pd.Fusb302.Receive.{get_message-returns, is_returned, is_sound}
use noa_esp32_pd.Protocol.Port.{Clock}
use noa_esp32_pd.Protocol.SinkOnly.{IsSinkOnly, is_sink_side}
use noa_esp32_pd.Protocol.SinkOnly.Runs.{run_state_machine-IsSinkOnly}
use noa_esp32_pd.Protocol.Run.{pd_run_state_machine}
use noa_esp32_pd.Protocol.Core.{index}
use noa_esp32_pd.Sketch.{Inputs, run, power_on_port, fusb302_tcpm_drv}
use noa_esp32_pd.Sketch.SinkOnly.{run-IsSinkOnly, fusb302_keeps}

abbrev pub quiet_bus : Bus
quiet_bus = record { sent = []; answer = λ n. 0; asked = 0 }

abbrev good_crc_bus : Bus
good_crc_bus = record {
  sent = [];
  answer = λ n. if n == 8 then 0x20 else if n == 2 then 1 else 0;
  asked = 0;
}

abbrev pub counting : Clock
counting = record { millis = λ n. n; micros = λ n. 1000 * n; calls = 0 }

abbrev passes : List Inputs
passes =
    record { pressed = true; time = 10; int_low = true }
    ∷ record { pressed = false; time = 20; int_low = false }
    ∷ []

run-IsSinkOnly_example : IsSinkOnly PullsDown (run 3 passes quiet_bus counting).port
run-IsSinkOnly_example = run-IsSinkOnly 3 passes quiet_bus counting

start-IsSinkOnly : IsSinkOnly PullsDown (power_on_port quiet_bus counting)
unfolding is_sink_side index
start-IsSinkOnly = record {
  safe = record { down = refl; no_vconn = refl };
  port = (refl, refl, refl, refl, omega arith, refl, refl);
}

run_state_machine-IsSinkOnly_example :
    IsSinkOnly PullsDown
      (pd_run_state_machine (fusb302_tcpm_drv 3) true (power_on_port quiet_bus counting))
run_state_machine-IsSinkOnly_example =
    run_state_machine-IsSinkOnly (fusb302_tcpm_drv 3) PullsDown (fusb302_keeps 3) true
      (power_on_port quiet_bus counting) start-IsSinkOnly

abbrev good_crc_chip : Chip
good_crc_chip = (power_on_port good_crc_bus counting).tcpc

empty_then : has ((good_crc_bus).answer 8) status1_rx_empty ≡ true
unfolding has
empty_then = refl

get_message-returns_example :
    let r = (fusb302_tcpm_get_message 1 good_crc_chip).1 in
    (is_returned r ≡ true) × (is_sound r ≡ true)
get_message-returns_example = get_message-returns 1 1 good_crc_chip (omega arith) empty_then
