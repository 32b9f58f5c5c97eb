-- ===== src/Examples/Chips.antt =====
-- The theorems on registers, CC lines, the button, the counter and served requests at concrete
-- inputs.
use noa_esp32_pd.Base.{
  ℕ, ◌+◌, ◌-◌, ◌/◌, ◌^◌, ◌≤◌, ◌≡◌, ◌⊎◌, refl, ◌==◌, true, false, [], ◌∷◌, arith, get_or, bit_and,
  leb, if◌then◌else◌,
}
use noa_esp32_pd.Base.Bits.{has}
use noa_esp32_pd.Fusb302.Chip.{Chip}
use noa_esp32_pd.Fusb302.Sense.{fusb302_tcpm_get_cc}
use noa_esp32_pd.Fusb302.Levels.{sink_level, measuring, put_back, get_cc-levels}
use noa_esp32_pd.Wire.{delay_us, written, requested}
use noa_esp32_pd.Fusb302.Registers.{switches0, status0}
use noa_esp32_pd.Message.Objects.{rdo_pos, rdo_cap_mismatch, pdo_type, pdo_type_battery}
use noa_esp32_pd.Policy.Request.{request_of}
use noa_esp32_pd.Policy.Bounds.{request-accepted}
use noa_esp32_pd.Policy.Served.{served-fits}
use noa_esp32_pd.Protocol.Port.{
  Port, Clock, TcpmDrv, snk_discovery, snk_requested, snk_hard_reset_recover,
  src_hard_reset_recover, hard_reset_send, hard_reset_execute,
}
use noa_esp32_pd.Protocol.Core.{read_time, entered, same_state, index, dual_role_if_else}
use noa_esp32_pd.Protocol.Sink
use noa_esp32_pd.Protocol.Reset.{pd_execute_hard_reset}
use noa_esp32_pd.Protocol.Run.{check_timeout}
use noa_esp32_pd.Protocol.Counter.{hard_reset_lem, unanswered-resets}
use noa_esp32_pd.Sketch.{
  Sketch, Inputs, on_button, next_index, power_on, power_on_port, fusb302_tcpm_drv,
}
use noa_esp32_pd.Sketch.{pd_client}
use noa_esp32_pd.Sketch.Alerts.{alert-resets}
use noa_esp32_pd.Fusb302.Alert.{handle}
use noa_esp32_pd.Fusb302.Registers.{interrupta_hardreset}
use noa_esp32_pd.Sketch.Button.{on_button-index, presses, presses-reach}
use noa_esp32_pd.Examples.Drivers.{quiet_bus, counting}

-- 5 V at 3 A
abbrev supply : ℕ
supply = 0x1912c

is_fixed : (pdo_type supply == pdo_type_battery) ≡ false
unfolding pdo_type
is_fixed = refl

abbrev request : ℕ
request = (request_of 0 supply).0

served-fits_example :
    let pdo_ma = bit_and (get_or (supply ∷ []) (rdo_pos request - 1) 0) 0x3ff in
    (1 ≤ rdo_pos request)
    × (rdo_pos request ≤ 1)
    × (bit_and (request / 2 ^ 10) 0x3ff ≤ pdo_ma)
    × ((bit_and request 0x3ff ≤ pdo_ma) ⊎ (has request rdo_cap_mismatch ≡ true))
served-fits_example =
    served-fits (supply ∷ []) 1 request
      (request-accepted (supply ∷ []) 1 0 (omega arith) (omega arith) is_fixed)

abbrev drv : TcpmDrv Chip
drv = fusb302_tcpm_drv 3

abbrev asking : Port Chip
asking = record (power_on_port quiet_bus counting) {
  task_state = snk_requested;
  last_state = snk_discovery;
  msg_id = 7;
}

hard_reset_lem_example :
    let v = pd_execute_hard_reset drv asking in
    (v.task_state
      ≡ dual_role_if_else asking.power_role snk_hard_reset_recover src_hard_reset_recover)
    × (v.msg_id ≡ 0)
    × (v.state_timeout ≡ 0)
    × (v.last_state ≡ hard_reset_execute)
    × (v.flags ≡ asking.flags)
hard_reset_lem_example = hard_reset_lem drv asking

-- 200 ms after the start
abbrev later : Clock
later = record { millis = λ n. 200; micros = λ n. 0; calls = 0 }

has_entered : entered asking ≡ true
unfolding entered same_state index
has_entered = refl

unanswered-resets_example :
    let v = record (Sink.run_snk_requested drv asking) { clock = later } in
    (check_timeout drv v).task_state ≡ (
      if leb ((read_time asking).1 + 100000) (read_time v).1
      then hard_reset_send
      else snk_requested)
unanswered-resets_example = unanswered-resets drv asking later has_entered refl

abbrev chip : Chip
chip = asking.tcpc

get_cc-levels_example :
    let n = chip.bus.asked in
    let a = chip.bus.answer in
    let w1 = measuring 2 3 (a n) in
    let w2 = measuring 3 2 (a (n + 1 + 1)) in
    let w3 = put_back 3 (a n) (put_back 2 (a n) (a (n + 1 + 1 + 1 + 1))) in
    let r = fusb302_tcpm_get_cc 0 0 chip in
    (r.1 ≡ (sink_level (a (n + 1)), sink_level (a (n + 1 + 1 + 1))))
    × (r.0.bus.sent
        ≡ written switches0 w3 (
            requested switches0 (
              requested status0 (
                delay_us 250
                ∷ written switches0 w2 (
                    requested switches0 (
                      requested status0 (
                        delay_us 250
                        ∷ written switches0 w1 (requested switches0 chip.bus.sent))))))))
    × (has w1 (2 ^ 2) ≡ true)
    × (has w1 (2 ^ 3) ≡ false)
    × (has w2 (2 ^ 3) ≡ true)
    × (has w2 (2 ^ 2) ≡ false)
    × (has w3 (2 ^ 2) ≡ has (a n) (2 ^ 2))
    × (has w3 (2 ^ 3) ≡ has (a n) (2 ^ 3))
    × (has w1 (2 ^ 0) ≡ has (a n) (2 ^ 0))
    × (has w2 (2 ^ 0) ≡ has (a (n + 1 + 1)) (2 ^ 0))
    × (has w3 (2 ^ 0) ≡ has (a (n + 1 + 1 + 1 + 1)) (2 ^ 0))
get_cc-levels_example = get_cc-levels 0 0 0 chip refl refl refl refl

abbrev press : Inputs
press = record { pressed = true; time = 50; int_low = false }

abbrev idle : Sketch
idle = power_on quiet_bus counting

on_button-index_example :
    let t = on_button press idle in
    t.port.pd_source_cap_current_index ≤ t.port.pd_source_cap_max_index
on_button-index_example = on_button-index press idle (omega arith)

presses-reach_example : (presses 3 4 0 ≡ 3) × (next_index 4 4 ≡ 0)
presses-reach_example = presses-reach 3 4 (omega arith)

-- A hard reset and the end of a transmission in one reading of INTERRUPTA
reports_reset : has 0x05 interrupta_hardreset ≡ true
unfolding has
reports_reset = refl

alert-resets_example :
    let v = handle (pd_client 3) 0 0x05 0 asking in
    (v.task_state
      ≡ dual_role_if_else asking.power_role snk_hard_reset_recover src_hard_reset_recover)
    × (v.msg_id ≡ 0)
    × (v.state_timeout ≡ 0)
    × (v.last_state ≡ hard_reset_execute)
    × (v.flags ≡ asking.flags)
alert-resets_example = alert-resets 3 0 0x05 0 asking reports_reset
