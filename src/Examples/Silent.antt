-- ===== src/Examples/Silent.antt =====
-- A sink whose source stays silent, at a concrete input.
use noa_esp32_pd.Base.{◌+◌, ◌*◌, ◌≤◌, false, ◌≡◌, refl, [], ◌∷◌, arith}
use noa_esp32_pd.Board.Clock.{get_time}
use noa_esp32_pd.Base.Bits.{has}
use noa_esp32_pd.Fusb302.Alert.{TxStatus}
use noa_esp32_pd.Fusb302.Chip.{Chip, EcError}
use noa_esp32_pd.Fusb302.Frame.{Received}
use noa_esp32_pd.Protocol.Flags
use noa_esp32_pd.Protocol.Port.{
  TcpmDrv, Port, snk_disconnected_debounce, snk_discovery, snk_hard_reset_recover, hard_reset_send,
  hard_reset_execute,
}
use noa_esp32_pd.Protocol.Core.{msec, has_flag, same_state, index}
use noa_esp32_pd.Protocol.Silence.Quiet.{time_at, surroundings, calm, HardResetLog}
use noa_esp32_pd.Protocol.Silence.Recovery.{states_after, silent_source}
use noa_esp32_pd.Sketch.{power_on_port}
use noa_esp32_pd.Examples.Drivers.{quiet_bus, counting}

abbrev unheard : TcpmDrv Chip
unheard = record {
  init = λ s. (s, EcError.success);
  release = λ s. (s, EcError.success);
  get_cc = λ a b s. (s, (6, 0));
  select_rp_value = λ v s. (s, EcError.success);
  set_cc = λ v s. (s, EcError.success);
  set_polarity = λ v s. (s, EcError.success);
  set_msg_header = λ a b s. (s, EcError.success);
  set_rx_enable = λ e s. (s, EcError.success);
  get_message = λ s. (s, Received.nothing);
  transmit = λ t h d s. (record s { mdac_rd = s.mdac_rd + 1 }, EcError.success);
}

-- A second passes between two readings of the time.
abbrev waiting : Port Chip
waiting = record (power_on_port quiet_bus counting) {
  task_state = snk_discovery;
  last_state = snk_disconnected_debounce;
  tx_status = TxStatus.success;
  tcpc = record (power_on_port quiet_bus counting).tcpc { mdac_rd = 0 };
  flags = 0;
  clock = record { millis = λ n. n * 1000; micros = λ n. n * 1000000; calls = 0 };
}

new_state : same_state waiting.last_state snk_discovery ≡ false
unfolding same_state index
new_state = refl

waiting-calm : surroundings waiting ≡ calm
unfolding surroundings
waiting-calm = refl

vbus_seen : has_flag waiting Flags.vbus_never_low ≡ false
unfolding has_flag has
vbus_seen = refl

a_second_later :
    (time_at waiting.clock 0 + msec 600 ≤ time_at waiting.clock 1)
    × (time_at waiting.clock 4 + msec 650 ≤ time_at waiting.clock 5)
    × (time_at waiting.clock 8 + msec 650 ≤ time_at waiting.clock 9)
unfolding time_at get_time
a_second_later = (omega arith, omega arith, omega arith)

-- The driver counts the transmissions in a field of the chip that it does not use otherwise.
abbrev counted : HardResetLog unheard
counted = record {
  sent = λ s. s.mdac_rd;
  transmitted = λ h d s. refl;
  heard = λ s. refl;
  enabled = λ on s. refl;
  looked = λ a b s. refl;
}

silent_source_example :
    states_after unheard (λ s. refl) counted 7 waiting
    ≡ (hard_reset_send, 0)
      ∷ (hard_reset_execute, 1)
      ∷ (snk_hard_reset_recover, 1)
      ∷ (hard_reset_send, 1)
      ∷ (hard_reset_execute, 2)
      ∷ (snk_hard_reset_recover, 2)
      ∷ (snk_discovery, 2)
      ∷ []
silent_source_example =
    silent_source unheard (λ s. refl) counted waiting refl new_state waiting-calm refl refl
      vbus_seen a_second_later.0 a_second_later.1 a_second_later.2
