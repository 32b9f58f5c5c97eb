-- ===== src/Examples/Cable.antt =====
-- Two ports that negotiate, at concrete inputs.
use noa_esp32_pd.Base.{ℕ, ◌*◌}
use noa_esp32_pd.Fusb302.Chip.{Chip}
use noa_esp32_pd.Message.Types.Ctrl
use noa_esp32_pd.Message.Types.DataMsg
use noa_esp32_pd.Protocol.Flags
use noa_esp32_pd.Protocol.Port.{source, TcpmDrv, Port, Clock, snk_discovery, src_discovery}
use noa_esp32_pd.Protocol.Transmit.{port_header}
use noa_esp32_pd.Protocol.SourceSide.{after_offer, after_request}
use noa_esp32_pd.Sketch.{power_on_port, fusb302_tcpm_drv}
use noa_esp32_pd.Examples.Drivers.{quiet_bus, counting}

abbrev drv : TcpmDrv Chip
drv = fusb302_tcpm_drv 3

abbrev snk : Port Chip
snk = record (power_on_port quiet_bus counting) { task_state = snk_discovery }

abbrev offering : Port Chip
offering = record (power_on_port quiet_bus counting) {
  task_state = src_discovery;
  power_role = source;
}

-- A second after the start, and two.
abbrev clock_at : ℕ → Clock
clock_at n = record { millis = λ i. n * 1000; micros = λ i. 0; calls = 0 }

abbrev accepting : Port Chip
accepting = after_request drv (port_header DataMsg.request 1 snk) (after_offer drv offering)
