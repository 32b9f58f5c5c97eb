-- ===== src/Examples/SinkSteps.antt =====
-- A sink that takes a step of its policy, at a concrete input.
use noa_esp32_pd.Base.{◌==◌, true, if◌then◌else◌, ◌≡◌, refl, [], ◌∷◌}
use noa_esp32_pd.Fusb302.Chip.{Chip}
use noa_esp32_pd.Message.Header.{header_type, header_cnt}
use noa_esp32_pd.Protocol.Port.{Port, TcpmDrv, snk_discovery}
use noa_esp32_pd.Protocol.Core.{index, has_flag}
use noa_esp32_pd.Protocol.Flags
use noa_esp32_pd.Protocol.Control.{handle_request}
use noa_esp32_pd.Protocol.SinkOnly.{is_sink_side}
use noa_esp32_pd.Protocol.SinkPolicy.{SinkStep, ctrl_input, data_input}
use noa_esp32_pd.Protocol.SinkRefines.Received.{handle_request-refines}
use noa_esp32_pd.Sketch.{power_on_port, fusb302_tcpm_drv}
use noa_esp32_pd.Examples.Drivers.{quiet_bus, counting}

abbrev discovering : Port Chip
discovering = record (power_on_port quiet_bus counting) { task_state = snk_discovery }

abbrev drv : TcpmDrv Chip
drv = fusb302_tcpm_drv 3

on_sink_side : is_sink_side snk_discovery ≡ true
unfolding is_sink_side index
on_sink_side = refl

handle_request-refines_example :
    SinkStep
      (has_flag discovering Flags.explicit_contract)
      (if header_cnt 0x1001 == 0
        then ctrl_input (header_type 0x1001)
        else data_input (header_type 0x1001))
      snk_discovery
      (handle_request drv 0x1001 (0x1912c ∷ []) discovering).task_state
handle_request-refines_example =
    handle_request-refines drv discovering refl on_sink_side 0x1001 (0x1912c ∷ [])
