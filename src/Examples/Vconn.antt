-- ===== src/Examples/Vconn.antt =====
-- A swap of VCONN between two ports, at concrete inputs.
use noa_esp32_pd.Base.{◌^◌, ◌+◌, ◌≤◌, Bool, true, false, ◌≡◌, refl, [], arith}
use noa_esp32_pd.Base.Bits.{has}
use noa_esp32_pd.Board.Clock.{get_time}
use noa_esp32_pd.Fusb302.Chip.{Chip}
use noa_esp32_pd.Fusb302.Frame.{sop}
use noa_esp32_pd.Message.Types.Ctrl
use noa_esp32_pd.Protocol.Flags
use noa_esp32_pd.Protocol.Port.{source, snk_ready, src_ready, TcpmDrv, Clock}
use noa_esp32_pd.Protocol.Core.{index, has_flag, read_time}
use noa_esp32_pd.Protocol.Transmit.{port_header}
use noa_esp32_pd.Protocol.Vconn.State.{
  VconnPort, main, swap_send, swap_init, swap_ready, same_vconn, just_entered, on_ps_rdy_vconn,
  check_wait,
}
use noa_esp32_pd.Protocol.Vconn.Run.{run_vconn_swap_ready}
use noa_esp32_pd.Protocol.Vconn.Handover.{after_init, vconn_handed_over}
use noa_esp32_pd.Sketch.{power_on_port, fusb302_tcpm_drv}
use noa_esp32_pd.Examples.Drivers.{quiet_bus, counting}

abbrev drv : TcpmDrv Chip
drv = fusb302_tcpm_drv 3

-- The driver's note of VCONN is enough here.
abbrev set_vconn : Bool → Chip → Chip
set_vconn enable c = record c { vconn_enabled = enable }

abbrev supplier : VconnPort Chip
supplier = record {
  port = record (power_on_port quiet_bus counting) { power_role = source; flags = 2 ^ 12 };
  task_state = swap_init;
  last_state = main src_ready;
  timeout_state = main src_ready;
}

abbrev other : VconnPort Chip
other = record {
  port = power_on_port quiet_bus counting;
  task_state = swap_init;
  last_state = swap_send;
  timeout_state = main snk_ready;
}

abbrev later : Clock
later = record counting { calls = 9 }

entered_a : just_entered supplier ≡ true
unfolding just_entered same_vconn index
entered_a = refl

entered_b : just_entered other ≡ true
unfolding just_entered same_vconn index
entered_b = refl

on_a : has_flag supplier.port Flags.vconn_on ≡ true
unfolding has_flag has
on_a = refl

off_b : has_flag other.port Flags.vconn_on ≡ false
unfolding has_flag has
off_b = refl

late_enough : (read_time other.port).1 + 5000 ≤ (read_time (record other.port { clock = later })).1
unfolding read_time get_time
late_enough = omega arith

vconn_handed_over_example :
    let up = check_wait drv (after_init drv set_vconn 5000 later other) in
    let supplies = run_vconn_swap_ready drv set_vconn 5000 up in
    let told = on_ps_rdy_vconn drv (after_init drv set_vconn 5000 later supplier) in
    let stopped = run_vconn_swap_ready drv set_vconn 5000 told in
    ((up.task_state ≡ swap_ready) × (up.port.tcpc ≡ set_vconn true other.port.tcpc))
    × (((supplies.port.tcpc
            ≡ (drv.transmit sop (port_header Ctrl.ps_rdy 0 up.port) [] up.port.tcpc).0)
          × (has_flag supplies.port Flags.vconn_on ≡ true))
        × (((told.task_state ≡ swap_ready) × (told.port.tcpc ≡ supplier.port.tcpc))
            × ((stopped.port.tcpc ≡ set_vconn false supplier.port.tcpc)
                × (has_flag stopped.port Flags.vconn_on ≡ false))))
vconn_handed_over_example =
    vconn_handed_over drv set_vconn drv set_vconn 5000 supplier other later later refl entered_a
      on_a entered_b off_b refl (omega arith) late_enough
