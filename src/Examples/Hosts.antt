-- ===== src/Examples/Hosts.antt =====
-- The theorems on the commands of a host at concrete inputs.
use noa_esp32_pd.Base.{ℕ, true, false, ◌≡◌, refl, arith, List, [], ◌∷◌}
use noa_esp32_pd.Fusb302.Chip.{Chip}
use noa_esp32_pd.Protocol.Port.{TcpmDrv}
use noa_esp32_pd.Host.Result.{EcResult}
use noa_esp32_pd.Host.RwHash.{
  RwHashEntry, RwHashTable, find_device, place_of, hc_remote_rw_hash_entry, pd_dev_store_rw_hash,
}
use noa_esp32_pd.Host.Lookup.{IsTable, rw_hash_recognised}
use noa_esp32_pd.Host.Control.{PdControl, Controlled}
use noa_esp32_pd.Host.Locked.{run_commands, commands_locked}
use noa_esp32_pd.Sketch.{power_on_port, fusb302_tcpm_drv}
use noa_esp32_pd.Examples.Drivers.{quiet_bus, counting}

-- Four devices are known, and the next one goes over the first.
abbrev device : ℕ → RwHashEntry
device id = record { dev_id = id; dev_rw_hash = id ∷ 7 ∷ []; current_image = 1 }

abbrev full_table : RwHashTable
full_table = record { entries = device 11 ∷ device 12 ∷ device 13 ∷ device 14 ∷ []; next_idx = 0 }

goes_first : place_of 15 full_table ≡ (0, 1)
unfolding place_of find_device
goes_first = refl

rw_hash_recognised_example :
    let r = hc_remote_rw_hash_entry (device 15) full_table in
    (r.1 ≡ EcResult.success)
    × IsTable r.0
    × (pd_dev_store_rw_hash 15 (15 ∷ 7 ∷ []) r.0 ≡ true)
    × (pd_dev_store_rw_hash 13 (13 ∷ 7 ∷ []) r.0 ≡ pd_dev_store_rw_hash 13 (13 ∷ 7 ∷ []) full_table)
rw_hash_recognised_example =
    rw_hash_recognised (device 15) full_table 13 (13 ∷ 7 ∷ []) refl (refl, omega arith) refl
      (rw (goes_first) refl)

abbrev drv : TcpmDrv Chip
drv = fusb302_tcpm_drv 3

abbrev running : Controlled Chip
running = record { port = power_on_port quiet_bus counting; comm_enabled = true; disabled = false }

abbrev attempts : List (ℕ × PdControl)
attempts = (0, PdControl.suspend) ∷ (1, PdControl.resume) ∷ (0, PdControl.disable) ∷ []

commands_locked_example :
    run_commands drv (λ w. w) false ((0, PdControl.disable) ∷ attempts) running
    ≡ record running { disabled = true }
commands_locked_example = commands_locked drv (λ w. w) false attempts running
