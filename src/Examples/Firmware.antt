-- ===== src/Examples/Firmware.antt =====
-- Firmware update by the host and its waits, at concrete inputs.
use noa_esp32_pd.Base.{
  ℕ, ◌+◌, ◌*◌, ◌≤◌, ◌<◌, ◌==◌, false, if◌then◌else◌, ◌≡◌, refl, List, [], ◌∷◌, ◌++◌, some, get_or,
  take, arith,
}
use noa_esp32_pd.Protocol.Port.{VdmState, Clock, Port}
use noa_esp32_pd.Host.Result.{EcResult}
use noa_esp32_pd.Host.Flash.{FwCmd, vdm_pending, wait_vdm, hc_remote_flash}
use noa_esp32_pd.Host.Delivery.{
  ticked, reading, write_header, queued, Delivers, hc_remote_flash-delivers,
}
use noa_esp32_pd.Host.Waits.{IsOver, wait_vdm-ends}
use noa_esp32_pd.Sketch.{port_at}
use noa_esp32_pd.Examples.Drivers.{counting}

-- A device that takes each message of words as it is queued: the words it has so far.
abbrev deliver : Port (List ℕ) → Port (List ℕ)
deliver w = record w {
  tcpc = if get_or w.vdo_data 0 0 == write_header then w.tcpc ++ queued w else w.tcpc;
  vdm_state = VdmState.vdm_done;
}

-- The counters of the clock are those of `counting`, however often they were read.
abbrev IsCounting : List ℕ → Clock → Type 0
IsCounting s k = (k.millis ≡ counting.millis) × (k.micros ≡ counting.micros)

soon : (k : Clock) → IsCounting [] k → reading (ticked k) < reading k + 500 * 1000
unfolding reading
soon k (m, u) = rw (m, u) omega arith

deliver_lem : Delivers deliver IsCounting (λ s. s)
unfolding write_header
deliver_lem = record {
  reads = λ s k ok. ok;
  in_time = λ s k ok. soon k ok;
  delivers = λ w ok ready header seven. ((refl, seven), (ok, rw (header) refl));
}

abbrev offline : Port (List ℕ)
offline = port_at [] counting

-- 8 words take two messages.
abbrev image : List ℕ
image = 11 ∷ 12 ∷ 13 ∷ 14 ∷ 15 ∷ 16 ∷ 17 ∷ 18 ∷ []

idle : vdm_pending offline.vdm_state ≡ false
unfolding vdm_pending
idle = refl

hc_remote_flash-delivers_example :
    (v : Port (List ℕ)) × ((hc_remote_flash deliver 8 2
          (record {
            port = 0;
            cmd = FwCmd.flash_write;
            size = 8 * 4;
            data' = image;
            params_size = 40;
          })
          offline
        ≡ some (v, EcResult.success))
      × (v.tcpc ≡ [] ++ take 8 image))
hc_remote_flash-delivers_example =
    hc_remote_flash-delivers deliver IsCounting (λ s. s) deliver_lem 8 0 8 40 image offline
      (omega arith) (omega arith) (omega arith) ((refl, refl), refl) idle

-- A VDM machine that gives up, as it does for a port without a partner.
abbrev give_up : Port (List ℕ) → Port (List ℕ)
give_up w = record w { vdm_state = VdmState.err_busy }

-- The host is told of success though no word was sent.
unsent_words :
    (v : Port (List ℕ)) × ((hc_remote_flash give_up 8 2
          (record {
            port = 0;
            cmd = FwCmd.flash_write;
            size = 8 * 4;
            data' = image;
            params_size = 40;
          })
          offline
        ≡ some (v, EcResult.success))
      × ((v.vdm_state ≡ VdmState.err_busy) × (v.tcpc ≡ [])))
unfolding hc_remote_flash
unsent_words = (_, (refl, (refl, refl)))

-- Nothing moves on but the clock.
abbrev stuck_vdm : Port (List ℕ)
stuck_vdm = record offline { vdm_state = VdmState.vdm_busy }

abbrev IsEarly : Port (List ℕ) → Type 0
IsEarly w = IsCounting [] w.clock × (w.clock.calls ≤ 10)

IsEarly-passes :
    (w : Port (List ℕ))
    → IsEarly w
    → reading w.clock < 5000
    → (IsEarly (record w { clock = ticked w.clock })) × (reading w.clock < reading (ticked w.clock))
unfolding reading
IsEarly-passes w ((m, u), c) h =
    let at : reading w.clock ≡ w.clock.calls * 1000 = rw (m, u) omega arith in
    let next : reading (ticked w.clock) ≡ (w.clock.calls + 1) * 1000 = rw (m, u) omega arith in
    (((m, u), omega (arith, at, h)), omega (arith, at, next))

wait_vdm-ends_example :
    (v : Port (List ℕ)) × ((wait_vdm (λ w. w) 5001 5000 stuck_vdm ≡ some v) × IsOver 5000 v)
unfolding reading
wait_vdm-ends_example =
    wait_vdm-ends (λ w. w) IsEarly 5000 IsEarly-passes 5001 stuck_vdm ((refl, refl), omega arith)
      (omega arith)
