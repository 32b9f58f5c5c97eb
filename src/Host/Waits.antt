-- ===== src/Host/Waits.antt =====
-- NOA_ESP32_PD/usb_pd_protocol.cpp: the waits of the host's commands for a VDM end.
use noa_esp32_pd.Base.{
  taken, not_taken, ℕ, zero, suc, ◌-◌, ◌≤◌, ◌<◌, ltb, true, false, Bool-cases, if◌then◌else◌, ◌≡◌,
  ◌∙◌, ◌⊎◌, inl, inr, some, arith,
}
use noa_esp32_pd.Protocol.Port.{Clock, Port}
use noa_esp32_pd.Protocol.Core.{read_time}
use noa_esp32_pd.Host.Flash.{vdm_pending, wait_vdm}
use noa_esp32_pd.Host.Delivery.{ticked, reading, wait_again}

-- The reading that was taken last.
abbrev pub last_reading : Clock → ℕ
last_reading k = reading (record { millis = k.millis; micros = k.micros; calls = k.calls - 1 })

-- A wait is over: no VDM is pending, or the time has come.
abbrev pub IsOver : {S : Type 0} → ℕ → Port S → Type 0
IsOver timeout v = (vdm_pending v.vdm_state ≡ false) ⊎ (timeout ≤ last_reading v.clock)

module _ {S : Type 0} (others : Port S → Port S) (Ok : Port S → Type 0) (timeout : ℕ)
    (passes : (w : Port S)
      → Ok w
      → reading w.clock < timeout
      → let v = others (record w { clock = ticked w.clock }) in
        Ok v × (reading w.clock < reading v.clock)) where
  not_waiting :
      (fuel : ℕ) (w : Port S)
      → vdm_pending w.vdm_state ≡ false
      → wait_vdm others (suc fuel) timeout w ≡ some w
  unfolding wait_vdm reading read_time
  not_waiting fuel w h =
      let v : Port S = record w { clock = ticked w.clock } in
      let rest = wait_vdm others fuel timeout (others v) in
      not_taken (vdm_pending w.vdm_state) (if ltb (reading w.clock) timeout then rest else some v)
        (some w) h

  too_late :
      (fuel : ℕ) (w : Port S)
      → vdm_pending w.vdm_state ≡ true
      → ltb (reading w.clock) timeout ≡ false
      → wait_vdm others (suc fuel) timeout w ≡ some (record w { clock = ticked w.clock })
  unfolding wait_vdm reading read_time
  too_late fuel w h g =
      let v : Port S = record w { clock = ticked w.clock } in
      let rest = wait_vdm others fuel timeout (others v) in
      taken (vdm_pending w.vdm_state) (if ltb (reading w.clock) timeout then rest else some v)
        (some w) h
      ∙ not_taken (ltb (reading w.clock) timeout) rest (some v) g

  -- While time passes from one test of the loop to the next, up to the time limit, the wait for a
  -- VDM ends when it is given more rounds than there are microseconds left: no VDM is pending then,
  -- or the limit has been read.
  pub wait_vdm-ends :
      (fuel : ℕ) (w : Port S)
      → Ok w
      → timeout - reading w.clock < fuel
      → (v : Port S) × ((wait_vdm others fuel timeout w ≡ some v) × IsOver timeout v)
  unfolding wait_vdm reading
  wait_vdm-ends zero w ok enough = absurd (omega arith)
  wait_vdm-ends (suc fuel) w ok enough = elim (Bool-cases (vdm_pending w.vdm_state)) [
    | inr idle ↦ (w, (not_waiting fuel w idle, inl idle))
    | inl pending ↦ elim (Bool-cases (ltb (reading w.clock) timeout)) [
      | inr late ↦
          (record w { clock = ticked w.clock }, (too_late fuel w pending late, inr (ground arith)))
      | inl early ↦
          let p = passes w ok (ground arith) in
          let v = others (record w { clock = ticked w.clock }) in
          let r = wait_vdm-ends fuel v p.0 (ground (arith, p.1)) in
          (r.0, (wait_again others fuel timeout w pending early ∙ r.1.0, r.1.1))
    ]
  ]
