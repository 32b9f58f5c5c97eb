-- ===== src/Sketch/Alerts.antt =====
-- NOA_ESP32_PD/FUSB302.cpp with usb_pd_protocol.cpp: a hard reset that `fusb302_tcpc_alert` finds.
use noa_esp32_pd.Base.{
  ℕ, Bool, true, false, ◌≡◌, ◌∙◌, refl, ap, inl, inr, Bool-cases, if◌then◌else◌,
}
use noa_esp32_pd.Base.Bits.{has}
use noa_esp32_pd.Fusb302.Chip.{Chip, M, fusb302_pd_reset, fusb302_flush_rx_fifo}
use noa_esp32_pd.Fusb302.Registers.{
  interrupt_collision, interrupta_tx_success, interrupta_retryfail, interrupta_hardsent,
  interrupta_hardreset, interruptb_gcrcsent,
}
use noa_esp32_pd.Fusb302.Alert.{TxStatus, on_chip, when, handle}
use noa_esp32_pd.Protocol.Port.{
  Port, PowerRole, snk_hard_reset_recover, src_hard_reset_recover, hard_reset_execute,
}
use noa_esp32_pd.Protocol.Core.{pd_transmit_complete, dual_role_if_else}
use noa_esp32_pd.Protocol.Reset.{pd_execute_hard_reset}
use noa_esp32_pd.Protocol.Counter.{hard_reset_lem}
use noa_esp32_pd.Sketch.{pd_client, fusb302_tcpm_drv}

abbrev Keeps : (Port Chip → Port Chip) → Type 0
Keeps f = (w : Port Chip) → ((f w).power_role ≡ w.power_role) × ((f w).flags ≡ w.flags)

complete-Keeps : (status : TxStatus) → Keeps (pd_transmit_complete status)
unfolding pd_transmit_complete
complete-Keeps TxStatus.success w = (refl, refl)
complete-Keeps TxStatus.discarded w = (refl, refl)
complete-Keeps TxStatus.failed w = (refl, refl)

module _ (fuel : ℕ) where
  when-Keeps : (b : Bool) (f : Port Chip → Port Chip) → Keeps f → Keeps (when (pd_client fuel) b f)
  unfolding when
  when-Keeps true f k w = k w
  when-Keeps false f k w = (refl, refl)

  compose-Keeps : (f g : Port Chip → Port Chip) → Keeps f → Keeps g → Keeps (λ w. g (f w))
  compose-Keeps f g kf kg w = ((kg (f w)).0 ∙ (kf w).0, (kg (f w)).1 ∙ (kf w).1)

  chip-Keeps : (m : M (Unit {0})) → Keeps (on_chip (pd_client fuel) m)
  unfolding on_chip
  chip-Keeps m w = (refl, refl)

  -- What the alert does before it looks at the hard reset.
  abbrev before : ℕ → ℕ → Port Chip → Port Chip
  before int int_a w0 =
      let c = pd_client fuel in
      let w1 = when c (has int interrupt_collision) (pd_transmit_complete TxStatus.failed) w0 in
      let w2 =
        when c (has int_a interrupta_tx_success) (pd_transmit_complete TxStatus.success) w1 in
      let w3 = when c (has int_a interrupta_retryfail) (pd_transmit_complete TxStatus.failed) w2 in
      let w4 =
        when c (has int_a interrupta_hardsent)
          (λ w. pd_transmit_complete TxStatus.success (on_chip c fusb302_pd_reset w)) w3 in
      on_chip c fusb302_pd_reset w4

  before-Keeps : (int int_a : ℕ) → Keeps (before int int_a)
  before-Keeps int int_a =
      let c = pd_client fuel in
      let reset = on_chip c fusb302_pd_reset in
      let sent : Port Chip → Port Chip = λ w. pd_transmit_complete TxStatus.success (reset w) in
      let f1 = when c (has int interrupt_collision) (pd_transmit_complete TxStatus.failed) in
      let f2 = when c (has int_a interrupta_tx_success) (pd_transmit_complete TxStatus.success) in
      let f3 = when c (has int_a interrupta_retryfail) (pd_transmit_complete TxStatus.failed) in
      let f4 = when c (has int_a interrupta_hardsent) sent in
      let k1 = when-Keeps (has int interrupt_collision) _ (complete-Keeps TxStatus.failed) in
      let k2 = when-Keeps (has int_a interrupta_tx_success) _ (complete-Keeps TxStatus.success) in
      let k3 = when-Keeps (has int_a interrupta_retryfail) _ (complete-Keeps TxStatus.failed) in
      let k4 = when-Keeps (has int_a interrupta_hardsent) sent (
        compose-Keeps reset (pd_transmit_complete TxStatus.success) (chip-Keeps fusb302_pd_reset)
          (complete-Keeps TxStatus.success)) in
      compose-Keeps (λ w. f4 (f3 (f2 (f1 w)))) reset
        (compose-Keeps (λ w. f3 (f2 (f1 w))) f4
          (compose-Keeps (λ w. f2 (f1 w)) f3 (compose-Keeps f1 f2 k1 k2) k3) k4)
        (chip-Keeps fusb302_pd_reset)

  -- How `pd_execute_hard_reset` leaves a port with this role and these flags.
  abbrev Recovering : PowerRole → ℕ → Port Chip → Type 0
  Recovering role flags v =
      (v.task_state ≡ dual_role_if_else role snk_hard_reset_recover src_hard_reset_recover)
      × (v.msg_id ≡ 0)
      × (v.state_timeout ≡ 0)
      × (v.last_state ≡ hard_reset_execute)
      × (v.flags ≡ flags)

  hard_reset-Recovering :
      (role : PowerRole) (flags : ℕ) (u : Port Chip)
      → u.power_role ≡ role
      → u.flags ≡ flags
      → Recovering role flags (pd_execute_hard_reset (fusb302_tcpm_drv fuel) u)
  hard_reset-Recovering role flags u p q =
      let h = hard_reset_lem (fusb302_tcpm_drv fuel) u in
      let state = ap (λ r. dual_role_if_else r snk_hard_reset_recover src_hard_reset_recover) p in
      (h.0 ∙ state, h.1, h.2, h.3, h.4 ∙ q)

  flush-Recovering :
      (b : Bool) (role : PowerRole) (flags : ℕ) (v : Port Chip)
      → Recovering role flags v
      → Recovering role flags (
          when
            (pd_client fuel)
            b
            (λ w. if w.tcpc.rx_enable then w else on_chip (pd_client fuel) fusb302_flush_rx_fifo w)
            v)
  unfolding when on_chip
  flush-Recovering false role flags v h = h
  flush-Recovering true role flags v h = elim (Bool-cases v.tcpc.rx_enable) [
    | inl e ↦ rw (e) h
    | inr e ↦ rw (e) h
  ]

  -- A hard reset that the chip reports, with whatever other interrupts: the port is in the recovery
  -- state of its role, its message counter is 0 also when a transmission was completed at the same
  -- time, its timer is stopped, and the flags stay.
  pub alert-resets :
      (int int_a int_b : ℕ) (w : Port Chip)
      → has int_a interrupta_hardreset ≡ true
      → let v = handle (pd_client fuel) int int_a int_b w in
        (v.task_state
          ≡ dual_role_if_else w.power_role snk_hard_reset_recover src_hard_reset_recover)
        × (v.msg_id ≡ 0)
        × (v.state_timeout ≡ 0)
        × (v.last_state ≡ hard_reset_execute)
        × (v.flags ≡ w.flags)
  unfolding handle
  alert-resets int int_a int_b w h =
      let u = before int int_a w in
      let k = before-Keeps int int_a w in
      rw (h) (
        flush-Recovering (has int_b interruptb_gcrcsent) w.power_role w.flags
          (pd_execute_hard_reset (fusb302_tcpm_drv fuel) u)
          (hard_reset-Recovering w.power_role w.flags u k.0 k.1))
