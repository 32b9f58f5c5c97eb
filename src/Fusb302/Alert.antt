-- ===== src/Fusb302/Alert.antt =====
-- NOA_ESP32_PD/FUSB302.cpp: `fusb302_tcpc_alert`. It calls back into the protocol layer, so it runs
-- on the state `W` of its client, which holds the chip.
use noa_esp32_pd.Base.{ℕ, Bool, if◌then◌else◌}
use noa_esp32_pd.Base.Bits.{has, clear_bits}
use noa_esp32_pd.Fusb302.Registers.{
  interrupt, interrupta, interruptb, interrupt_bc_lvl, interrupt_collision, interrupta_tx_success,
  interrupta_retryfail, interrupta_hardsent, interrupta_hardreset, interruptb_gcrcsent,
}
use noa_esp32_pd.Fusb302.Chip.{Chip, M, read, fusb302_pd_reset, fusb302_flush_rx_fifo}

-- `enum tcpc_transmit_complete`
pub data TxStatus : Type 0 where
  success discarded failed : TxStatus

-- What the driver calls of the protocol layer, and where the chip lies in its state.
pub record Client (W : Type 0) : Type 0 where
  pub chip : W → Chip
  pub set_chip : Chip → W → W
  pub pd_transmit_complete : TxStatus → W → W
  pub pd_execute_hard_reset : W → W

module _ {W : Type 0} (client : Client W) where
  unfoldable pub on_chip : M (Unit {0}) → W → W
  on_chip m w = client.set_chip (m (client.chip w)).0 w

  unfoldable pub when : Bool → (W → W) → W → W
  when b f w = if b then f w else w

  -- The handlers in the order of the source; `int`, `int_a` and `int_b` are the values read from
  -- the interrupt registers. A CC level change has no effect left in the source.
  unfoldable pub handle : ℕ → ℕ → ℕ → W → W
  unfolding when on_chip
  handle int int_a int_b w0 =
      let w1 = when (has int interrupt_collision) (client.pd_transmit_complete failed) w0 in
      let w2 = when (has int_a interrupta_tx_success) (client.pd_transmit_complete success) w1 in
      let w3 = when (has int_a interrupta_retryfail) (client.pd_transmit_complete failed) w2 in
      let w4 =
        when (has int_a interrupta_hardsent)
          (λ w. client.pd_transmit_complete success (on_chip fusb302_pd_reset w)) w3 in
      let w5 =
        when (has int_a interrupta_hardreset)
          (λ w. client.pd_execute_hard_reset (on_chip fusb302_pd_reset w)) w4 in
      when (has int_b interruptb_gcrcsent)
        (λ w. if (client.chip w).rx_enable then w else on_chip fusb302_flush_rx_fifo w) w5

  -- Reading the interrupt registers clears them in the chip.
  unfoldable pub fusb302_tcpc_alert : W → W
  unfolding handle
  fusb302_tcpc_alert w =
      let r1 = read interrupt (client.chip w) in
      let r2 = read interrupta r1.0 in
      let r3 = read interruptb r2.0 in
      let c = r3.0 in
      let int = if c.rx_enable then clear_bits r1.1 interrupt_bc_lvl else r1.1 in
      handle int r2.1 r3.1 (client.set_chip c w)
