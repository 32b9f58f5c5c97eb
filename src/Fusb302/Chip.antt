-- ===== src/Fusb302/Chip.antt =====
-- NOA_ESP32_PD/FUSB302.cpp: the state that the driver keeps of the chip, the monad in which its
-- functions run, and the functions that flush a FIFO or change one register. There is one port
-- (CONFIG_USB_PD_PORT_COUNT is 1), so `state[port]` is a `Chip`.
use noa_esp32_pd.Base.{ℕ, Bool, List, if◌then◌else◌}
use noa_esp32_pd.Base.Bits.{has, set_bits, clear_bits}
use noa_esp32_pd.Base.Int.{ℤ}
use noa_esp32_pd.Wire.{delay_us, Bus, call, tcpc_read, tcpc_write, tcpc_xfer}
use noa_esp32_pd.Fusb302.Registers.{
  switches1, switches1_auto_gcrc, control0, control0_tx_flush, control1, control1_rx_flush,
  control3, control3_bist_tmode, reset, reset_pd_reset, status1, status1_rx_empty,
}

-- `struct fusb302_chip_state`, and the bus to the chip.
pub record Chip : Type 0 where
  pub cc_polarity : ℤ
  pub vconn_enabled : Bool
  pub pulling_up : Bool
  pub rx_enable : Bool
  pub mdac_vnc : ℕ
  pub mdac_rd : ℕ
  pub bus : Bus

-- The functions that return an int return one of the codes of `enum ec_error_list`.
pub data EcError : Type 0 where
  success unknown unimplemented inval : EcError

abbrev pub M : Type 0 → Type 0
M A = Chip → Chip × A

infixl 5 ◌>>=◌ ◌>>◌
abbrev pub ◌>>=◌ : {A B : Type 0} → M A → (A → M B) → M B
◌>>=◌ m f c = let r = m c in f r.1 r.0

abbrev pub ◌>>◌ : {A B : Type 0} → M A → M B → M B
◌>>◌ m k c = let r = m c in k r.0

abbrev pub pure : {A : Type 0} → A → M A
pure a c = (c, a)

abbrev pub get : M Chip
get c = (c, c)

abbrev pub skip : M (Unit {0})
skip c = (c, tt)

abbrev pub modify : (Chip → Chip) → M (Unit {0})
modify f c = (f c, tt)

unfoldable pub read : ℕ → M ℕ
unfolding tcpc_read
read reg c = let r = tcpc_read reg c.bus in (record c { bus = r.0 }, r.1)

unfoldable pub write : ℕ → ℕ → M (Unit {0})
unfolding tcpc_write
write reg val c = (record c { bus = tcpc_write reg val c.bus }, tt)

unfoldable pub xfer : List ℕ → ℕ → Bool → M (List ℕ)
unfolding tcpc_xfer
xfer out in_size stop c = let r = tcpc_xfer out in_size stop c.bus in (record c { bus = r.0 }, r.1)

-- `platform_usleep`, which calls `delayMicroseconds`.
unfoldable pub platform_usleep : ℕ → M (Unit {0})
unfolding call
platform_usleep us c = (record c { bus = call (delay_us us) c.bus }, tt)

unfoldable pub fusb302_pd_reset : M (Unit {0})
unfolding write
fusb302_pd_reset = write reset reset_pd_reset

unfoldable pub fusb302_flush_rx_fifo : M (Unit {0})
unfolding write
fusb302_flush_rx_fifo = write control1 control1_rx_flush

unfoldable pub fusb302_flush_tx_fifo : M (Unit {0})
unfolding read write
fusb302_flush_tx_fifo = do reg ← read control0; write control0 (set_bits reg control0_tx_flush)

unfoldable pub fusb302_auto_goodcrc_enable : Bool → M (Unit {0})
unfolding read write
fusb302_auto_goodcrc_enable enable = do
  reg ← read switches1
  write switches1
      (if enable then set_bits reg switches1_auto_gcrc else clear_bits reg switches1_auto_gcrc)

-- `tcpc_read` returns 0 always, so only the bit of the register counts.
unfoldable pub fusb302_rx_fifo_is_empty : M Bool
unfolding read
fusb302_rx_fifo_is_empty = do reg ← read status1; pure (has reg status1_rx_empty)

unfoldable pub fusb302_tcpm_set_bist_test_data : M (Unit {0})
unfolding read write
fusb302_tcpm_set_bist_test_data = do
  reg ← read control3
  write control3 (set_bits reg control3_bist_tmode)
