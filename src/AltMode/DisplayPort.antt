-- ===== src/AltMode/DisplayPort.antt =====
-- NOA_ESP32_PD/usb_pd_policy.cpp: the pin assignment for DisplayPort.
use noa_esp32_pd.Base.{ℕ, ◌^◌, ◌==◌, if◌then◌else◌, none, some, bit_or}
use noa_esp32_pd.Base.Bits.{has, clear_bits}
use noa_esp32_pd.Message.Modes.{
  usb_sid_displayport, dp_pin_caps, dpsts_mf_pref, mode_dp_pin_mf_mask, mode_dp_pin_br2_mask,
  mode_dp_pin_c, mode_dp_pin_d, mode_dp_pin_e, mode_dp_pin_f,
}
use noa_esp32_pd.AltMode.State.{Board, M, pure, ◌>>=◌, get_pe, deref}
use noa_esp32_pd.AltMode.Modes.{get_modep, mode_caps}

-- The pins of a mode without those for USB Gen 2, and without multi-function unless that is
-- preferred.
unfoldable pub slow_pins : ℕ → ℕ → ℕ
unfolding dp_pin_caps dpsts_mf_pref
slow_pins caps status =
    let pins = dp_pin_caps caps in
    let wanted = if dpsts_mf_pref status == 0 then clear_bits pins mode_dp_pin_mf_mask else pins in
    clear_bits wanted mode_dp_pin_br2_mask

-- The pins that remain to choose from.
unfoldable pub usable_pins : ℕ → ℕ → ℕ
unfolding slow_pins
usable_pins caps status =
    let pins = slow_pins caps status in
    if has pins (bit_or mode_dp_pin_c mode_dp_pin_d)
    then clear_bits pins (bit_or mode_dp_pin_e mode_dp_pin_f)
    else pins

-- `get_next_bit` is not of this repository: a parameter.
unfoldable pub pin_mode : (ℕ → ℕ) → ℕ → ℕ
pin_mode get_next_bit pins = if pins == 0 then 0 else 2 ^ get_next_bit pins

module _ {B : Type 0} (b : Board B) (get_next_bit : ℕ → ℕ) where
  unfoldable pub pd_dfp_dp_get_pin_mode : ℕ → M B ℕ
  unfolding usable_pins pin_mode get_modep mode_caps
  pd_dfp_dp_get_pin_mode status = do
    modep ← get_modep b usb_sid_displayport
    p ← get_pe
    elim modep [
      | none ↦ pure 0
      | some m ↦ do
        caps ← deref (mode_caps m.1 p)
        pure (pin_mode get_next_bit (usable_pins caps status))
    ]
