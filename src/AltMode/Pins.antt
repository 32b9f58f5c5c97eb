-- ===== src/AltMode/Pins.antt =====
-- NOA_ESP32_PD/usb_pd_policy.cpp: which pin assignment `pd_dfp_dp_get_pin_mode` chooses.
use noa_esp32_pd.Base.{
  ℕ, ◌/◌, ◌^◌, ◌<◌, ◌==◌, ltb, ◌&&◌, not, Bool, true, false, ◌≡◌, ◌⊎◌, inl, inr, bit_or, arith,
  Bool-cases,
}
use noa_esp32_pd.Base.Bits.{has, clear_bits, has-clear_bits, clear_bits_le}
use noa_esp32_pd.Base.Bits.Fields.{bit_and_mask}
use noa_esp32_pd.Message.Modes.{
  dp_pin_caps, dpsts_mf_pref, mode_dp_pin_mf_mask, mode_dp_pin_br2_mask, mode_dp_pin_c,
  mode_dp_pin_d, mode_dp_pin_e, mode_dp_pin_f,
}
use noa_esp32_pd.AltMode.DisplayPort.{slow_pins, usable_pins, pin_mode}

abbrev pub is_cd : ℕ → Bool
is_cd pins = has pins (bit_or mode_dp_pin_c mode_dp_pin_d)

has-clear :
    (k x m : ℕ)
    → ltb k 32 ≡ true
    → m < 2 ^ 32
    → has (clear_bits x m) (2 ^ k) ≡ (has x (2 ^ k) && not (has m (2 ^ k)))
has-clear k x m h g = has-clear_bits k x m (ground arith) g

has-slow_pins :
    (caps status k : ℕ)
    → ltb k 32 ≡ true
    → has (slow_pins caps status) (2 ^ k) ≡ (
        has (dp_pin_caps caps) (2 ^ k)
        && not ((dpsts_mf_pref status == 0) && has mode_dp_pin_mf_mask (2 ^ k))
        && not (has mode_dp_pin_br2_mask (2 ^ k)))
unfolding slow_pins
has-slow_pins caps status k h =
    let pins = dp_pin_caps caps in
    ground (
      arith,
      has-clear k (clear_bits pins mode_dp_pin_mf_mask) mode_dp_pin_br2_mask h (omega arith),
      has-clear k pins mode_dp_pin_br2_mask h (omega arith),
      has-clear k pins mode_dp_pin_mf_mask h (omega arith),
    )

has-usable_pins :
    (caps status k : ℕ)
    → ltb k 32 ≡ true
    → has (usable_pins caps status) (2 ^ k) ≡ (
        has (slow_pins caps status) (2 ^ k)
        && not (is_cd (slow_pins caps status) && has 0x30 (2 ^ k)))
unfolding usable_pins
has-usable_pins caps status k h =
    let pins = slow_pins caps status in ground (arith, has-clear k pins 0x30 h (omega arith))

-- `get_next_bit` gives the place of a bit that is set, in a word of 32 bits that is not 0.
abbrev pub FindsBit : (ℕ → ℕ) → Type 0
FindsBit next =
    (x : ℕ) → x < 2 ^ 32 → (x == 0) ≡ false → (has x (2 ^ next x) ≡ true) × (next x < 32)

pin_caps_le : (caps : ℕ) → dp_pin_caps caps < 64
unfolding dp_pin_caps
pin_caps_le caps = ground (arith, bit_and_mask 6 (caps / 2 ^ 16), bit_and_mask 6 (caps / 2 ^ 8))

usable_pins_le : (caps status : ℕ) → usable_pins caps status < 2 ^ 32
unfolding usable_pins slow_pins
usable_pins_le caps status =
    let pins = dp_pin_caps caps in
    let slow = slow_pins caps status in
    ground (
      arith,
      pin_caps_le caps,
      clear_bits_le pins mode_dp_pin_mf_mask,
      clear_bits_le pins mode_dp_pin_br2_mask,
      clear_bits_le (clear_bits pins mode_dp_pin_mf_mask) mode_dp_pin_br2_mask,
      clear_bits_le slow (bit_or mode_dp_pin_e mode_dp_pin_f),
    )

chosen :
    (caps status k : ℕ)
    → ltb k 32 ≡ true
    → has (usable_pins caps status) (2 ^ k) ≡ true
    → (has (dp_pin_caps caps) (2 ^ k) ≡ true)
      × (has mode_dp_pin_br2_mask (2 ^ k) ≡ false)
      × (((dpsts_mf_pref status == 0) && has mode_dp_pin_mf_mask (2 ^ k)) ≡ false)
      × ((is_cd (slow_pins caps status) && has 0x30 (2 ^ k)) ≡ false)
chosen caps status k h e =
    ground (arith, has-slow_pins caps status k h, has-usable_pins caps status k h)

-- The pin assignment that is answered for the capabilities of a mode and the status of the
-- partner, with a `get_next_bit` that finds a bit that is set: 0 where no pin is usable, and else
-- one pin that the mode has, which carries no USB Gen 2 (A and B), is no multi-function pin (B, D
-- and F) unless the status prefers multi-function, and is not E or F where C or D can be had.
pub pin_mode-chooses :
    (get_next_bit : ℕ → ℕ)
    → FindsBit get_next_bit
    → (caps status : ℕ)
    → let r = pin_mode get_next_bit (usable_pins caps status) in
      ((usable_pins caps status ≡ 0) × (r ≡ 0))
      ⊎ ((has (dp_pin_caps caps) r ≡ true)
          × (has mode_dp_pin_br2_mask r ≡ false)
          × (((dpsts_mf_pref status == 0) && has mode_dp_pin_mf_mask r) ≡ false)
          × ((is_cd (slow_pins caps status) && has 0x30 r) ≡ false))
unfolding pin_mode
pin_mode-chooses get_next_bit finds caps status =
    let pins = usable_pins caps status in
    elim (Bool-cases (pins == 0)) [
      | inl e ↦ inl (ground arith, ground arith)
      | inr e ↦
          let f = finds pins (usable_pins_le caps status) e in
          inr (rw (e) (chosen caps status (get_next_bit pins) (ground arith) f.0))
    ]
