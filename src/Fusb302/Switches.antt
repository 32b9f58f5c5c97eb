-- ===== src/Fusb302/Switches.antt =====
-- NOA_ESP32_PD/FUSB302.cpp: which lines the register SWITCHES0 connects.
use noa_esp32_pd.Base.{
  ℕ, ◌^◌, ◌||◌, ◌&&◌, ◌==◌, not, Bool, true, false, if◌then◌else◌, ◌≡◌, refl, arith,
}
use noa_esp32_pd.Base.Bits.{has, set_bits, has-set_pow, has-clear_pow}
use noa_esp32_pd.Base.Int.{ℤ, is_nonzero}
use noa_esp32_pd.Fusb302.Registers.{
  switches0_meas_cc1, switches0_meas_cc2, switches0_cc1_pu_en, switches0_cc2_pu_en,
  switches0_cc1_pd_en, switches0_cc2_pd_en, switches0_vconn_cc1, switches0_vconn_cc2,
}
use noa_esp32_pd.Fusb302.Control.{polarity_switches0, rd_switches}

-- Pulling down: with TYPEC_CC_RD both pull-downs are on and both pull-ups off, and the measurement
-- and the VCONN switches stay.
pub rd_connects :
    (reg : ℕ)
    → let r = rd_switches reg in
      (has r switches0_cc1_pd_en ≡ true)
      × (has r switches0_cc2_pd_en ≡ true)
      × (has r switches0_cc1_pu_en ≡ false)
      × (has r switches0_cc2_pu_en ≡ false)
      × (has r switches0_meas_cc1 ≡ has reg switches0_meas_cc1)
      × (has r switches0_meas_cc2 ≡ has reg switches0_meas_cc2)
      × (has r switches0_vconn_cc1 ≡ has reg switches0_vconn_cc1)
      × (has r switches0_vconn_cc2 ≡ has reg switches0_vconn_cc2)
unfolding rd_switches
rd_connects reg = (
  simp (has-set_pow 0, has-clear_pow 0) (ground arith),
  simp (has-set_pow 1, has-clear_pow 1) (ground arith),
  simp (has-set_pow 6, has-clear_pow 6) (ground arith),
  simp (has-set_pow 7, has-clear_pow 7) (ground arith),
  simp (has-set_pow 2, has-clear_pow 2) (ground arith),
  simp (has-set_pow 3, has-clear_pow 3) (ground arith),
  simp (has-set_pow 4, has-clear_pow 4) (ground arith),
  simp (has-set_pow 5, has-clear_pow 5) (ground arith),
)

has_if :
    (k : ℕ) (b : Bool) (x y : ℕ)
    → has (if b then x else y) (2 ^ k) ≡ (if b then has x (2 ^ k) else has y (2 ^ k))
has_if k true x y = refl
has_if k false x y = refl

has-set_if :
    (k : ℕ) (b : Bool) (i j x : ℕ)
    → has (set_bits x (if b then 2 ^ i else 2 ^ j)) (2 ^ k)
      ≡ (has x (2 ^ k) || (if b then k == i else k == j))
has-set_if k true i j x = has-set_pow k i x
has-set_if k false i j x = has-set_pow k j x

-- The polarity connects the measurement to the line of the plug, CC1 for 0 and CC2 otherwise, and
-- VCONN, when it is on, to the other line; the pull-ups and pull-downs stay.
pub polarity_connects :
    (vconn_enabled : Bool) (polarity : ℤ) (reg : ℕ)
    → let flipped = is_nonzero polarity in
      let r = polarity_switches0 vconn_enabled polarity reg in
      (has r switches0_meas_cc1 ≡ not flipped)
      × (has r switches0_meas_cc2 ≡ flipped)
      × (has r switches0_vconn_cc1 ≡ (vconn_enabled && flipped))
      × (has r switches0_vconn_cc2 ≡ (vconn_enabled && not flipped))
      × (has r switches0_cc1_pu_en ≡ has reg switches0_cc1_pu_en)
      × (has r switches0_cc2_pu_en ≡ has reg switches0_cc2_pu_en)
      × (has r switches0_cc1_pd_en ≡ has reg switches0_cc1_pd_en)
      × (has r switches0_cc2_pd_en ≡ has reg switches0_cc2_pd_en)
unfolding polarity_switches0
polarity_connects vconn_enabled polarity reg = (
  simp (has_if 2, has-set_if 2, has-clear_pow 2) (ground arith),
  simp (has_if 3, has-set_if 3, has-clear_pow 3) (ground arith),
  simp (has_if 4, has-set_if 4, has-clear_pow 4) (ground arith),
  simp (has_if 5, has-set_if 5, has-clear_pow 5) (ground arith),
  simp (has_if 6, has-set_if 6, has-clear_pow 6) (ground arith),
  simp (has_if 7, has-set_if 7, has-clear_pow 7) (ground arith),
  simp (has_if 0, has-set_if 0, has-clear_pow 0) (ground arith),
  simp (has_if 1, has-set_if 1, has-clear_pow 1) (ground arith),
)
