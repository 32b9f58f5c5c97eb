-- ===== src/Fusb302/Sense.antt =====
-- NOA_ESP32_PD/FUSB302.cpp: reading the CC lines, as a source by the comparator and as a sink by
-- the BC level.
use noa_esp32_pd.Base.{ℕ, ltb, ◌==◌, bit_and, bit_or, Bool, if◌then◌else◌}
use noa_esp32_pd.Base.Bits.{has, set_bits, clear_bits}
use noa_esp32_pd.Base.Int.{is_nonzero}
use noa_esp32_pd.Volt
use noa_esp32_pd.Fusb302.Registers.{
  switches0, switches0_meas_cc1, switches0_meas_cc2, switches0_cc1_pu_en, switches0_cc2_pu_en,
  measure, status0, status0_comp, status0_bc_lvl0, status0_bc_lvl1, status0_vbusok,
}
use noa_esp32_pd.Fusb302.Chip.{M, ◌>>=◌, ◌>>◌, pure, get, read, write, platform_usleep}

-- BC LVL values to the Type-C CC voltage status.
unfoldable pub fusb302_convert_bc_lvl : Bool → ℕ → ℕ
fusb302_convert_bc_lvl pulling_up bc_lvl =
    if pulling_up
    then (if bc_lvl == 0 then Volt.ra else if ltb bc_lvl 3 then Volt.rd else Volt.open_line)
    else (if bc_lvl == 1
        then Volt.snk_def
        else if bc_lvl == 2
        then Volt.snk_1_5
        else if bc_lvl == 3
        then Volt.snk_3_0
        else Volt.open_line)

-- The comparator's verdict for the Rd threshold, read after the MDAC is set to it.
unfoldable pub compare_rd : M ℕ
unfolding read write platform_usleep
compare_rd = do
  c ← get
  write measure c.mdac_rd
  platform_usleep 250
  reg ← read status0
  pure (if has reg status0_comp then Volt.rd else Volt.ra)

unfoldable pub fusb302_measure_cc_pin_source : ℕ → M ℕ
unfolding read write platform_usleep compare_rd
fusb302_measure_cc_pin_source cc_measure = do
  switches0_reg ← read switches0
  let reg1 = clear_bits switches0_reg (bit_or switches0_meas_cc1 switches0_meas_cc2)
  let reg2 =
      if cc_measure == switches0_meas_cc1
      then set_bits reg1 switches0_cc1_pu_en
      else set_bits reg1 switches0_cc2_pu_en
  write switches0 (set_bits reg2 cc_measure)
  c ← get
  write measure c.mdac_vnc
  platform_usleep 250
  reg ← read status0
  cc_lvl ← if has reg status0_comp then pure Volt.open_line else compare_rd
  write switches0 switches0_reg
  pure cc_lvl

-- `*cc1_lvl` and `*cc2_lvl` come in with their old values: under VCONN one of them is left alone.
unfoldable pub fusb302_detect_cc_pin_source_manual : ℕ → ℕ → M (ℕ × ℕ)
unfolding fusb302_measure_cc_pin_source
fusb302_detect_cc_pin_source_manual cc1_lvl cc2_lvl = do
  c ← get
  if c.vconn_enabled
      then (if is_nonzero c.cc_polarity
          then (do lvl ← fusb302_measure_cc_pin_source switches0_meas_cc2; pure (cc1_lvl, lvl))
          else (do lvl ← fusb302_measure_cc_pin_source switches0_meas_cc1; pure (lvl, cc2_lvl)))
      else (do
        lvl1 ← fusb302_measure_cc_pin_source switches0_meas_cc1
        lvl2 ← fusb302_measure_cc_pin_source switches0_meas_cc2
        pure (lvl1, lvl2))

-- Measure one line: `on` is its switch and `off` the other line's. The result is the BC level.
unfoldable pub measure_bc_lvl : ℕ → ℕ → ℕ → M ℕ
unfolding read write platform_usleep
measure_bc_lvl reg on off = do
  write switches0 (set_bits (clear_bits reg off) on)
  platform_usleep 250
  lvl ← read status0
  pure (bit_and lvl (bit_or status0_bc_lvl0 status0_bc_lvl1))

-- Put the bit `m` back as it was.
unfoldable pub restore : Bool → ℕ → ℕ → ℕ
restore orig m reg = if orig then set_bits reg m else clear_bits reg m

unfoldable pub fusb302_detect_cc_pin_sink : M (ℕ × ℕ)
unfolding read write measure_bc_lvl restore fusb302_convert_bc_lvl
fusb302_detect_cc_pin_sink = do
  c ← get
  reg1 ← read switches0
  let orig_meas_cc1 = has reg1 switches0_meas_cc1
  let orig_meas_cc2 = has reg1 switches0_meas_cc2
  bc_lvl_cc1 ← measure_bc_lvl reg1 switches0_meas_cc1 switches0_meas_cc2
  reg2 ← read switches0
  bc_lvl_cc2 ← measure_bc_lvl reg2 switches0_meas_cc2 switches0_meas_cc1
  reg3 ← read switches0
  write switches0
      (restore orig_meas_cc2 switches0_meas_cc2 (restore orig_meas_cc1 switches0_meas_cc1 reg3))
  pure (
    fusb302_convert_bc_lvl c.pulling_up bc_lvl_cc1,
    fusb302_convert_bc_lvl c.pulling_up bc_lvl_cc2,
  )

unfoldable pub fusb302_tcpm_get_cc : ℕ → ℕ → M (ℕ × ℕ)
unfolding fusb302_detect_cc_pin_source_manual fusb302_detect_cc_pin_sink
fusb302_tcpm_get_cc cc1 cc2 = do
  c ← get
  if c.pulling_up then fusb302_detect_cc_pin_source_manual cc1 cc2 else fusb302_detect_cc_pin_sink

-- VBUS, which the firmware is not configured to ask for (CONFIG_USB_PD_VBUS_DETECT_TCPC).
unfoldable pub fusb302_tcpm_get_vbus_level : M ℕ
unfolding read
fusb302_tcpm_get_vbus_level = do reg ← read status0; pure (if has reg status0_vbusok then 1 else 0)
