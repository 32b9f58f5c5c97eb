-- ===== src/Fusb302/Control.antt =====
-- NOA_ESP32_PD/FUSB302.cpp: the operations of `fusb302_tcpm_drv` that configure the chip.
use noa_esp32_pd.Base.{ℕ, ◌*◌, ◌/◌, ◌^◌, ◌==◌, bit_or, bit_and, Bool, true, false, if◌then◌else◌}
use noa_esp32_pd.Base.Bits.{set_bits, clear_bits}
use noa_esp32_pd.Base.Int.{ℤ, pos, negsuc, is_nonzero}
use noa_esp32_pd.Fusb302.Registers.{
  switches0, switches0_meas_cc1, switches0_meas_cc2, switches0_cc1_pu_en, switches0_cc2_pu_en,
  switches0_cc1_pd_en, switches0_cc2_pd_en, switches0_vconn_cc1, switches0_vconn_cc2, switches1,
  switches1_powerrole, switches1_datarole, switches1_txcc1_en, switches1_txcc2_en, control0,
  control0_host_cur_mask, control0_host_cur_usb, control0_host_cur_1a5, control0_host_cur_3a0,
  control0_int_mask, control2, control2_toggle, control3, control3_auto_retry, mask, mask_bc_lvl,
  mask_collision, mask_alert, mask_crc_chk, maska, maska_retryfail, maska_hardsent,
  maska_tx_success, maska_hardreset, maskb, maskb_gcrcsent, power, power_pwr_all, reset,
  reset_sw_reset,
}
use noa_esp32_pd.Fusb302.Chip.{
  EcError, success, unknown, unimplemented, M, ◌>>=◌, ◌>>◌, pure, get, modify, read, write,
  fusb302_auto_goodcrc_enable, fusb302_flush_rx_fifo,
}

-- `enum tcpc_rp_value`; the two other values of the source's int take the `default` of the switch.
pub data RpValue : Type 0 where
  usb cur_1a5 cur_3a0 reserved : RpValue

-- `enum tcpc_cc_pull`
pub data CcPull : Type 0 where
  ra rp rd open_line : CcPull

-- TCPC_REG_MEASURE_MDAC_MV
unfoldable pub measure_mdac_mv : ℕ → ℕ
measure_mdac_mv mv = bit_and (mv / 42) 0x3f

-- The HOST_CUR bits, and the PD_SRC_*_VNC_MV and PD_SRC_*_RD_THRESH_MV thresholds.
unfoldable pub rp_setting : RpValue → ℕ × ℕ × ℕ
rp_setting RpValue.cur_1a5 = (control0_host_cur_1a5, 1600, 400)
rp_setting RpValue.cur_3a0 = (control0_host_cur_3a0, 2600, 800)
rp_setting _ = (control0_host_cur_usb, 1600, 200)

unfoldable pub fusb302_tcpm_select_rp_value : RpValue → M EcError
unfolding read write measure_mdac_mv rp_setting
fusb302_tcpm_select_rp_value value = do
  reg ← read control0
  let s = rp_setting value
  modify λ c. record c { mdac_vnc = measure_mdac_mv s.1; mdac_rd = measure_mdac_mv s.2 }
  write control0 (set_bits (clear_bits reg control0_host_cur_mask) s.0)
  pure success

-- What `fusb302_tcpm_set_cc(port, TYPEC_CC_RP)` makes of SWITCHES0.
unfoldable pub rp_switches : Bool → ℤ → ℕ → ℕ
rp_switches vconn_enabled cc_polarity reg0 =
    let reg1 = clear_bits reg0 (
      bit_or switches0_cc2_pu_en (
        bit_or switches0_cc1_pu_en (
          bit_or switches0_cc1_pd_en
            (bit_or switches0_cc2_pd_en (bit_or switches0_vconn_cc1 switches0_vconn_cc2))))) in
    let reg2 = set_bits reg1 (bit_or switches0_cc1_pu_en switches0_cc2_pu_en) in
    if vconn_enabled
    then set_bits reg2 (if is_nonzero cc_polarity then switches0_vconn_cc1 else switches0_vconn_cc2)
    else reg2

-- What `fusb302_tcpm_set_cc(port, TYPEC_CC_RD)` makes of SWITCHES0.
unfoldable pub rd_switches : ℕ → ℕ
rd_switches reg =
    set_bits
      (set_bits (clear_bits (clear_bits reg switches0_cc2_pu_en) switches0_cc1_pu_en)
        switches0_cc1_pd_en)
      switches0_cc2_pd_en

-- What `fusb302_tcpm_set_cc(port, TYPEC_CC_OPEN)` makes of SWITCHES0.
unfoldable pub open_switches : ℕ → ℕ
open_switches reg =
    clear_bits
      (clear_bits (clear_bits (clear_bits reg switches0_cc1_pu_en) switches0_cc2_pu_en)
        switches0_cc1_pd_en)
      switches0_cc2_pd_en

unfoldable pub toggle_off : M (Unit {0})
unfolding read write
toggle_off = do reg ← read control2; write control2 (clear_bits reg control2_toggle)

unfoldable pub fusb302_tcpm_set_cc : CcPull → M EcError
unfolding read write toggle_off rp_switches rd_switches open_switches
fusb302_tcpm_set_cc CcPull.rp = do
  c ← get
  reg ← read switches0
  write switches0 (rp_switches c.vconn_enabled c.cc_polarity reg)
  modify λ s. record s { pulling_up = true }
  pure success
fusb302_tcpm_set_cc CcPull.rd = do
  toggle_off
  reg ← read switches0
  write switches0 (rd_switches reg)
  modify λ s. record s { pulling_up = false }
  pure success
fusb302_tcpm_set_cc CcPull.open_line = do
  toggle_off
  reg ← read switches0
  write switches0 (open_switches reg)
  modify λ s. record s { pulling_up = false }
  pure success
fusb302_tcpm_set_cc CcPull.ra = pure unimplemented

-- What `fusb302_tcpm_set_polarity` makes of SWITCHES0.
unfoldable pub polarity_switches0 : Bool → ℤ → ℕ → ℕ
polarity_switches0 vconn_enabled polarity reg0 =
    let reg1 = clear_bits (clear_bits reg0 switches0_vconn_cc1) switches0_vconn_cc2 in
    let reg2 =
      if vconn_enabled
      then set_bits reg1 (if is_nonzero polarity then switches0_vconn_cc1 else switches0_vconn_cc2)
      else reg1 in
    let reg3 = clear_bits (clear_bits reg2 switches0_meas_cc1) switches0_meas_cc2 in
    set_bits reg3 (if is_nonzero polarity then switches0_meas_cc2 else switches0_meas_cc1)

-- What `fusb302_tcpm_set_polarity` makes of SWITCHES1.
unfoldable pub polarity_switches1 : ℤ → ℕ → ℕ
polarity_switches1 polarity reg =
    set_bits (clear_bits (clear_bits reg switches1_txcc1_en) switches1_txcc2_en)
      (if is_nonzero polarity then switches1_txcc2_en else switches1_txcc1_en)

unfoldable pub fusb302_tcpm_set_polarity : ℤ → M EcError
unfolding read write polarity_switches0 polarity_switches1
fusb302_tcpm_set_polarity polarity = do
  c ← get
  reg0 ← read switches0
  write switches0 (polarity_switches0 c.vconn_enabled polarity reg0)
  reg1 ← read switches1
  write switches1 (polarity_switches1 polarity reg1)
  modify λ s. record s { cc_polarity = polarity }
  pure success

unfoldable pub fusb302_tcpm_set_vconn : Bool → M EcError
unfolding read write fusb302_tcpm_set_polarity
fusb302_tcpm_set_vconn enable = do
  modify λ s. record s { vconn_enabled = enable }
  c ← get
  if enable then fusb302_tcpm_set_polarity c.cc_polarity else (do
    reg ← read switches0
    write switches0 (clear_bits (clear_bits reg switches0_vconn_cc1) switches0_vconn_cc2)
    pure success)

-- `power_role` and `data_role` as the source tests them: true is SOURCE and DFP.
unfoldable pub header_switches1 : Bool → Bool → ℕ → ℕ
header_switches1 power_role data_role reg0 =
    let reg1 = clear_bits (clear_bits reg0 switches1_powerrole) switches1_datarole in
    let reg2 = if power_role then set_bits reg1 switches1_powerrole else reg1 in
    if data_role then set_bits reg2 switches1_datarole else reg2

unfoldable pub fusb302_tcpm_set_msg_header : Bool → Bool → M EcError
unfolding read write header_switches1
fusb302_tcpm_set_msg_header power_role data_role = do
  reg ← read switches1
  write switches1 (header_switches1 power_role data_role reg)
  pure success

-- The enabling half of `fusb302_tcpm_set_rx_enable` once the measurement switch is chosen.
unfoldable pub rx_start : ℕ → ℕ → M EcError
unfolding write read fusb302_flush_rx_fifo fusb302_auto_goodcrc_enable
rx_start reg meas = do
  write switches0 (set_bits reg meas)
  m ← read mask
  write mask (set_bits m mask_bc_lvl)
  fusb302_flush_rx_fifo
  fusb302_auto_goodcrc_enable true
  pure success

-- `switch (state[port].cc_polarity)`: no polarity, no reception.
unfoldable pub rx_by_polarity : ℤ → ℕ → M EcError
unfolding rx_start
rx_by_polarity (pos n) reg =
    if n == 0
    then rx_start reg switches0_meas_cc1
    else if n == 1
    then rx_start reg switches0_meas_cc2
    else pure unknown
rx_by_polarity (negsuc n) reg = pure unknown

unfoldable pub rx_stop : ℕ → M EcError
unfolding write read fusb302_auto_goodcrc_enable
rx_stop reg = do
  write switches0 reg
  m ← read mask
  write mask (clear_bits m mask_bc_lvl)
  fusb302_auto_goodcrc_enable false
  pure success

unfoldable pub fusb302_tcpm_set_rx_enable : Bool → M EcError
unfolding read rx_by_polarity rx_stop
fusb302_tcpm_set_rx_enable enable = do
  modify λ s. record s { rx_enable = enable }
  c ← get
  reg0 ← read switches0
  let reg = clear_bits (clear_bits reg0 switches0_meas_cc1) switches0_meas_cc2
  if enable then rx_by_polarity c.cc_polarity reg else rx_stop reg

-- The three interrupt masks of `fusb302_tcpm_init`: 0xFF with the wanted interrupts cleared.
abbrev pub init_mask : ℕ
init_mask =
    clear_bits (clear_bits (clear_bits (clear_bits 0xff mask_bc_lvl) mask_collision) mask_alert)
      mask_crc_chk

abbrev pub init_maska : ℕ
init_maska =
    clear_bits
      (clear_bits (clear_bits (clear_bits 0xff maska_retryfail) maska_hardsent) maska_tx_success)
      maska_hardreset

abbrev pub init_maskb : ℕ
init_maskb = clear_bits 0xff maskb_gcrcsent

-- PD_RETRY_COUNT is 3 and its field starts at bit 1.
unfoldable pub fusb302_tcpm_init : M EcError
unfolding read write measure_mdac_mv fusb302_tcpm_set_polarity fusb302_tcpm_set_vconn
    fusb302_auto_goodcrc_enable
fusb302_tcpm_init = do
  modify λ s. record s {
    cc_polarity = negsuc 0;
    mdac_vnc = measure_mdac_mv 1600;
    mdac_rd = measure_mdac_mv 200;
  }
  write reset reset_sw_reset
  reg3 ← read control3
  write control3 (set_bits (set_bits reg3 control3_auto_retry) (bit_and 3 3 * 2 ^ 1))
  write mask init_mask
  write maska init_maska
  write maskb init_maskb
  reg0 ← read control0
  write control0 (clear_bits reg0 control0_int_mask)
  fusb302_tcpm_set_polarity (pos 0)
  fusb302_tcpm_set_vconn false
  fusb302_auto_goodcrc_enable false
  write power power_pwr_all
  pure success

unfoldable pub fusb302_tcpm_release : M EcError
fusb302_tcpm_release = pure unimplemented
