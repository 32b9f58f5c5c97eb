-- ===== src/Message/Vdos.antt =====
-- NOA_ESP32_PD/usb_pd.h: the words of a Discover Identity, Discover SVIDs, DisplayPort and device
-- information answer, as the party that sends them builds them.
use noa_esp32_pd.Base.{ℕ, ◌*◌, ◌/◌, ◌%◌, ◌^◌, ◌==◌, ◌||◌, Bool, bit_and, bit_or, if◌then◌else◌}

-- VDO_IDH: the fields of one bit are not masked.
unfoldable pub vdo_idh : ℕ → ℕ → ℕ → ℕ → ℕ → ℕ
vdo_idh usbh usbd ptype is_modal vid =
    bit_or
      (bit_or
        (bit_or (bit_or (usbh * 2 ^ 31 % 2 ^ 32) (usbd * 2 ^ 30 % 2 ^ 32))
          (bit_and ptype 0x7 * 2 ^ 27))
        (is_modal * 2 ^ 26 % 2 ^ 32))
      (bit_and vid 0xffff)

-- VDO_CSTAT
unfoldable pub vdo_cstat : ℕ → ℕ
vdo_cstat tid = bit_and tid 0xfffff

-- PD_CSTAT_TID
unfoldable pub cstat_tid : ℕ → ℕ
cstat_tid v = bit_and v 0xfffff

-- VDO_PRODUCT
unfoldable pub vdo_product : ℕ → ℕ → ℕ
vdo_product pid bcd = bit_or (bit_and pid 0xffff * 2 ^ 16) (bit_and bcd 0xffff)

-- The arguments of VDO_CABLE.
pub record Cable : Type 0 where
  pub hw : ℕ
  pub fw : ℕ
  pub cbl : ℕ
  pub gdr : ℕ
  pub lat : ℕ
  pub term : ℕ
  pub tx1d : ℕ
  pub tx2d : ℕ
  pub rx1d : ℕ
  pub rx2d : ℕ
  pub cur : ℕ
  pub vps : ℕ
  pub sopp : ℕ
  pub usbss : ℕ

-- One bit of an argument that is not masked, in a uint32_t.
abbrev at_bit : ℕ → ℕ → ℕ
at_bit k x = x * 2 ^ k % 2 ^ 32

-- VDO_CABLE
unfoldable pub vdo_cable : Cable → ℕ
vdo_cable c =
    let versions = bit_or (bit_and c.hw 0x7 * 2 ^ 28) (bit_and c.fw 0x7 * 2 ^ 24) in
    let ends = bit_or (bit_or versions (bit_and c.cbl 0x3 * 2 ^ 18)) (at_bit 17 c.gdr) in
    let wires = bit_or (bit_or ends (bit_and c.lat 0x7 * 2 ^ 13)) (bit_and c.term 0x3 * 2 ^ 11) in
    let sent = bit_or (bit_or wires (at_bit 10 c.tx1d)) (at_bit 9 c.tx2d) in
    let received = bit_or (bit_or sent (at_bit 8 c.rx1d)) (at_bit 7 c.rx2d) in
    let power = bit_or (bit_or received (bit_and c.cur 0x3 * 2 ^ 5)) (at_bit 4 c.vps) in
    bit_or (bit_or power (at_bit 3 c.sopp)) (bit_and c.usbss 0x7)

-- VDO_SVID
unfoldable pub vdo_svid : ℕ → ℕ → ℕ
vdo_svid svid0 svid1 = bit_or (bit_and svid0 0xffff * 2 ^ 16) (bit_and svid1 0xffff)

-- VDO_MODE_GOOGLE
unfoldable pub vdo_mode_google : ℕ → ℕ
vdo_mode_google mode = bit_and mode 0xff

-- VDO_MODE_DP
unfoldable pub vdo_mode_dp : ℕ → ℕ → ℕ → ℕ → ℕ → ℕ → ℕ
vdo_mode_dp snkp srcp usb gdr sign sdir =
    let pins = bit_or (bit_and snkp 0xff * 2 ^ 16) (bit_and srcp 0xff * 2 ^ 8) in
    let plug = bit_or (bit_or pins (bit_and usb 1 * 2 ^ 7)) (bit_and gdr 1 * 2 ^ 6) in
    bit_or (bit_or plug (bit_and sign 0xf * 2 ^ 2)) (bit_and sdir 0x3)

-- VDO_DP_STATUS
unfoldable pub vdo_dp_status : ℕ → ℕ → ℕ → ℕ → ℕ → ℕ → ℕ → ℕ → ℕ
vdo_dp_status irq lvl amode usbc mf en lp conn =
    let hpd = bit_or (bit_and irq 1 * 2 ^ 8) (bit_and lvl 1 * 2 ^ 7) in
    let asks = bit_or (bit_or hpd (bit_and amode 1 * 2 ^ 6)) (bit_and usbc 1 * 2 ^ 5) in
    let state = bit_or (bit_or asks (bit_and mf 1 * 2 ^ 4)) (bit_and en 1 * 2 ^ 3) in
    bit_or (bit_or state (bit_and lp 1 * 2 ^ 2)) (bit_and conn 0x3)

-- PD_VDO_DPSTS_HPD_IRQ
unfoldable pub dpsts_hpd_irq : ℕ → ℕ
dpsts_hpd_irq x = bit_and (x / 2 ^ 8) 1

-- PD_VDO_DPSTS_HPD_LVL
unfoldable pub dpsts_hpd_lvl : ℕ → ℕ
dpsts_hpd_lvl x = bit_and (x / 2 ^ 7) 1

-- VDO_DP_CFG
unfoldable pub vdo_dp_cfg : ℕ → ℕ → ℕ → ℕ
vdo_dp_cfg pin sig cfg =
    bit_or (bit_or (bit_and pin 0xff * 2 ^ 8) (bit_and sig 0xf * 2 ^ 2)) (bit_and cfg 0x3)

-- PD_DP_CFG_DPON
unfoldable pub dp_cfg_dpon : ℕ → Bool
dp_cfg_dpon x = bit_and x 0x3 == 1 || bit_and x 0x3 == 2

-- PD_DP_CFG_PIN
unfoldable pub dp_cfg_pin : ℕ → ℕ
dp_cfg_pin x =
    if bit_and (x / 2 ^ 8) 0xff == 0 then bit_and (x / 2 ^ 16) 0xff else bit_and (x / 2 ^ 8) 0xff

-- VDO_INFO: the minor revision is not masked.
unfoldable pub vdo_info : ℕ → ℕ → ℕ → ℕ → ℕ
vdo_info id id_minor ver is_rw =
    bit_or
      (bit_or (bit_or (id_minor * 2 ^ 26 % 2 ^ 32) (bit_and id 0x3ff * 2 ^ 16))
        (bit_and ver 0x7fff * 2 ^ 1))
      (bit_and is_rw 1)

-- VDO_INFO_HW_DEV_ID
unfoldable pub info_hw_dev_id : ℕ → ℕ
info_hw_dev_id x = x / 2 ^ 16

-- VDO_INFO_SW_DBG_VER
unfoldable pub info_sw_dbg_ver : ℕ → ℕ
info_sw_dbg_ver x = bit_and (x / 2 ^ 1) 0x7fff

-- VDO_INFO_IS_RW
unfoldable pub info_is_rw : ℕ → ℕ
info_is_rw x = bit_and x 1

-- HW_DEV_ID_MAJ
unfoldable pub hw_dev_id_maj : ℕ → ℕ
hw_dev_id_maj x = bit_and x 0x3ff

-- HW_DEV_ID_MIN
unfoldable pub hw_dev_id_min : ℕ → ℕ
hw_dev_id_min x = x / 2 ^ 10
