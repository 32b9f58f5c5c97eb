-- ===== src/Message/Modes.antt =====
-- NOA_ESP32_PD/usb_pd.h: the words of structured VDMs that discover and enter alternate modes.
use noa_esp32_pd.Base.{ℕ, ◌*◌, ◌/◌, ◌%◌, ◌^◌, ◌==◌, bit_and, if◌then◌else◌}

-- USB_SID_DISPLAYPORT
abbrev pub usb_sid_displayport : ℕ
usb_sid_displayport = 0xff01

-- VDO_CMDT
abbrev pub vdo_cmdt_bits : ℕ → ℕ
vdo_cmdt_bits x = x * 2 ^ 6

-- VDO_OPOS
abbrev pub vdo_opos_bits : ℕ → ℕ
vdo_opos_bits x = x * 2 ^ 8

-- PD_VDO_OPOS
unfoldable pub vdo_opos : ℕ → ℕ
vdo_opos v = bit_and (v / 2 ^ 8) 7

-- PD_IDH_VID
unfoldable pub idh_vid : ℕ → ℕ
idh_vid v = bit_and v 0xffff

-- PD_IDH_PTYPE
unfoldable pub idh_ptype : ℕ → ℕ
idh_ptype v = bit_and (v / 2 ^ 27) 0x7

-- PD_PRODUCT_PID
unfoldable pub product_pid : ℕ → ℕ
product_pid v = bit_and (v / 2 ^ 16) 0xffff

-- PD_VDO_SVID_SVID0, in a uint16_t
unfoldable pub svid_svid0 : ℕ → ℕ
svid_svid0 v = v / 2 ^ 16 % 2 ^ 16

-- PD_VDO_SVID_SVID1
unfoldable pub svid_svid1 : ℕ → ℕ
svid_svid1 v = bit_and v 0xffff

-- PD_DP_PIN_CAPS: a receptacle takes the pins of the UFP_D, a plug those of the DFP_D.
unfoldable pub dp_pin_caps : ℕ → ℕ
dp_pin_caps x =
    if bit_and (x / 2 ^ 6) 1 == 1 then bit_and (x / 2 ^ 16) 0x3f else bit_and (x / 2 ^ 8) 0x3f

-- PD_VDO_DPSTS_MF_PREF
unfoldable pub dpsts_mf_pref : ℕ → ℕ
dpsts_mf_pref x = bit_and (x / 2 ^ 4) 1

-- MODE_DP_PIN_MF_MASK: B, D and F.
abbrev pub mode_dp_pin_mf_mask : ℕ
mode_dp_pin_mf_mask = 0x2a

-- MODE_DP_PIN_BR2_MASK: A and B.
abbrev pub mode_dp_pin_br2_mask : ℕ
mode_dp_pin_br2_mask = 0x3

abbrev pub mode_dp_pin_c : ℕ
mode_dp_pin_c = 0x04

abbrev pub mode_dp_pin_d : ℕ
mode_dp_pin_d = 0x08

abbrev pub mode_dp_pin_e : ℕ
mode_dp_pin_e = 0x10

abbrev pub mode_dp_pin_f : ℕ
mode_dp_pin_f = 0x20
