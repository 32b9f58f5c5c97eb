-- ===== src/Message/Answers.antt =====
-- The words of usb_pd.h that answer a discovery: each field is read as it was put in.
use noa_esp32_pd.Base.{
  ℕ, ◌+◌, ◌*◌, ◌/◌, ◌%◌, ◌^◌, ◌<◌, ◌==◌, if◌then◌else◌, ◌||◌, bit_and, ◌≡◌, ap, arith,
}
use noa_esp32_pd.Base.Bits.Fields.{bit_or_fields, bit_and_mask}
use noa_esp32_pd.Message.Modes.{svid_svid0, svid_svid1, dp_pin_caps, idh_vid, idh_ptype}
use noa_esp32_pd.Message.Vdos.{
  vdo_info, info_hw_dev_id, info_sw_dbg_ver, info_is_rw, hw_dev_id_maj, hw_dev_id_min, vdo_svid,
  vdo_mode_dp, vdo_idh, vdo_dp_cfg, dp_cfg_pin, dp_cfg_dpon,
}

-- A device information word whose minor revision is below 64 gives back the revision, the ten low
-- bits of the major number, the 15 low bits of the version and the bit of the image.
pub info_fields :
    (id id_minor ver is_rw : ℕ)
    → id_minor < 64
    → let v = vdo_info id id_minor ver is_rw in
      (hw_dev_id_maj (info_hw_dev_id v) ≡ id % 2 ^ 10)
      × (hw_dev_id_min (info_hw_dev_id v) ≡ id_minor)
      × (info_sw_dbg_ver v ≡ ver % 2 ^ 15)
      × (info_is_rw v ≡ is_rw % 2)
unfolding vdo_info info_hw_dev_id info_sw_dbg_ver info_is_rw hw_dev_id_maj hw_dev_id_min
info_fields id id_minor ver is_rw small =
    let v = vdo_info id id_minor ver is_rw in
    let a = id % 2 ^ 10 in
    let b = ver % 2 ^ 15 in
    let e : v ≡ id_minor * 2 ^ 26 + a * 2 ^ 16 + b * 2 + is_rw % 2 = ground (
      arith,
      bit_and_mask 10 id,
      bit_and_mask 15 ver,
      bit_and_mask 1 is_rw,
      bit_or_fields 26 id_minor (a * 2 ^ 16) (omega arith),
      bit_or_fields 16 (id_minor * 2 ^ 10 + a) (b * 2) (omega arith),
      bit_or_fields 1 ((id_minor * 2 ^ 10 + a) * 2 ^ 15 + b) (is_rw % 2) (omega arith),
    ) in
    (
      omega (arith, bit_and_mask 10 (v / 2 ^ 16), e),
      omega (arith, e),
      omega (arith, bit_and_mask 15 (v / 2 ^ 1), e),
      omega (arith, bit_and_mask 1 v, e),
    )

-- Two ids of 16 bits in a word are read back.
pub svid_fields :
    (svid0 svid1 : ℕ)
    → let v = vdo_svid svid0 svid1 in
      (svid_svid0 v ≡ svid0 % 2 ^ 16) × (svid_svid1 v ≡ svid1 % 2 ^ 16)
unfolding vdo_svid svid_svid0 svid_svid1
svid_fields svid0 svid1 =
    let v = vdo_svid svid0 svid1 in
    let b = svid1 % 2 ^ 16 in
    let e : v ≡ svid0 % 2 ^ 16 * 2 ^ 16 + b = ground (
      arith,
      bit_and_mask 16 svid0,
      bit_and_mask 16 svid1,
      bit_or_fields 16 (svid0 % 2 ^ 16) b (omega arith),
    ) in
    (omega (arith, e), omega (arith, bit_and_mask 16 v, e))

-- The pins that a DisplayPort mode offers are those of the sink at a receptacle and those of the
-- source at a plug, six of the eight bits given.
pub mode_dp_pins :
    (snkp srcp usb gdr sign sdir : ℕ)
    → dp_pin_caps (vdo_mode_dp snkp srcp usb gdr sign sdir)
      ≡ (if gdr % 2 == 1 then snkp % 64 else srcp % 64)
unfolding vdo_mode_dp dp_pin_caps
mode_dp_pins snkp srcp usb gdr sign sdir =
    let v = vdo_mode_dp snkp srcp usb gdr sign sdir in
    let a = snkp % 2 ^ 8 in
    let b = srcp % 2 ^ 8 in
    let low = sign % 2 ^ 4 * 2 ^ 2 + sdir % 2 ^ 2 in
    let q = (a * 2 ^ 8 + b) * 2 + usb % 2 in
    let e : v ≡ (q * 2 + gdr % 2) * 2 ^ 6 + low = ground (
      arith,
      bit_and_mask 8 snkp,
      bit_and_mask 8 srcp,
      bit_and_mask 1 usb,
      bit_and_mask 1 gdr,
      bit_and_mask 4 sign,
      bit_and_mask 2 sdir,
      bit_or_fields 16 a (b * 2 ^ 8) (omega arith),
      bit_or_fields 8 (a * 2 ^ 8 + b) (usb % 2 * 2 ^ 7) (omega arith),
      bit_or_fields 7 q (gdr % 2 * 2 ^ 6) (omega arith),
      bit_or_fields 6 (q * 2 + gdr % 2) (sign % 2 ^ 4 * 2 ^ 2) (omega arith),
      bit_or_fields 2 ((q * 2 + gdr % 2) * 2 ^ 4 + sign % 2 ^ 4) (sdir % 2 ^ 2) (omega arith),
    ) in
    ground (
      arith,
      e,
      bit_and_mask 1 (v / 2 ^ 6),
      bit_and_mask 6 (v / 2 ^ 16),
      bit_and_mask 6 (v / 2 ^ 8),
    )

-- An identity header whose one-bit fields are bits gives back its product type and its vendor.
pub idh_fields :
    (usbh usbd ptype is_modal vid : ℕ)
    → usbh < 2
    → usbd < 2
    → is_modal < 2
    → let v = vdo_idh usbh usbd ptype is_modal vid in
      (idh_ptype v ≡ ptype % 2 ^ 3) × (idh_vid v ≡ vid % 2 ^ 16)
unfolding vdo_idh idh_ptype idh_vid
idh_fields usbh usbd ptype is_modal vid hh hd hm =
    let v = vdo_idh usbh usbd ptype is_modal vid in
    let t = ptype % 2 ^ 3 in
    let q = (usbh * 2 + usbd) * 2 ^ 3 + t in
    let e : v ≡ (q * 2 + is_modal) * 2 ^ 26 + vid % 2 ^ 16 = ground (
      arith,
      bit_and_mask 3 ptype,
      bit_and_mask 16 vid,
      bit_or_fields 31 usbh (usbd * 2 ^ 30) (omega arith),
      bit_or_fields 30 (usbh * 2 + usbd) (t * 2 ^ 27) (omega arith),
      bit_or_fields 27 q (is_modal * 2 ^ 26) (omega arith),
      bit_or_fields 26 (q * 2 + is_modal) (vid % 2 ^ 16) (omega arith),
    ) in
    (omega (arith, bit_and_mask 3 (v / 2 ^ 27), e), omega (arith, bit_and_mask 16 v, e))

-- A DisplayPort configuration gives back its pin assignment, and is on for the two directions.
pub dp_cfg_fields :
    (pin sig cfg : ℕ)
    → let v = vdo_dp_cfg pin sig cfg in
      (dp_cfg_pin v ≡ pin % 2 ^ 8) × (dp_cfg_dpon v ≡ (cfg % 4 == 1 || cfg % 4 == 2))
unfolding vdo_dp_cfg dp_cfg_pin dp_cfg_dpon
dp_cfg_fields pin sig cfg =
    let v = vdo_dp_cfg pin sig cfg in
    let e : v ≡ pin % 2 ^ 8 * 2 ^ 8 + (sig % 2 ^ 4 * 2 ^ 2 + cfg % 2 ^ 2) = ground (
      arith,
      bit_and_mask 8 pin,
      bit_and_mask 4 sig,
      bit_and_mask 2 cfg,
      bit_or_fields 8 (pin % 2 ^ 8) (sig % 2 ^ 4 * 2 ^ 2) (omega arith),
      bit_or_fields 2 (pin % 2 ^ 8 * 2 ^ 6 + sig % 2 ^ 4) (cfg % 2 ^ 2) (omega arith),
    ) in
    let way : bit_and v 0x3 ≡ cfg % 4 = omega (arith, bit_and_mask 2 v, e) in
    (
      ground (arith, e, bit_and_mask 8 (v / 2 ^ 8), bit_and_mask 8 (v / 2 ^ 16)),
      ap (λ x. x == 1 || x == 2) way,
    )
