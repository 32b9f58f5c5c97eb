-- ===== src/Protocol/Rev30/Battery.antt =====
-- NOA_ESP32_PD/usb_pd_protocol.cpp: what a port of revision 3.0 says of its battery. The battery,
-- the product id and the rounded division DIV_ROUND_NEAREST are not in the repository: parameters.
use noa_esp32_pd.Base.{
  ℕ, ◌+◌, ◌*◌, ◌/◌, ◌%◌, ◌^◌, ◌==◌, not, Bool, if◌then◌else◌, List, [], ◌∷◌, Option, none, some,
  get_or, bit_and, bit_or,
}
use noa_esp32_pd.Base.Int.{ℤ}
use noa_esp32_pd.Fusb302.Frame.{sop}
use noa_esp32_pd.Message.Header.{pd_header}
use noa_esp32_pd.Message.Types.Vdm as Vdm
use noa_esp32_pd.Protocol.Port.{TcpmDrv}
use noa_esp32_pd.Protocol.Core.{is_source, is_dfp, to_num}
use noa_esp32_pd.Protocol.Rev30.Avoid.{Port30, pd_transmit_rev30}

-- PD_EXT_BATTERY_CAP, PD_DATA_BATTERY_STATUS
abbrev pub pd_ext_battery_cap : ℕ
pd_ext_battery_cap = 5

abbrev pub pd_data_battery_status : ℕ
pd_data_battery_status = 5

-- BSDO_CAP_UNKNOWN, BSDO_CAP, BSDO_INVALID, BSDO_PRESENT, BSDO_DISCHARGING, BSDO_IDLE
abbrev pub bsdo_cap_unknown : ℕ
bsdo_cap_unknown = 0xffff

abbrev pub bsdo_cap : ℕ → ℕ
bsdo_cap n = bit_and n 0xffff * 2 ^ 16

abbrev pub bsdo_invalid : ℕ
bsdo_invalid = 2 ^ 8

abbrev pub bsdo_present : ℕ
bsdo_present = 2 ^ 9

abbrev pub bsdo_discharging : ℕ
bsdo_discharging = 2 ^ 10

abbrev pub bsdo_idle : ℕ
bsdo_idle = 2 ^ 11

-- BATT_CAP_REF
abbrev pub batt_cap_ref : ℕ → ℕ
batt_cap_ref n = bit_and (n / 2 ^ 16) 0xff

-- PD_EXT_HEADER
abbrev pub pd_ext_header : ℕ → ℕ → ℕ → ℕ
pd_ext_header cnum rchk dsize =
    bit_or (bit_or (bit_or (2 ^ 15) (cnum * 2 ^ 11)) (rchk * 2 ^ 10)) dsize

-- The functions of the battery: `none` is an error. The status says whether it is fully charged,
-- and whether it is discharging.
pub record Battery : Type 0 where
  pub is_present : Bool
  pub design_voltage : Option ℕ
  pub design_capacity : Option ℕ
  pub full_charge_capacity : Option ℕ
  pub remaining_capacity : Option ℕ
  pub status : Option (Bool × Bool)
  pub usb_pid : ℕ
  pub div_round_nearest : ℕ → ℕ → ℕ

-- `DIV_ROUND_NEAREST((c * v), 100000)`, the product a word of 32 bits.
unfoldable pub tenths : Battery → ℕ → ℕ → ℕ
tenths b c v = b.div_round_nearest (c * v % 2 ^ 32) 100000

-- A capacity in a field of 16 bits, unknown where it or the voltage cannot be read.
unfoldable pub capacity : Battery → Option ℕ → ℕ
unfolding tenths
capacity b c = elim b.design_voltage [
  | none ↦ 0xffff
  | some v ↦ elim c [ none ↦ 0xffff | some n ↦ tenths b n v % 2 ^ 16 ]
]

-- Two half words as one word.
abbrev pub word : ℕ → ℕ → ℕ
word low high = low + high * 2 ^ 16

-- The three data objects of `send_battery_cap`, for the reference that was asked for.
unfoldable pub battery_cap_msg : Battery → ℕ → List ℕ
unfolding capacity
battery_cap_msg b reference =
    let first = word (pd_ext_header 0 0 9) Vdm.usb_vid_google in
    if not b.is_present
    then first ∷ word b.usb_pid 0 ∷ word 0 0 ∷ []
    else if not (batt_cap_ref reference == 0)
    then first ∷ word b.usb_pid 0 ∷ word 0 1 ∷ []
    else first
      ∷ word b.usb_pid (capacity b b.design_capacity)
      ∷ word (capacity b b.full_charge_capacity) 0
      ∷ []

-- The capacity that remains, for `send_battery_status`.
unfoldable pub remaining : Battery → ℕ
unfolding tenths
remaining b = elim b.design_voltage [
  | none ↦ bsdo_cap_unknown
  | some v ↦ elim b.remaining_capacity [ none ↦ bsdo_cap_unknown | some c ↦ tenths b c v ]
]

unfoldable pub charging_bits : Battery → ℕ
charging_bits b = elim b.status [
  | none ↦ bsdo_idle
  | some s ↦ if s.0 then bsdo_idle else if s.1 then bsdo_discharging else 0
]

-- The data object of `send_battery_status`.
unfoldable pub battery_status_msg : Battery → ℕ → ℕ
unfolding remaining charging_bits
battery_status_msg b reference =
    if not b.is_present
    then bsdo_cap bsdo_cap_unknown
    else if not (batt_cap_ref reference == 0)
    then bsdo_invalid
    else bit_or (bit_or (bsdo_cap (remaining b)) bsdo_present) (charging_bits b)

module _ {S : Type 0} (drv : TcpmDrv S) (b : Battery) where
  unfoldable pub send_battery_cap : List ℕ → Port30 S → Port30 S × ℤ
  unfolding battery_cap_msg pd_transmit_rev30 pd_header
  send_battery_cap payload p =
      let w = p.port in
      let header =
        pd_header pd_ext_battery_cap (to_num (is_source w.power_role)) (to_num (is_dfp w.data_role))
          w.msg_id 3 p.rev 1 in
      pd_transmit_rev30 drv sop header (battery_cap_msg b (get_or payload 0 0)) p

  unfoldable pub send_battery_status : List ℕ → Port30 S → Port30 S × ℤ
  unfolding battery_status_msg pd_transmit_rev30 pd_header
  send_battery_status payload p =
      let w = p.port in
      let header =
        pd_header pd_data_battery_status (to_num (is_source w.power_role))
          (to_num (is_dfp w.data_role)) w.msg_id 1 p.rev 0 in
      pd_transmit_rev30 drv sop header (battery_status_msg b (get_or payload 0 0) ∷ []) p
