-- ===== src/Message/Objects.antt =====
-- NOA_ESP32_PD/usb_pd.h: power data objects, request data objects and VDM headers, as 32-bit words.
use noa_esp32_pd.Base.{ℕ, ◌*◌, ◌/◌, ◌%◌, ◌^◌, bit_and, bit_or}

-- PDO_TYPE_*: the two top bits, not shifted down.
abbrev pub pdo_type_fixed : ℕ
pdo_type_fixed = 0

abbrev pub pdo_type_battery : ℕ
pdo_type_battery = 2 ^ 30

abbrev pub pdo_type_mask : ℕ
pdo_type_mask = 3 * 2 ^ 30

-- `pdo & PDO_TYPE_MASK`
unfoldable pub pdo_type : ℕ → ℕ
pdo_type pdo = bit_and pdo pdo_type_mask

abbrev pub pdo_fixed_dual_role : ℕ
pdo_fixed_dual_role = 2 ^ 29

abbrev pub pdo_fixed_external : ℕ
pdo_fixed_external = 2 ^ 27

abbrev pub pdo_fixed_comm_cap : ℕ
pdo_fixed_comm_cap = 2 ^ 26

abbrev pub pdo_fixed_data_swap : ℕ
pdo_fixed_data_swap = 2 ^ 25

-- PDO_FIXED
unfoldable pub pdo_fixed : ℕ → ℕ → ℕ → ℕ
pdo_fixed mv ma flags = bit_or (bit_or (mv / 50 * 2 ^ 10) (ma / 10)) flags

-- RDO_OBJ_POS
unfoldable pub rdo_obj_pos : ℕ → ℕ
rdo_obj_pos n = bit_and n 7 * 2 ^ 28

-- RDO_POS
unfoldable pub rdo_pos : ℕ → ℕ
rdo_pos rdo = bit_and (rdo / 2 ^ 28) 7

abbrev pub rdo_cap_mismatch : ℕ
rdo_cap_mismatch = 2 ^ 26

-- RDO_FIXED_VAR_OP_CURR
unfoldable pub rdo_fixed_var_op_curr : ℕ → ℕ
rdo_fixed_var_op_curr ma = bit_and (ma / 10) 0x3ff * 2 ^ 10

-- RDO_FIXED_VAR_MAX_CURR
unfoldable pub rdo_fixed_var_max_curr : ℕ → ℕ
rdo_fixed_var_max_curr ma = bit_and (ma / 10) 0x3ff

-- RDO_FIXED
unfoldable pub rdo_fixed : ℕ → ℕ → ℕ → ℕ → ℕ
unfolding rdo_obj_pos rdo_fixed_var_op_curr rdo_fixed_var_max_curr
rdo_fixed n op_ma max_ma flags =
    bit_or (bit_or (bit_or (rdo_obj_pos n) flags) (rdo_fixed_var_op_curr op_ma))
      (rdo_fixed_var_max_curr max_ma)

-- RDO_BATT_OP_POWER
unfoldable pub rdo_batt_op_power : ℕ → ℕ
rdo_batt_op_power mw = bit_and (mw / 250) 0x3ff * 2 ^ 10

-- RDO_BATT_MAX_POWER, which shifts by 10 too.
unfoldable pub rdo_batt_max_power : ℕ → ℕ
rdo_batt_max_power mw = bit_and (mw / 250) 0x3ff * 2 ^ 10

-- RDO_BATT
unfoldable pub rdo_batt : ℕ → ℕ → ℕ → ℕ → ℕ
unfolding rdo_obj_pos rdo_batt_op_power rdo_batt_max_power
rdo_batt n op_mw max_mw flags =
    bit_or (bit_or (bit_or (rdo_obj_pos n) flags) (rdo_batt_op_power op_mw))
      (rdo_batt_max_power max_mw)

-- VDO, in a uint32_t: the id is shifted by 16.
unfoldable pub vdo : ℕ → ℕ → ℕ → ℕ
vdo vid type custom =
    bit_or (bit_or (vid * 2 ^ 16 % 2 ^ 32) (type * 2 ^ 15)) (bit_and custom 0x7fff)

-- PD_VDO_VID
unfoldable pub vdo_vid : ℕ → ℕ
vdo_vid v = v / 2 ^ 16

-- PD_VDO_SVDM
unfoldable pub vdo_svdm : ℕ → ℕ
vdo_svdm v = bit_and (v / 2 ^ 15) 1

-- PD_VDO_CMD
unfoldable pub vdo_cmd : ℕ → ℕ
vdo_cmd v = bit_and v 0x1f

-- PD_VDO_CMDT
unfoldable pub vdo_cmdt : ℕ → ℕ
vdo_cmdt v = bit_and (v / 2 ^ 6) 3

-- VDO_CMDT_MASK
abbrev pub vdo_cmdt_mask : ℕ
vdo_cmdt_mask = 3 * 2 ^ 6
