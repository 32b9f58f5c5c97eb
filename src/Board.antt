-- ===== src/Board.antt =====
-- NOA_ESP32_PD/usb_pd_driver.cpp: the board's clock, its power data objects and the hooks that the
-- protocol layer calls. `millis` and `micros` are the Arduino library's, of type unsigned long,
-- which has 32 bits on the ESP32.
pub mod Clock
use noa_esp32_pd.Base.{ℕ, ◌+◌, ◌*◌, ◌^◌, Bool, true, false, List, [], ◌∷◌, bit_or}
use noa_esp32_pd.Message.Objects.{
  pdo_fixed, pdo_fixed_dual_role, pdo_fixed_data_swap, pdo_fixed_comm_cap,
}

-- PDO_FIXED_FLAGS
abbrev pub pdo_fixed_flags : ℕ
pdo_fixed_flags = bit_or (bit_or pdo_fixed_dual_role pdo_fixed_data_swap) pdo_fixed_comm_cap

unfoldable pub pd_src_pdo : List ℕ
unfolding pdo_fixed
pd_src_pdo = pdo_fixed 5000 1500 pdo_fixed_flags ∷ []

abbrev pub pd_src_pdo_cnt : ℕ
pd_src_pdo_cnt = 1

unfoldable pub pd_snk_pdo : List ℕ
unfolding pdo_fixed
pd_snk_pdo =
    pdo_fixed 5000 500 pdo_fixed_flags
    ∷ pdo_fixed 9000 500 pdo_fixed_flags
    ∷ pdo_fixed 20000 500 pdo_fixed_flags
    ∷ []

abbrev pub pd_snk_pdo_cnt : ℕ
pd_snk_pdo_cnt = 3

-- VBUS is taken to be present always.
unfoldable pub pd_snk_is_vbus_provided : Bool
pd_snk_is_vbus_provided = true

-- `pd_check_power_swap`: never.
unfoldable pub pd_check_power_swap : Bool
pd_check_power_swap = false

-- `pd_check_data_swap`: never.
unfoldable pub pd_check_data_swap : Bool
pd_check_data_swap = false

-- `pd_board_checks() == EC_SUCCESS`
unfoldable pub pd_board_checks : Bool
pd_board_checks = true

-- `pd_set_power_supply_ready(port) == EC_SUCCESS`
unfoldable pub pd_set_power_supply_ready : Bool
pd_set_power_supply_ready = true

-- `pd_custom_vdm` and `pd_svdm`, built without CONFIG_USB_PD_ALT_MODE: no answer.
unfoldable pub pd_custom_vdm : ℕ
pd_custom_vdm = 0
