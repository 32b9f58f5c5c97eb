-- ===== src/Policy/Served.antt =====
-- NOA_ESP32_PD/usb_pd_policy.cpp: which requests `pd_check_requested_voltage` serves.
use noa_esp32_pd.Base.{ℕ, ◌-◌, ◌/◌, ◌^◌, ◌≤◌, true, ◌≡◌, ◌⊎◌, List, get_or, bit_and, arith}
use noa_esp32_pd.Base.Bits.{has}
use noa_esp32_pd.Fusb302.Chip.{success}
use noa_esp32_pd.Message.Objects.{rdo_pos, rdo_cap_mismatch}
use noa_esp32_pd.Policy.Power.{pd_board_check_request, check_requested_voltage}

-- A request that is served names an object of the table by its position from 1, its operating
-- current is at most that object's current, and its maximum current is too, unless the request
-- carries the mismatch flag.
pub served-fits :
    (src_pdo : List ℕ) (pdo_cnt rdo : ℕ)
    → check_requested_voltage src_pdo pdo_cnt rdo ≡ success
    → let pdo_ma = bit_and (get_or src_pdo (rdo_pos rdo - 1) 0) 0x3ff in
      (1 ≤ rdo_pos rdo)
      × (rdo_pos rdo ≤ pdo_cnt)
      × (bit_and (rdo / 2 ^ 10) 0x3ff ≤ pdo_ma)
      × ((bit_and rdo 0x3ff ≤ pdo_ma) ⊎ (has rdo rdo_cap_mismatch ≡ true))
unfolding check_requested_voltage pd_board_check_request
served-fits src_pdo pdo_cnt rdo h = ground arith
