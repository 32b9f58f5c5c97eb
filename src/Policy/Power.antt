-- ===== src/Policy/Power.antt =====
-- NOA_ESP32_PD/usb_pd_policy.cpp: what a power data object offers, and whether a request is
-- served. PD_MAX_POWER_MW is 60000, PD_MAX_CURRENT_MA 5000 and PD_OPERATING_POWER_MW 2250.
use noa_esp32_pd.Base.{
  ℕ, ◌+◌, ◌-◌, ◌*◌, ◌/◌, ◌%◌, ◌^◌, min, ltb, ◌==◌, bit_and, Bool, not, ◌&&◌, ◌||◌, List, get_or,
  if◌then◌else◌,
}
use noa_esp32_pd.Base.Bits.{has}
use noa_esp32_pd.Fusb302.Chip.{EcError, success, inval}
use noa_esp32_pd.Message.Objects.{rdo_pos, rdo_cap_mismatch, pdo_type, pdo_type_battery}

-- `pd_board_check_request(rdo, pdo_cnt) == EC_SUCCESS`
unfoldable pub pd_board_check_request : ℕ → ℕ → Bool
unfolding rdo_pos
pd_board_check_request rdo pdo_cnt = let idx = rdo_pos rdo in not (idx == 0 || ltb pdo_cnt idx)

-- The checks against the table `src_pdo` of `pdo_cnt` objects.
unfoldable pub check_requested_voltage : List ℕ → ℕ → ℕ → EcError
unfolding pd_board_check_request rdo_pos has
check_requested_voltage src_pdo pdo_cnt rdo =
    let max_ma = bit_and rdo 0x3ff in
    let op_ma = bit_and (rdo / 2 ^ 10) 0x3ff in
    let pdo_ma = bit_and (get_or src_pdo (rdo_pos rdo - 1) 0) 0x3ff in
    if not (pd_board_check_request rdo pdo_cnt)
    then inval
    else if ltb pdo_ma op_ma
    then inval
    else if ltb pdo_ma max_ma && not (has rdo rdo_cap_mismatch)
    then inval
    else success

-- An int product, cut to 32 bits. The signed overflow of the source is taken to wrap.
abbrev pub int_mul : ℕ → ℕ → ℕ
int_mul a b = a * b % 2 ^ 32

-- MIN of an int pattern and an unsigned long long: a negative int is extended to 64 bits.
abbrev pub min_ull : ℕ → ℕ → ℕ
min_ull a b = min (if ltb a (2 ^ 31) then a else a + 2 ^ 64 - 2 ^ 32) b

-- `pd_extract_pdo_power`: the results `*ma` and `*mv`.
unfoldable pub pd_extract_pdo_power : ℕ → ℕ × ℕ
unfolding pdo_type
pd_extract_pdo_power pdo =
    let mv = bit_and (pdo / 2 ^ 10) 0x3ff * 50 in
    let field = bit_and pdo 0x3ff in
    if mv == 0
    then (0, mv)
    else let max_ma =
        if pdo_type pdo == pdo_type_battery
        then 1000 * min_ull (int_mul 1000 (250000 * field)) 60000 / mv
        else min_ull (10 * field) (60000 * 1000 / mv) in
      (min_ull max_ma 5000, mv)
