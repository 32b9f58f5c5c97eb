-- ===== src/Policy/Request.antt =====
-- NOA_ESP32_PD/usb_pd_policy.cpp: the source's capabilities as received, and the request that the
-- sink answers them with.
use noa_esp32_pd.Base.{
  ℕ, zero, suc, ◌+◌, ◌-◌, ◌*◌, ◌/◌, ◌%◌, ltb, ◌==◌, Bool, true, false, List, [], ◌∷◌, get_or, set,
  if◌then◌else◌,
}
use noa_esp32_pd.Board.{pd_src_pdo, pd_src_pdo_cnt}
use noa_esp32_pd.Fusb302.Chip.{EcError}
use noa_esp32_pd.Message.Objects.{rdo_fixed, rdo_batt, rdo_cap_mismatch, pdo_type, pdo_type_battery}
use noa_esp32_pd.Policy.Power.{pd_extract_pdo_power, check_requested_voltage}
use noa_esp32_pd.Protocol.Port.{Port}

unfoldable pub pd_check_requested_voltage : ℕ → EcError
unfolding check_requested_voltage pd_src_pdo
pd_check_requested_voltage rdo = check_requested_voltage pd_src_pdo pd_src_pdo_cnt rdo

-- `enum pd_request_type`
pub data RequestType : Type 0 where
  vsafe5v max_power : RequestType

-- `for (i = 0; i < cnt; i++) pd_src_caps[port][i] = *src_caps++`, from index `i` on.
unfoldable pub store_caps : ℕ → ℕ → List ℕ → List ℕ → List ℕ
store_caps zero i src_caps table = table
store_caps (suc n) i [] table = store_caps n (i + 1) [] (set table i 0)
store_caps (suc n) i (p ∷ src_caps) table = store_caps n (i + 1) src_caps (set table i p)

-- The request for the object at `pdo_index`: the RDO, the current and the voltage.
unfoldable pub request_of : ℕ → ℕ → ℕ × ℕ × ℕ
unfolding pd_extract_pdo_power rdo_batt rdo_fixed pdo_type
request_of pdo_index pdo =
    let p = pd_extract_pdo_power pdo in
    let uw = p.0 * p.1 in
    let flags = if ltb uw (1000 * 2250) then rdo_cap_mismatch else 0 in
    (
      if pdo_type pdo == pdo_type_battery
          then rdo_batt (pdo_index + 1) (uw / 1000) (uw / 1000) flags
          else rdo_fixed (pdo_index + 1) p.0 p.0 flags,
      p.0,
      p.1,
    )

module _ {S : Type 0} where
  -- A request always succeeds. The index is the sketch's, which no check holds below the number
  -- of capabilities received.
  unfoldable pub pd_build_request : RequestType → Port S → ℕ × ℕ × ℕ
  unfolding request_of
  pd_build_request RequestType.vsafe5v w = request_of 0 (get_or w.pd_src_caps 0 0)
  pd_build_request RequestType.max_power w =
      request_of w.pd_source_cap_current_index
        (get_or w.pd_src_caps w.pd_source_cap_current_index 0)

  -- The index and the object that is selected, which is the sketch's choice: the search for the most
  -- power is taken out by `#if 0`, so the index is always 0.
  unfoldable pub pd_find_pdo_index : Port S → ℕ × ℕ
  pd_find_pdo_index w = (0, get_or w.pd_src_caps w.pd_source_cap_current_index 0)

  -- The power that is then worked out goes to `pd_set_input_current_limit`, which is empty.
  unfoldable pub pd_process_source_cap : ℕ → List ℕ → Port S → Port S
  unfolding store_caps
  pd_process_source_cap cnt src_caps w = record w {
    pd_src_cap_cnt = cnt % 256;
    pd_src_caps = store_caps cnt 0 src_caps w.pd_src_caps;
  }

  -- The sketch's callback. It is called with at least one capability.
  unfoldable pub pd_process_source_cap_callback : ℕ → Port S → Port S
  pd_process_source_cap_callback cnt w = record w { pd_source_cap_max_index = cnt - 1 }

  unfoldable pub pd_set_max_voltage : ℕ → Port S → Port S
  pd_set_max_voltage mv w = record w { max_request_mv = mv }

  unfoldable pub pd_get_max_voltage : Port S → ℕ
  pd_get_max_voltage w = w.max_request_mv

-- USB_VID_APPLE is 0x05ac.
unfoldable pub pd_charge_from_device : ℕ → ℕ → Bool
pd_charge_from_device vid pid =
    if vid == 0x05ac then (if pid == 0x1012 then true else pid == 0x1013) else false
