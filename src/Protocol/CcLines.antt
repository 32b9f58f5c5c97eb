-- ===== src/Protocol/CcLines.antt =====
-- NOA_ESP32_PD/usb_pd_protocol.cpp: what the voltages on the CC lines say.
use noa_esp32_pd.Base.{ℕ, ◌^◌, ltb, ◌==◌, ◌&&◌, ◌||◌, not, Bool, if◌then◌else◌}
use noa_esp32_pd.Base.Bits.{set_bits}
use noa_esp32_pd.Volt

unfoldable pub cc_is_rp : ℕ → Bool
cc_is_rp cc = cc == Volt.snk_def || cc == Volt.snk_1_5 || cc == Volt.snk_3_0

-- `cc2 > cc1`
unfoldable pub get_snk_polarity : ℕ → ℕ → ℕ
get_snk_polarity cc1 cc2 = if ltb cc1 cc2 then 1 else 0

-- TYPEC_CURRENT_DTS_MASK
abbrev pub typec_current_dts_mask : ℕ
typec_current_dts_mask = 2 ^ 31

unfoldable pub get_typec_current_limit : ℕ → ℕ → ℕ → ℕ
unfolding cc_is_rp set_bits
get_typec_current_limit polarity cc1 cc2 =
    let cc = if polarity == 0 then cc1 else cc2 in
    let cc_alt = if polarity == 0 then cc2 else cc1 in
    let charge : ℕ =
      if cc == Volt.snk_3_0 && not (cc_alt == Volt.snk_1_5)
      then 3000
      else if cc == Volt.snk_1_5
      then 1500
      else 0 in
    if cc_is_rp cc_alt then set_bits charge typec_current_dts_mask else charge
