-- ===== src/Volt.antt =====
-- NOA_ESP32_PD/usb_pd_tcpm.h: `enum tcpc_cc_voltage_status`, as the numbers that the code compares.
use noa_esp32_pd.Base.{ℕ}

abbrev pub open_line : ℕ
open_line = 0

abbrev pub ra : ℕ
ra = 1

abbrev pub rd : ℕ
rd = 2

abbrev pub snk_def : ℕ
snk_def = 5

abbrev pub snk_1_5 : ℕ
snk_1_5 = 6

abbrev pub snk_3_0 : ℕ
snk_3_0 = 7
