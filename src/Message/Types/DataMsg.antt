-- ===== src/Message/Types/DataMsg.antt =====
-- NOA_ESP32_PD/usb_pd.h: `enum pd_data_msg_type`, revision 2.0.
use noa_esp32_pd.Base.{ℕ}

abbrev pub source_cap : ℕ
source_cap = 1

abbrev pub request : ℕ
request = 2

abbrev pub bist : ℕ
bist = 3

abbrev pub sink_cap : ℕ
sink_cap = 4

abbrev pub vendor_def : ℕ
vendor_def = 15
