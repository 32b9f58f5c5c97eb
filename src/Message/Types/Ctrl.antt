-- ===== src/Message/Types/Ctrl.antt =====
-- NOA_ESP32_PD/usb_pd.h: `enum pd_ctrl_msg_type`, revision 2.0.
use noa_esp32_pd.Base.{ℕ}

abbrev pub good_crc : ℕ
good_crc = 1

abbrev pub goto_min : ℕ
goto_min = 2

abbrev pub accept : ℕ
accept = 3

abbrev pub reject : ℕ
reject = 4

abbrev pub ping : ℕ
ping = 5

abbrev pub ps_rdy : ℕ
ps_rdy = 6

abbrev pub get_source_cap : ℕ
get_source_cap = 7

abbrev pub get_sink_cap : ℕ
get_sink_cap = 8

abbrev pub dr_swap : ℕ
dr_swap = 9

abbrev pub pr_swap : ℕ
pr_swap = 10

abbrev pub vconn_swap : ℕ
vconn_swap = 11

abbrev pub wait : ℕ
wait = 12

abbrev pub soft_reset : ℕ
soft_reset = 13
