-- ===== src/Protocol/Flags.antt =====
-- NOA_ESP32_PD/usb_pd.h: the port flags PD_FLAGS_*.
use noa_esp32_pd.Base.{ℕ, ◌^◌}

abbrev pub ping_enabled : ℕ
ping_enabled = 2 ^ 0

abbrev pub partner_dr_power : ℕ
partner_dr_power = 2 ^ 1

abbrev pub partner_dr_data : ℕ
partner_dr_data = 2 ^ 2

abbrev pub check_identity : ℕ
check_identity = 2 ^ 3

abbrev pub snk_cap_recvd : ℕ
snk_cap_recvd = 2 ^ 4

abbrev pub explicit_contract : ℕ
explicit_contract = 2 ^ 6

abbrev pub vbus_never_low : ℕ
vbus_never_low = 2 ^ 7

abbrev pub previous_pd_conn : ℕ
previous_pd_conn = 2 ^ 8

abbrev pub check_pr_role : ℕ
check_pr_role = 2 ^ 9

abbrev pub check_dr_role : ℕ
check_dr_role = 2 ^ 10

abbrev pub partner_extpower : ℕ
partner_extpower = 2 ^ 11

abbrev pub try_src : ℕ
try_src = 2 ^ 13

abbrev pub partner_usb_comm : ℕ
partner_usb_comm = 2 ^ 14

abbrev pub vconn_on : ℕ
vconn_on = 2 ^ 12

abbrev pub update_src_caps : ℕ
update_src_caps = 2 ^ 15

abbrev pub ts_dts_partner : ℕ
ts_dts_partner = 2 ^ 16

abbrev pub tcpc_drp_toggle : ℕ
tcpc_drp_toggle = 2 ^ 5
