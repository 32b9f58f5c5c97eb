-- ===== src/Message/Types/Vdm.antt =====
-- NOA_ESP32_PD/usb_pd.h: VDM commands, command types and standard ids.
use noa_esp32_pd.Base.{ℕ}

abbrev pub cmdt_init : ℕ
cmdt_init = 0

abbrev pub cmdt_rsp_ack : ℕ
cmdt_rsp_ack = 1

abbrev pub cmdt_rsp_nak : ℕ
cmdt_rsp_nak = 2

abbrev pub cmdt_rsp_busy : ℕ
cmdt_rsp_busy = 3

abbrev pub cmd_discover_ident : ℕ
cmd_discover_ident = 1

abbrev pub cmd_enter_mode : ℕ
cmd_enter_mode = 4

abbrev pub cmd_exit_mode : ℕ
cmd_exit_mode = 5

abbrev pub cmd_attention : ℕ
cmd_attention = 6

abbrev pub usb_sid_pd : ℕ
usb_sid_pd = 0xff00

abbrev pub cmd_discover_svid : ℕ
cmd_discover_svid = 2

abbrev pub cmd_discover_modes : ℕ
cmd_discover_modes = 3

abbrev pub cmd_dp_status : ℕ
cmd_dp_status = 16

abbrev pub cmd_dp_config : ℕ
cmd_dp_config = 17

abbrev pub usb_vid_google : ℕ
usb_vid_google = 0x18d1

abbrev pub vdo_cmd_version : ℕ
vdo_cmd_version = 10

abbrev pub vdo_cmd_read_info : ℕ
vdo_cmd_read_info = 12

abbrev pub vdo_cmd_reboot : ℕ
vdo_cmd_reboot = 15

abbrev pub vdo_cmd_flash_erase : ℕ
vdo_cmd_flash_erase = 16

abbrev pub vdo_cmd_flash_write : ℕ
vdo_cmd_flash_write = 17

abbrev pub vdo_cmd_erase_sig : ℕ
vdo_cmd_erase_sig = 18

abbrev pub vdo_cmd_ping_enable : ℕ
vdo_cmd_ping_enable = 20

abbrev pub vdo_cmd_current : ℕ
vdo_cmd_current = 21

abbrev pub vdo_cmd_get_log : ℕ
vdo_cmd_get_log = 23
