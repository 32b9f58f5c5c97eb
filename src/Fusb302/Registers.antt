-- ===== src/Fusb302/Registers.antt =====
-- NOA_ESP32_PD/FUSB302.h: the registers of the FUSB302 that the driver uses, their bits and the
-- tokens of its transmit FIFO. A single bit is written as the power that it is.
use noa_esp32_pd.Base.{ℕ, ◌*◌, ◌^◌}

abbrev pub switches0 : ℕ
switches0 = 0x02

abbrev pub switches0_cc2_pu_en : ℕ
switches0_cc2_pu_en = 2 ^ 7

abbrev pub switches0_cc1_pu_en : ℕ
switches0_cc1_pu_en = 2 ^ 6

abbrev pub switches0_vconn_cc2 : ℕ
switches0_vconn_cc2 = 2 ^ 5

abbrev pub switches0_vconn_cc1 : ℕ
switches0_vconn_cc1 = 2 ^ 4

abbrev pub switches0_meas_cc2 : ℕ
switches0_meas_cc2 = 2 ^ 3

abbrev pub switches0_meas_cc1 : ℕ
switches0_meas_cc1 = 2 ^ 2

abbrev pub switches0_cc2_pd_en : ℕ
switches0_cc2_pd_en = 2 ^ 1

abbrev pub switches0_cc1_pd_en : ℕ
switches0_cc1_pd_en = 2 ^ 0

abbrev pub switches1 : ℕ
switches1 = 0x03

abbrev pub switches1_powerrole : ℕ
switches1_powerrole = 2 ^ 7

abbrev pub switches1_datarole : ℕ
switches1_datarole = 2 ^ 4

abbrev pub switches1_auto_gcrc : ℕ
switches1_auto_gcrc = 2 ^ 2

abbrev pub switches1_txcc2_en : ℕ
switches1_txcc2_en = 2 ^ 1

abbrev pub switches1_txcc1_en : ℕ
switches1_txcc1_en = 2 ^ 0

abbrev pub measure : ℕ
measure = 0x04

abbrev pub control0 : ℕ
control0 = 0x06

abbrev pub control0_tx_flush : ℕ
control0_tx_flush = 2 ^ 6

abbrev pub control0_int_mask : ℕ
control0_int_mask = 2 ^ 5

abbrev pub control0_host_cur_mask : ℕ
control0_host_cur_mask = 3 * 2 ^ 2

abbrev pub control0_host_cur_3a0 : ℕ
control0_host_cur_3a0 = 3 * 2 ^ 2

abbrev pub control0_host_cur_1a5 : ℕ
control0_host_cur_1a5 = 2 * 2 ^ 2

abbrev pub control0_host_cur_usb : ℕ
control0_host_cur_usb = 2 ^ 2

abbrev pub control0_tx_start : ℕ
control0_tx_start = 2 ^ 0

abbrev pub control1 : ℕ
control1 = 0x07

abbrev pub control1_bist_mode2 : ℕ
control1_bist_mode2 = 2 ^ 4

abbrev pub control1_rx_flush : ℕ
control1_rx_flush = 2 ^ 2

abbrev pub control2 : ℕ
control2 = 0x08

abbrev pub control2_toggle : ℕ
control2_toggle = 2 ^ 0

abbrev pub control3 : ℕ
control3 = 0x09

abbrev pub control3_send_hardreset : ℕ
control3_send_hardreset = 2 ^ 6

abbrev pub control3_bist_tmode : ℕ
control3_bist_tmode = 2 ^ 5

abbrev pub control3_auto_retry : ℕ
control3_auto_retry = 2 ^ 0

abbrev pub mask : ℕ
mask = 0x0A

abbrev pub mask_crc_chk : ℕ
mask_crc_chk = 2 ^ 4

abbrev pub mask_alert : ℕ
mask_alert = 2 ^ 3

abbrev pub mask_collision : ℕ
mask_collision = 2 ^ 1

abbrev pub mask_bc_lvl : ℕ
mask_bc_lvl = 2 ^ 0

abbrev pub power : ℕ
power = 0x0B

abbrev pub power_pwr_all : ℕ
power_pwr_all = 0xF

abbrev pub reset : ℕ
reset = 0x0C

abbrev pub reset_pd_reset : ℕ
reset_pd_reset = 2 ^ 1

abbrev pub reset_sw_reset : ℕ
reset_sw_reset = 2 ^ 0

abbrev pub maska : ℕ
maska = 0x0E

abbrev pub maska_retryfail : ℕ
maska_retryfail = 2 ^ 4

abbrev pub maska_hardsent : ℕ
maska_hardsent = 2 ^ 3

abbrev pub maska_tx_success : ℕ
maska_tx_success = 2 ^ 2

abbrev pub maska_hardreset : ℕ
maska_hardreset = 2 ^ 0

abbrev pub maskb : ℕ
maskb = 0x0F

abbrev pub maskb_gcrcsent : ℕ
maskb_gcrcsent = 2 ^ 0

abbrev pub interrupta : ℕ
interrupta = 0x3E

abbrev pub interrupta_retryfail : ℕ
interrupta_retryfail = 2 ^ 4

abbrev pub interrupta_hardsent : ℕ
interrupta_hardsent = 2 ^ 3

abbrev pub interrupta_tx_success : ℕ
interrupta_tx_success = 2 ^ 2

abbrev pub interrupta_hardreset : ℕ
interrupta_hardreset = 2 ^ 0

abbrev pub interruptb : ℕ
interruptb = 0x3F

abbrev pub interruptb_gcrcsent : ℕ
interruptb_gcrcsent = 2 ^ 0

abbrev pub status0 : ℕ
status0 = 0x40

abbrev pub status0_vbusok : ℕ
status0_vbusok = 2 ^ 7

abbrev pub status0_comp : ℕ
status0_comp = 2 ^ 5

abbrev pub status0_bc_lvl1 : ℕ
status0_bc_lvl1 = 2 ^ 1

abbrev pub status0_bc_lvl0 : ℕ
status0_bc_lvl0 = 2 ^ 0

abbrev pub status1 : ℕ
status1 = 0x41

abbrev pub status1_rx_empty : ℕ
status1_rx_empty = 2 ^ 5

abbrev pub interrupt : ℕ
interrupt = 0x42

abbrev pub interrupt_collision : ℕ
interrupt_collision = 2 ^ 1

abbrev pub interrupt_bc_lvl : ℕ
interrupt_bc_lvl = 2 ^ 0

abbrev pub fifos : ℕ
fifos = 0x43

abbrev pub tkn_txon : ℕ
tkn_txon = 0xA1

abbrev pub tkn_sync1 : ℕ
tkn_sync1 = 0x12

abbrev pub tkn_sync2 : ℕ
tkn_sync2 = 0x13

abbrev pub tkn_packsym : ℕ
tkn_packsym = 0x80

abbrev pub tkn_jamcrc : ℕ
tkn_jamcrc = 0xFF

abbrev pub tkn_eop : ℕ
tkn_eop = 0x14

abbrev pub tkn_txoff : ℕ
tkn_txoff = 0xFE
