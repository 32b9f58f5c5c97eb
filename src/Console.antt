-- ===== src/Console.antt =====
-- NOA_ESP32_PD/usb_pd_protocol.cpp: the console command `pd` (CONFIG_COMMON_RUNTIME, CONFIG_CMD_PD
-- and CONFIG_CMD_PD_FLASH).
pub mod Text
pub mod State
pub mod Flashing
pub mod Command
pub mod Refused
pub mod Words
