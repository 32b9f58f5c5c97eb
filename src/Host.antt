-- ===== src/Host.antt =====
-- NOA_ESP32_PD/usb_pd_protocol.cpp: the commands of a host (HAS_TASK_HOSTCMD, CONFIG_CMD_PD).
pub mod Result
pub mod RwHash
pub mod Hex
pub mod Control
pub mod Modes
pub mod Lookup
pub mod HexDigits
pub mod Locked
pub mod Flash
pub mod Info
pub mod Delivery
pub mod Waits
