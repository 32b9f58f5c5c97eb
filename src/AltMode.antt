-- ===== src/AltMode.antt =====
-- NOA_ESP32_PD/usb_pd_policy.cpp: alternate modes (CONFIG_USB_PD_ALT_MODE_DFP).
pub mod State
pub mod Discovery
pub mod Modes
pub mod DisplayPort
pub mod Svdm
pub mod Dump
pub mod Svids
pub mod ModeCount
pub mod Pins
pub mod Replies
pub mod Entering
pub mod First
