-- ===== src/Policy.antt =====
-- NOA_ESP32_PD/usb_pd_policy.cpp: requests for power, built and checked. The parts under
-- CONFIG_USB_PD_ALT_MODE are not in the build.
pub mod Power
pub mod Request
pub mod Bounds
pub mod Served
pub mod Stored
