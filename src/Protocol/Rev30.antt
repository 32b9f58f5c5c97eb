-- ===== src/Protocol/Rev30.antt =====
-- NOA_ESP32_PD/usb_pd_protocol.cpp: messages of revision 3.0 (CONFIG_USB_PD_REV30), which this build
-- leaves out: collision avoidance, and the state of the battery.
pub mod Avoid
pub mod Battery
pub mod Held
