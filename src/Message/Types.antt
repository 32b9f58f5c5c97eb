-- ===== src/Message/Types.antt =====
-- NOA_ESP32_PD/usb_pd.h: the numbers of the control and data messages, and of VDM commands.
pub mod Ctrl
pub mod DataMsg
pub mod Vdm
