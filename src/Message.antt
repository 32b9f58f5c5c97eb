-- ===== src/Message.antt =====
-- NOA_ESP32_PD/usb_pd.h: the formats of Power Delivery messages.
pub mod Header
pub mod Types
pub mod Objects
pub mod Layout
pub mod Modes
pub mod Vdos
pub mod Answers
