-- ===== src/Protocol/Silence.antt =====
-- NOA_ESP32_PD/usb_pd_protocol.cpp: a sink whose source stays silent.
pub mod Quiet
pub mod Cases
pub mod Recovery
