-- ===== src/Protocol/Vconn.antt =====
-- NOA_ESP32_PD/usb_pd_protocol.cpp: the swap of VCONN (CONFIG_USBC_VCONN_SWAP, without
-- CONFIG_USBC_VCONN), which this build leaves out. `pd_check_vconn_swap` and PD_VCONN_SWAP_DELAY are
-- not in the repository.
pub mod State
pub mod Run
pub mod Handover
