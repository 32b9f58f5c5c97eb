-- ===== src/Host/Result.antt =====
-- NOA_ESP32_PD/usb_pd_protocol.cpp: the results of a command of the host, of which the values are
-- not in the repository.
pub data EcResult : Type 0 where
  success invalid_param invalid_command access_denied error : EcResult
  busy unavailable timeout : EcResult
