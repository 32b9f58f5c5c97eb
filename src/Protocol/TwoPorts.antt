-- ===== src/Protocol/TwoPorts.antt =====
-- NOA_ESP32_PD/usb_pd_protocol.cpp on both ends of a cable: a sink and a source that exchange the
-- messages of a negotiation. What one port handles is what the other has sent.
use noa_esp32_pd.Message.Types.Ctrl
use noa_esp32_pd.Message.Types.DataMsg
use noa_esp32_pd.Protocol.Flags
use noa_esp32_pd.Protocol.Port.{Port}
