-- ===== src/Protocol.antt =====
-- NOA_ESP32_PD/usb_pd_protocol.cpp: the Power Delivery protocol layer of the port.
pub mod Port
pub mod Flags
pub mod Core
pub mod Transmit
pub mod Reset
pub mod Negotiate
pub mod Control
pub mod Vdm
pub mod Rev30
pub mod Vconn
pub mod OtherStates
pub mod Globals
pub mod Commands
pub mod CcLines
pub mod Sink
pub mod Source
pub mod Swap
pub mod Run
pub mod SinkOnly
pub mod SameState
pub mod StateChange
pub mod EntryTimer
pub mod SourceSide
pub mod TwoPorts
pub mod Negotiation
pub mod Counter
pub mod Silence
pub mod SinkPolicy
pub mod SinkRefines
