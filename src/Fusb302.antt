-- ===== src/Fusb302.antt =====
-- NOA_ESP32_PD/FUSB302.cpp: the driver of the FUSB302 port controller.
pub mod Registers
pub mod Chip
pub mod Sense
pub mod Control
pub mod Frame
pub mod Alert
pub mod PullDown
pub mod Packets
pub mod RoundTrip
pub mod Receive
pub mod Levels
pub mod Switches
