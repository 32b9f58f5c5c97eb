-- ===== src/Examples.antt =====
-- The theorems at concrete inputs.
mod AltModes
mod Avoidance
mod Cable
mod Chips
mod Commands
mod Firmware
mod Discovery
mod Drivers
mod Hosts
mod Messages
mod Silent
mod SinkSteps
mod Vconn
