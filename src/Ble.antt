-- ===== src/Ble.antt =====
-- pihub/ble_dongle.py: the serial link to the dongle.
pub mod Frames
pub mod Queue
pub mod Link
pub mod Events
pub mod Rx
pub mod Payloads
pub mod Release
pub mod Compiled
pub mod Macro
