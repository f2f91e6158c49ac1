-- ===== src/Flows.antt =====
-- pihub/flows.py: watch, listen, power_off and their device-state variants.
pub mod Actions
pub mod Steps
pub mod Table
pub mod Report
pub mod Breaks
