-- ===== src/History.antt =====
-- pihub/history.py: the store of recent events and flow reports, and the thread that saves it.
pub mod Store
pub mod Log
pub mod Writer
pub mod Saving
