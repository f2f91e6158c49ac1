-- ===== src/Runtime.antt =====
-- pihub/runtime.py: the mode, the one flow that may run at a time, and what both leave behind.
pub mod State
pub mod Modes
pub mod Sequences
pub mod Invariant
pub mod Ending
pub mod Reach
pub mod Running
pub mod Restart
