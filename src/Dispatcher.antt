-- ===== src/Dispatcher.antt =====
-- pihub/dispatcher.py: remote key events routed to BLE, speaker and flow actions.
pub mod State
pub mod Actions
pub mod Edges
pub mod Rules
pub mod Steady
pub mod Timing
pub mod Reach
pub mod Speaker
pub mod Calls
pub mod Presses
pub mod Keymap
pub mod Routing
pub mod Accepted
pub mod Direct
