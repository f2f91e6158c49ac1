-- ===== src/AudioPro.antt =====
-- pihub/audiopro_speaker.py: the Audio Pro speaker's packets, its state, and what it is asked to do.
pub mod Packet
pub mod Ending
pub mod Framing
pub mod Asking
pub mod Hints
pub mod Deadline
pub mod State
pub mod Payloads
pub mod Signals
pub mod Commands
pub mod Mute
pub mod Multiroom
pub mod Leaving
pub mod HttpCommands
pub mod Link
pub mod Refresh
pub mod Consistent
pub mod Reach
