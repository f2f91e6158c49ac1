-- ===== src/Airplay.antt =====
-- pihub/apple_tv_airplay.py: an Apple TV's AirPlay sessions, sensed over mDNS, as watch signals.
pub mod Flags
pub mod State
pub mod Signals
