-- ===== src/Soundbar.antt =====
-- pihub/samsung_soundbar.py: what the Samsung soundbar plays, by what AirPlay and Cast report.
pub mod State
pub mod Heard
pub mod Tracks
pub mod Signals
