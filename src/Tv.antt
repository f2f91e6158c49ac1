-- ===== src/Tv.antt =====
-- pihub/samsung_tv.py, TvController: presence, switching off and switching on.
pub mod Presence
pub mod PowerOff
pub mod PowerOn
pub mod OneKey
pub mod OffKey
pub mod FirstReading
