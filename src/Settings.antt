-- ===== src/Settings.antt =====
-- pihub/settings.py: the settings a user can edit, how they are checked, and how they are kept.
pub mod Values
pub mod Validate
pub mod Store
pub mod Checks
pub mod Valid
pub mod Roundtrip
pub mod Loading
pub mod Playable
