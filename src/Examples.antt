-- ===== src/Examples.antt =====
-- Small concrete runs of the link, the dispatcher, the flows and the engine.
pub mod BleRuns
pub mod RuntimeRuns
pub mod StoreRuns
pub mod KeyRuns
pub mod TvRuns
pub mod SpeakerRuns
