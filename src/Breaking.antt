-- ===== src/Breaking.antt =====
-- The breaking half of the engine: finiexragengine/core/pipeline/breaking_*.py.
pub mod EpisodeRule
pub mod EpisodeId
pub mod Tracker
pub mod Bus
pub mod Detector
pub mod Preflight
pub mod StoryRule
