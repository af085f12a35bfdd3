-- ===== src/Stream.antt =====
-- The output contract's stream: how envelopes get their position, are stored, replayed and pushed
-- (finiexragengine/core/outcome/stream_*.py, outcome_store.py, types/stream_types.py).
pub mod Types
pub mod Sequencer
pub mod Store
pub mod Replay
pub mod Dispatcher
pub mod Session
