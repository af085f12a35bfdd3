-- ===== src/Pipeline.antt =====
-- One pass of a pipeline (finiexragengine/core/pipeline): the evaluation of a symbol, the guard over
-- its row, and the runner that makes the envelope of all rows.
pub mod Contract
pub mod OutputGuard
pub mod Evaluator
pub mod Messages
pub mod Runner
pub mod Run
