-- ===== src/Guard.antt =====
-- The guards of the running engine: finiexragengine/core/observability/budget_guard.py and
-- stall_watchdog.py.
pub mod Budget
pub mod Watchdog
