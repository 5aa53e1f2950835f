-- ===== src/Busy.antt =====
-- services/busy.py: which work an update must not interrupt.
-- `Tracker` counts the operations in flight, `Routes` decides which requests count, `Refusal`
-- gathers the reasons that an update is refused for.
pub mod Tracker
pub mod Routes
pub mod Refusal
mod Tests
