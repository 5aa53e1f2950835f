-- ===== src/Uplink.antt =====
-- services/uplink_life.py: remote diagnostics stay on for a day, and are then switched off.
-- `Life` is the state and the operations, `Closing` what they do.
pub mod Life
mod Closing
mod Tests
