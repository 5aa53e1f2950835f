-- ===== src/Logs.antt =====
-- services/log_uplink.py: the buffer of `SocketIOLogHandler`, which keeps the log lines while there is
-- no connection.
-- `Buffer` is the handler, `Account` what becomes of every line, `Fits` when none is
-- dropped.
pub mod Buffer
pub mod Account
mod Fits
mod Tests
