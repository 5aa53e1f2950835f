-- ===== src/Till.antt =====
-- routes/terminal.py: the requests of the till for a card terminal, and the row of the journal that
-- each payment and refund leaves.
pub mod Request
pub mod Rows
pub mod Paid
pub mod Tests
