-- ===== src/Journal.antt =====
-- services/work_journal.py: the journal of what the station's devices did.
-- `Text` reads the lines of the file, `Rows` is the state and its operations, `Device` what the
-- device layer calls. `Order` and `Numbers` are about the numbers of the rows, `Paging` about a
-- client that reads page by page, `Reload` and `Durable` about the file and a restart.
pub mod Text
pub mod Rows
pub mod Device
pub mod Order
pub mod Paging
pub mod Numbers
pub mod Reload
pub mod Durable
mod Tests
