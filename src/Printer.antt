-- ===== src/Printer.antt =====
-- devices/printer.py: the queue of print jobs of a printer and the worker that prints them.
pub mod Queue
pub mod Life
pub mod Account
pub mod Ends
pub mod Invariant
pub mod Sound
pub mod Told
pub mod Update
pub mod Tests
