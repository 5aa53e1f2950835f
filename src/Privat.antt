-- ===== src/Privat.antt =====
-- services/terminals/privatbank.py: the adapter for PrivatBank's terminals, over a network or a
-- serial port.
pub mod Amount
pub mod Frame
pub mod Reading
pub mod Serial
pub mod Link
pub mod Outcome
pub mod Receipt
pub mod Adapter
pub mod Probe
pub mod Delivery
pub mod Approved
pub mod Once
pub mod Tests
