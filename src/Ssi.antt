-- ===== src/Ssi.antt =====
-- services/terminals/ssi.py: the SSI protocol of the card terminals.
-- `Frame` is the wire format, `Wire` one exchange, `Outcome` how answers become results, `Session`,
-- `Charge` and `Refund` the operations of the adapter. `Integrity` proves about frames, `Rounds`
-- about the loop that waits, `Safety` about the messages that move money; `Calm`, `Polling`,
-- `Attempts` and `Effects` hold its lemmas. `Approved` proves what an approved payment rests on, with
-- the lemmas of `Verdict` (what an answer says), `Runs` (an operation step by step) and `Asked` (the
-- question for the result, and a refused step).
pub mod Frame
pub mod Integrity
pub mod Wire
pub mod Outcome
pub mod Session
pub mod Charge
pub mod Refund
pub mod Calm
pub mod Polling
pub mod Rounds
pub mod Attempts
pub mod Effects
pub mod Safety
pub mod Verdict
pub mod Runs
pub mod Asked
pub mod Approved
mod Tests
