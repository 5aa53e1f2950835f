-- ===== src/Registry.antt =====
-- devices/terminal_registry.py and the data of models/terminal.py: the card terminals that a shop
-- has registered, and the ids by which its tills ask for them.
-- `Model` is the data, `Ids` how an id is made and found, `Changes` the operations that register
-- and remove, `Merchants` the merchants of a terminal. `Kept` says what becomes of the ids, `Lives`
-- and `Steps` the invariant of the registry over its life, `Answers` what a till is answered
-- afterwards, `Nicknames` what a refresh of the merchants keeps. `Load` is the indexing of the old
-- ids that stored registrations carry, `Claims` and `Loaded` say to which registration they lead.
pub mod Model
pub mod Ids
pub mod Changes
pub mod Kept
pub mod Merchants
pub mod Lives
pub mod Steps
pub mod Load
mod Claims
mod Loaded
mod Answers
mod Nicknames
mod Tests
