-- ===== src/Offline.antt =====
-- services/offline_state.py, what it uses of services/offline_secrets.py, and the switching off in
-- routes/offline.py: which shop this computer serves without the internet, and under which key its
-- local copy is sealed.
-- `Words` is the checking of ids and addresses, `Disk` the files, `Activation` the switching on,
-- `Config` what the service is started with, `Leaving` the switching off. `Sealed` and `Lives` are
-- about the key of the local copy over time, `Valid`, `Started` and `Copies` about one activation, `Owed`
-- about what the switching off is refused for.
pub mod Words
pub mod Disk
pub mod Activation
pub mod Config
pub mod Leaving
pub mod Sealed
mod Lives
mod Valid
mod Started
mod Copies
mod Owed
mod Tests
