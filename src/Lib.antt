-- ===== src/Lib.antt =====
-- The local gateway between a browser till and its hardware: printers, card terminals, the fiscal
-- registrar and the offline service of a shop (src/ of the repository, in Python).
--
-- Parts and files:
--   * Journal: services/work_journal.py, the journal of the devices' work. The state `Journal` holds
--     the text of the file, so `load` and `record_row` read and write it; what the disk and the clock
--     answer is an argument of each call. Times and the numbers of rows are natural numbers.
--   * Busy: services/busy.py. `Tracker` is the set of operations in flight, `Routes` the tables and
--     the guard of the routers, `Refusal` what the update is refused for. Requests interleave as a
--     list of events.
--   * Ssi: services/terminals/ssi.py. A call of the adapter runs over a `Wire`: the clock, a list of
--     exchanges that the network will make, and what was sent and reported. Every theorem holds for
--     every such list. The polling loop runs on `enough_rounds` of fuel, the rounds of half a second
--     that fit the three minutes of its deadline and two more.
--   * Privat: services/terminals/privatbank.py. A call of the adapter runs over a `Link`: the peers that
--     its connections will meet, and what was sent. A peer's bytes come in chunks, each with the wait
--     for it; a serial port reads the same chunks byte by byte. Times are in milliseconds.
--   * Registry: devices/terminal_registry.py with the data of models/terminal.py; of `load`, only
--     `_index_stored_known_ids`. The reading of terminals.json and `_index_legacy_network_ids`, which
--     re-keys and merges registrations of older versions and adds old ids to the same index, are left
--     out, so nothing is said of the state after a start. The state is what the object holds
--     in memory and the registrations that terminals.json holds; whether the file can be written is
--     an argument of each call. The digest that makes an id (`sha1`) is a parameter.
--   * Offline: services/offline_state.py, with what it uses of services/offline_secrets.py, and the
--     route `deactivate` of routes/offline.py. The state is the disk: active.json and the folders of
--     the shops. A file holds the JSON value that its text stands for, or no such text; which reads
--     and writes go through is an argument of each call (`Luck`). A local copy is told by the key
--     that it is sealed with. What the offline service (a program of its own) answers, and what
--     SQLite does, are arguments.
--   * Printer: devices/printer.py, the queue of a printer and its worker. Each handler is one step of the
--     event loop; how a preparation or a write ends is an argument of the step, and the steps come in
--     any order. Update puts the printers behind the guard of services/busy.py.
--   * Bridge: services/terminals/bridge.py and the adapters of the banks that are reached over a bridge
--     program: posapi.py, bpos.py and oschad.py. Stream has asyncio's readers and the three frames,
--     Exchange one request and its answer, Banks what the adapters share; then an adapter each. The
--     connections and the messages sent are those of Privat.
--   * Till: routes/terminal.py, a payment or a refund from the request to the row of the journal. How the
--     adapter ends is an argument; Paid puts the adapter of Privat there.
--   * Refunds: services/terminals/refund_choice.py, the choice of the operation of a refund.
--   * Service: services/offline_service.py, the supervisor of the offline service. State has the object and
--     its methods, Loop the supervision loop as turns between its waits, each with what the others called
--     meanwhile and what the code is answered, Output the copy of the output into service.log. Sound, Lives
--     and Ends hold the proofs.
--   * Settings: services/station_settings.py. The file holds the JSON value that its text stands for, or
--     no such text; whether it can be written is an argument of each save.
--   * Uplink: services/uplink_life.py. What others do while the client of the connection is awaited is
--     an arbitrary function on the state; the reading of a date (`datetime.fromisoformat`) is a
--     parameter.
--   * Logs: the buffer of `SocketIOLogHandler` in services/log_uplink.py. A line is told by a number, and
--     what the client answers is an argument of each call. The handler's state also holds the account
--     of the lines that were dropped or lost, which the code does not keep.
--   * Prelude, Json, Xor: shared helpers. JSON texts are behind the interface `Codec` (dumps, loads),
--     whose law is a hypothesis where it is used.
--
-- Not modelled: HTTP routing, the pages of the dashboard, the drivers of the devices (USB, serial,
-- TCP), rendering, installers, fonts and images, and the text of log lines.
pub mod Prelude
pub mod Json
pub mod Xor
pub mod Journal
pub mod Busy
pub mod Ssi
pub mod Bridge
pub mod Logs
pub mod Offline
pub mod Printer
pub mod Privat
pub mod Refunds
pub mod Registry
pub mod Service
pub mod Settings
pub mod Till
pub mod Uplink
