-- ===== src/Bridge.antt =====
-- services/terminals/bridge.py and the adapters of the banks that are reached over a bridge program:
-- posapi.py, bpos.py and oschad.py.
pub mod Stream
pub mod Exchange
pub mod Banks
pub mod PosApi
pub mod Bpos
pub mod Oschad
pub mod Approved
pub mod RoundTrip
pub mod Delivery
pub mod Tests
