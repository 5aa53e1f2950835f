-- ===== src/Settings.antt =====
-- services/station_settings.py: the device settings of the app, kept on the station.
pub mod Station
pub mod Evicted
pub mod Saved
pub mod Tests
