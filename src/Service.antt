-- ===== src/Service.antt =====
-- services/offline_service.py: the supervisor of the offline service.
pub mod State
pub mod Loop
pub mod Sound
pub mod Lives
pub mod Output
pub mod Ends
pub mod Tests
