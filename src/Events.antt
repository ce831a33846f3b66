-- ===== src/Events.antt =====
-- The events that the map reports: app/services/public_event_commands.py (Events/Commands),
-- app/services/map_event_service.py (Events/Normalize, Events/Record) and the tables of
-- app/repositories/event_repository.py (Events/Store).
pub mod Commands
pub mod Normalize
pub mod Store
pub mod Record
pub mod Bounds
pub mod Buckets
pub mod Counts
pub mod Routes
pub mod Throttle
mod Tests
