-- ===== src/Geo.antt =====
-- Collecting the boundaries of parcels: app/repositories/job_repository.py and
-- app/services/geo_service.py.
pub mod Update
pub mod Jobs
pub mod Service
pub mod Active
mod Tests
