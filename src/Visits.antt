-- ===== src/Visits.antt =====
-- The visits of the map page: app/services/web_stats_normalizers.py (Visits/Normalize, Visits/Classify),
-- app/services/web_stats_ingest.py and app/repositories/web_visit_write_repository.py (Visits/Record).
pub mod Classify
pub mod Normalize
pub mod Record
mod Gives
pub mod Bounds
pub mod Times
mod Tests
