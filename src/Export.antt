-- ===== src/Export.antt =====
-- app/services/raw_query_export_service.py: the export of the raw queries as CSV (Export/Query, Export/Csv), and
-- what it is worth to a reader of the file (Export/Reader, Export/RoundTrip, Export/Cells).
pub mod Csv
pub mod Query
pub mod Reader
pub mod RoundTrip
pub mod Cells
pub mod Selected
pub mod Outcomes
pub mod Command
mod Tests
