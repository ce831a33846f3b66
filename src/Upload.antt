-- ===== src/Upload.antt =====
-- The upload of a workbook of parcels: app/validators/land_validators.py (Upload/Rows) and
-- app/services/upload_service.py (Upload/Request, Upload/Service).
pub mod Rows
pub mod Partition
pub mod Request
pub mod Service
pub mod Outcomes
mod Tests
