-- ===== src/Settings.antt =====
-- The settings: the file `.env` (Settings/EnvFile), app/core/config.py (Settings/Parse, Settings/Config),
-- app/services/admin_settings_service.py (Settings/Fields, Settings/Update) and
-- app/core/runtime_config.py (Settings/Runtime).
pub mod EnvFile
pub mod Lines
pub mod Entries
pub mod RoundTrip
pub mod Files
pub mod Fields
pub mod Parse
pub mod Parsers
pub mod Config
mod Unique
mod Ensures
pub mod WellFormed
pub mod Update
pub mod Routes
pub mod Outcomes
pub mod Values
pub mod Validity
pub mod Written
pub mod Effects
pub mod Failures
pub mod Runtime
mod Samples
mod Tests
