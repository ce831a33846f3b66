-- ===== src/Lib.antt =====
-- Parcel Explorer: a web service that shows public parcels on a map, with an administrator who
-- signs in, uploads the parcels and has their boundaries collected.
--
-- How the parts interact: the routes in app/routers check the network, the session and the rate
-- limits, and call the services in app/services; a service keeps its data in SQLite through
-- app/repositories. A sign-in reads and changes two states, the session of the cookie and the
-- login limiter; an upload replaces the table of parcels; a boundary job reads the parcels that
-- lack a boundary, asks the VWorld service for each, writes what it finds, and leaves its counts
-- in the table of jobs, which the start-up and the administrator read.
--
--   Prelude: tests, lists and dictionaries that the other files share.
--   RateLimit: app/rate_limit.py. The limiter is the dictionary `_events`; `allow` is the method
--   of that name. RateLimit/Spec states what the limiter promises on the full log of grants.
--   Auth: app/auth_security.py (Auth/Limiter), app/services/auth_service.py (Auth/Service), the
--   session part of app/dependencies.py (Auth/Session) and app/routers/auth.py (Auth/Routes).
--   Functions keep their names.
--   Access: the network check of app/dependencies.py.
--   Client: app/clients/http_client.py.
--   Lands: app/repositories/land_repository.py, one function for each statement on the table;
--   `_replace_land_data` of app/services/upload_service.py (Lands/Replace);
--   app/services/land_service.py (Lands/Pages).
--   Upload: app/validators/land_validators.py (Upload/Rows) and the rest of
--   app/services/upload_service.py (Upload/Request, Upload/Service).
--   Events: app/services/public_event_commands.py (Events/Commands),
--   app/services/map_event_service.py (Events/Normalize, Events/Record) and the tables of
--   app/repositories/event_repository.py (Events/Store); the event route of
--   app/routers/map_router.py with its limits (Events/Routes).
--   Settings: app/core/config.py (Settings/Parse, Settings/Parsers, Settings/Config), the file
--   `.env` that it reads and app/services/admin_settings_service.py writes (Settings/EnvFile),
--   the rest of that service (Settings/Fields, Settings/Update), app/core/runtime_config.py
--   (Settings/Runtime) and the two routes of app/routers/admin.py that change settings
--   (Settings/Routes).
--   Export: app/services/raw_query_export_service.py (Export/Csv, Export/Query); Export/Reader
--   is a reader of CSV files that the export is measured by.
--   Visits: app/services/web_stats_normalizers.py (Visits/Classify, Visits/Normalize),
--   app/services/web_stats_ingest.py and app/repositories/web_visit_write_repository.py
--   (Visits/Record).
--   Geo: app/repositories/job_repository.py (Geo/Jobs) and app/services/geo_service.py
--   (Geo/Update, Geo/Service).
--
-- Times are numbers of ticks, a million to a second, where the source has floats, so a sum of
-- times is exact here. Times in a theorem do not run backwards where it says so. Ids and counts
-- are natural numbers without an upper bound, as Python's are.
--
-- Fuel: `pass` of Geo/Update runs on one more than the next id of the table, and never uses it
-- up, since a batch leaves `after_id` higher. `crawl` of Lands/Pages is a client, and needs more
-- fuel than there are public rows.
--
-- What stands outside of the repository is a parameter: `secrets.compare_digest` and
-- `bcrypt.checkpw` (the record `Backend`), Python's `ipaddress` (`Addresses`), what
-- `requests.get` yields and the exceptions of `requests`, the answers of the VWorld client,
-- `json.loads` and `json.dumps`, what pandas reads from a workbook (`Workbooks`, `Cells`),
-- Python's floats (`Floats`) and the classes of characters that its text methods test, python-
-- dotenv, `int`, `float` and `str.lower` (`Python`, `Host`), `urlparse` and the dates of
-- `datetime` (`WebValues`, `Calendar`), the clock and fresh tokens.
--
-- Not modelled: the session middleware, which is built once at the start (a new
-- SESSION_HTTPS_ONLY needs a restart), locks (a method that holds one is a step), log lines,
-- response headers, failures of the database, writes of other requests between the commits of a
-- boundary job, and the components that the repository has besides: the rankings of map events,
-- the queries and tables of the visit statistics, downloads and health checks.
pub mod Prelude
pub mod RateLimit
pub mod Auth
pub mod Lands
pub mod Geo
pub mod Upload
pub mod Events
pub mod Access
pub mod Client
pub mod Settings
pub mod Export
pub mod Visits
