-- ===== src/Settings/Config.antt =====
-- `Settings` and `get_settings` of app/core/config.py. A call of `get_settings` is one that the cache does
-- not answer; what `load_dotenv` of python-dotenv does with the file is a parameter.
use parcel_explorer.Prelude.{Text, codes, Bool, true, false, Option, none, some, List, ℤ, TextDict}
use parcel_explorer.Settings.EnvFile.{load_dotenv_if_present}
use parcel_explorer.Settings.Parse.{
  Python, Loaded, loaded, ◌>>=◌, or_value_error, or_text, getenv, or_default,
}
use parcel_explorer.Settings.Parsers.{
  stripped, get_required_env, parse_allowed_ips, parse_network_list, parse_bool_env,
  parse_session_cookie_name, parse_session_namespace, parse_allowed_exts,
  parse_allowed_web_track_paths, validate_admin_hash,
}

pub record Settings (F N : Type 0) : Type 0 where
  pub app_name : Text
  pub map_center_lon : F
  pub map_center_lat : F
  pub map_default_zoom : ℤ
  pub vworld_wmts_key : Text
  pub vworld_geocoder_key : Text
  pub admin_id : Text
  pub admin_pw_hash : Text
  pub secret_key : Text
  pub allowed_ip_networks : List N
  pub max_upload_size_mb : ℤ
  pub max_upload_rows : ℤ
  pub login_max_attempts : ℤ
  pub login_cooldown_seconds : ℤ
  pub vworld_timeout_s : F
  pub vworld_retries : ℤ
  pub vworld_backoff_s : F
  pub session_https_only : Bool
  pub session_cookie_name : Text
  pub session_namespace : Text
  pub trust_proxy_headers : Bool
  pub trusted_proxy_networks : List N
  pub upload_sheet_name : Text
  pub allowed_web_track_paths : List Text
  pub public_download_max_size_mb : ℤ
  pub public_download_rate_limit_per_minute : ℤ
  pub public_download_allowed_exts : List Text
  pub public_download_dir : Text
  pub raw_query_export_max_rows : ℤ
  pub raw_query_export_timeout_s : F
  pub admin_enabled : Bool
  pub seed_lands_on_empty : Bool
  pub base_dir : Text

module _ {F N : Type 0} (py : Python F N) where
  -- what `load_dotenv` leaves in the environment; `none` where its import fails
  abbrev pub load_environment :
      Option (Text → TextDict Text → TextDict Text) → Option Text → TextDict Text → TextDict Text
  load_environment dotenv none environ = environ
  load_environment none (some file) environ =
      load_dotenv_if_present py.characters (some file) environ
  load_environment (some load_dotenv) (some file) environ = load_dotenv file environ

  abbrev pub int_of : Text → Loaded ℤ
  int_of text = or_value_error (py.to_int text)

  abbrev pub float_of : Text → Loaded F
  float_of text = or_value_error (py.to_float text)

  -- the call of `Settings(...)`, its arguments from left to right
  unfoldable pub read_settings : Text → TextDict Text → Loaded (Settings F N)
  read_settings base environ = do
    center_lon ← float_of (or_default (getenv environ "MAP_CENTER_LON") "126.4500")
    center_lat ← float_of (or_default (getenv environ "MAP_CENTER_LAT") "36.7848")
    zoom ← int_of (or_default (getenv environ "MAP_DEFAULT_ZOOM") "14")
    wmts_key ← get_required_env py environ "VWORLD_WMTS_KEY"
    geocoder_key ← get_required_env py environ "VWORLD_GEOCODER_KEY"
    admin ← get_required_env py environ "ADMIN_ID"
    given_hash ← get_required_env py environ "ADMIN_PW_HASH"
    pw_hash ← validate_admin_hash py given_hash
    secret ← get_required_env py environ "SECRET_KEY"
    allowed ←
        parse_allowed_ips py (or_default (getenv environ "ALLOWED_IPS") "127.0.0.1/32,::1/128")
    size_mb ← int_of (or_default (getenv environ "MAX_UPLOAD_SIZE_MB") "10")
    rows ← int_of (or_default (getenv environ "MAX_UPLOAD_ROWS") "5000")
    attempts ← int_of (or_default (getenv environ "LOGIN_MAX_ATTEMPTS") "5")
    cooldown ← int_of (or_default (getenv environ "LOGIN_COOLDOWN_SECONDS") "300")
    timeout ← float_of (or_default (getenv environ "VWORLD_TIMEOUT_S") "5.0")
    retries ← int_of (or_default (getenv environ "VWORLD_RETRIES") "3")
    backoff ← float_of (or_default (getenv environ "VWORLD_BACKOFF_S") "0.5")
    https_only ← parse_bool_env py environ "SESSION_HTTPS_ONLY" true
    cookie ← parse_session_cookie_name py (getenv environ "SESSION_COOKIE_NAME")
    namespace ← parse_session_namespace py (getenv environ "SESSION_NAMESPACE")
    trust ← parse_bool_env py environ "TRUST_PROXY_HEADERS" false
    trusted ← parse_network_list py (or_default (getenv environ "TRUSTED_PROXY_IPS") "")
    paths ←
        parse_allowed_web_track_paths py (or_default (getenv environ "ALLOWED_WEB_TRACK_PATHS") "/")
    download_mb ← int_of (or_default (getenv environ "PUBLIC_DOWNLOAD_MAX_SIZE_MB") "25")
    per_minute ← int_of (or_default (getenv environ "PUBLIC_DOWNLOAD_RATE_LIMIT_PER_MINUTE") "10")
    exts ←
        parse_allowed_exts py
          (or_default (getenv environ "PUBLIC_DOWNLOAD_ALLOWED_EXTS") "pdf,csv,xlsx")
    export_rows ← int_of (or_default (getenv environ "RAW_QUERY_EXPORT_MAX_ROWS") "100000")
    export_timeout ← float_of (or_default (getenv environ "RAW_QUERY_EXPORT_TIMEOUT_S") "30.0")
    enabled ← parse_bool_env py environ "ADMIN_ENABLED" true
    seed ← parse_bool_env py environ "SEED_LANDS_ON_EMPTY" false
    loaded record {
      app_name = or_default (getenv environ "APP_NAME") "관심 필지 지도 (Parcel Explorer)";
      map_center_lon = center_lon;
      map_center_lat = center_lat;
      map_default_zoom = zoom;
      vworld_wmts_key = wmts_key;
      vworld_geocoder_key = geocoder_key;
      admin_id = admin;
      admin_pw_hash = pw_hash;
      secret_key = secret;
      allowed_ip_networks = allowed;
      max_upload_size_mb = size_mb;
      max_upload_rows = rows;
      login_max_attempts = attempts;
      login_cooldown_seconds = cooldown;
      vworld_timeout_s = timeout;
      vworld_retries = retries;
      vworld_backoff_s = backoff;
      session_https_only = https_only;
      session_cookie_name = cookie;
      session_namespace = namespace;
      trust_proxy_headers = trust;
      trusted_proxy_networks = trusted;
      upload_sheet_name =
          or_text (stripped py (or_default (getenv environ "UPLOAD_SHEET_NAME") "목록")) (codes "목록");
      allowed_web_track_paths = paths;
      public_download_max_size_mb = download_mb;
      public_download_rate_limit_per_minute = per_minute;
      public_download_allowed_exts = exts;
      public_download_dir =
          or_text
            (stripped py (or_default (getenv environ "PUBLIC_DOWNLOAD_DIR") "data/public_download"))
            (codes "data/public_download");
      raw_query_export_max_rows = export_rows;
      raw_query_export_timeout_s = export_timeout;
      admin_enabled = enabled;
      seed_lands_on_empty = seed;
      base_dir = base;
    }

  -- what `get_settings` returns or raises, and the environment after the file is loaded
  unfoldable pub get_settings :
      Option (Text → TextDict Text → TextDict Text)
      → Text
      → Option Text
      → TextDict Text
      → Loaded (Settings F N) × TextDict Text
  get_settings dotenv base file environ =
      let environ' = load_environment dotenv file environ in (read_settings base environ', environ')
