-- ===== src/Settings/WellFormed.antt =====
-- What `get_settings` of app/core/config.py promises of the settings that it returns.
use parcel_explorer.Prelude.{◌≡◌, ◌≢◌, Text, true, false, Option, [], TextDict}
use parcel_explorer.Settings.Parse
use parcel_explorer.Settings.Parse.{
  Loaded, Python, loaded, getenv, or_default, is_cookie_name, is_bcrypt_hash,
}
use parcel_explorer.Settings.Parsers.{
  stripped, get_required_env, parse_allowed_ips, parse_network_list, parse_bool_env,
  parse_session_cookie_name, parse_session_namespace, parse_allowed_exts,
  parse_allowed_web_track_paths, validate_admin_hash,
}
use parcel_explorer.Settings.Config.{
  Settings, read_settings, get_settings, load_environment, int_of, float_of,
}
use parcel_explorer.Settings.Ensures.{
  ArePaths, AreExtensions, Ensures, loaded-Ensures, Ensures-bind, Ensures-skip, or_text-non_empty,
  get_required_env-Ensures, parse_allowed_ips-Ensures, validate_admin_hash-Ensures,
  parse_session_cookie_name-Ensures, parse_session_namespace-Ensures, parse_allowed_exts-Ensures,
  parse_allowed_web_track_paths-Ensures,
}

-- an evaluation of which nothing is needed, and what follows it
infixl 5 ◌>>=◌
◌>>=◌ {ℓ κ μ} :
    {A : Type ℓ} {B : Type κ} {Q : B → Type μ} (e : Loaded A) {k : A → Loaded B}
    → ((a : A) → Ensures Q (k a))
    → Ensures Q (Parse.◌>>=◌ e k)
e >>= f = Ensures-skip e f

-- What holds of the settings of every start that does not fail.
pub record IsWellFormed {F N : Type 0} (py : Python F N) (s : Settings F N) : Type 0 where
  pub vworld_wmts_key : s.vworld_wmts_key ≢ []
  pub vworld_geocoder_key : s.vworld_geocoder_key ≢ []
  pub admin_id : s.admin_id ≢ []
  pub admin_pw_hash : is_bcrypt_hash py.characters.chars s.admin_pw_hash ≡ true
  pub secret_key : s.secret_key ≢ []
  pub allowed_ip_networks : s.allowed_ip_networks ≢ []
  pub session_cookie_name : is_cookie_name s.session_cookie_name ≡ true
  pub session_namespace : s.session_namespace ≢ []
  pub upload_sheet_name : s.upload_sheet_name ≢ []
  pub allowed_web_track_paths : ArePaths s.allowed_web_track_paths
  pub public_download_allowed_exts : AreExtensions s.public_download_allowed_exts
  pub public_download_dir : s.public_download_dir ≢ []

module _ {F N : Type 0} (py : Python F N) where
  read_settings-Ensures :
      (base : Text) (environ : TextDict Text)
      → Ensures (IsWellFormed py) (read_settings py base environ)
  unfolding read_settings
  read_settings-Ensures base environ = do
    center_lon ← float_of py (or_default (getenv environ "MAP_CENTER_LON") "126.4500")
    center_lat ← float_of py (or_default (getenv environ "MAP_CENTER_LAT") "36.7848")
    zoom ← int_of py (or_default (getenv environ "MAP_DEFAULT_ZOOM") "14")
    Ensures-bind (get_required_env py environ "VWORLD_WMTS_KEY")
        (get_required_env-Ensures py environ "VWORLD_WMTS_KEY")
        (λ wmts_key wmts_key_h.
          Ensures-bind (get_required_env py environ "VWORLD_GEOCODER_KEY")
            (get_required_env-Ensures py environ "VWORLD_GEOCODER_KEY")
            (λ geocoder_key geocoder_key_h.
              Ensures-bind (get_required_env py environ "ADMIN_ID")
                (get_required_env-Ensures py environ "ADMIN_ID")
                (λ admin admin_h.
                  Ensures-bind (get_required_env py environ "ADMIN_PW_HASH")
                    (get_required_env-Ensures py environ "ADMIN_PW_HASH")
                    (λ given_hash given_hash_h.
                      Ensures-bind (validate_admin_hash py given_hash)
                        (validate_admin_hash-Ensures py given_hash)
                        (λ pw_hash pw_hash_h.
                          Ensures-bind (get_required_env py environ "SECRET_KEY")
                            (get_required_env-Ensures py environ "SECRET_KEY")
                            (λ secret secret_h.
                              Ensures-bind
                                (parse_allowed_ips py (
                                  or_default (getenv environ "ALLOWED_IPS") "127.0.0.1/32,::1/128"))
                                (parse_allowed_ips-Ensures py (
                                  or_default (getenv environ "ALLOWED_IPS") "127.0.0.1/32,::1/128"))
                                (λ allowed allowed_h. do
                                  size_mb ←
                                      int_of py
                                        (or_default (getenv environ "MAX_UPLOAD_SIZE_MB") "10")
                                  rows ←
                                      int_of py
                                        (or_default (getenv environ "MAX_UPLOAD_ROWS") "5000")
                                  attempts ←
                                      int_of py
                                        (or_default (getenv environ "LOGIN_MAX_ATTEMPTS") "5")
                                  cooldown ←
                                      int_of py
                                        (or_default (getenv environ "LOGIN_COOLDOWN_SECONDS") "300")
                                  timeout ←
                                      float_of py
                                        (or_default (getenv environ "VWORLD_TIMEOUT_S") "5.0")
                                  retries ←
                                      int_of py (or_default (getenv environ "VWORLD_RETRIES") "3")
                                  backoff ←
                                      float_of py
                                        (or_default (getenv environ "VWORLD_BACKOFF_S") "0.5")
                                  https_only ← parse_bool_env py environ "SESSION_HTTPS_ONLY" true
                                  Ensures-bind
                                      (parse_session_cookie_name py
                                        (getenv environ "SESSION_COOKIE_NAME"))
                                      (parse_session_cookie_name-Ensures py
                                        (getenv environ "SESSION_COOKIE_NAME"))
                                      (λ cookie cookie_h.
                                        Ensures-bind
                                          (parse_session_namespace py
                                            (getenv environ "SESSION_NAMESPACE"))
                                          (parse_session_namespace-Ensures py
                                            (getenv environ "SESSION_NAMESPACE"))
                                          (λ namespace namespace_h. do
                                            trust ←
                                                parse_bool_env py environ "TRUST_PROXY_HEADERS"
                                                  false
                                            trusted ←
                                                parse_network_list py (
                                                  or_default (getenv environ "TRUSTED_PROXY_IPS")
                                                    "")
                                            Ensures-bind
                                                (parse_allowed_web_track_paths py (
                                                  or_default
                                                    (getenv environ "ALLOWED_WEB_TRACK_PATHS") "/"))
                                                (parse_allowed_web_track_paths-Ensures py (
                                                  or_default
                                                    (getenv environ "ALLOWED_WEB_TRACK_PATHS") "/"))
                                                (λ paths paths_h. do
                                                  download_mb ← int_of py (
                                                      or_default
                                                        (getenv environ
                                                          "PUBLIC_DOWNLOAD_MAX_SIZE_MB")
                                                        "25")
                                                  per_minute ← int_of py (
                                                      or_default
                                                        (getenv environ
                                                          "PUBLIC_DOWNLOAD_RATE_LIMIT_PER_MINUTE")
                                                        "10")
                                                  Ensures-bind
                                                      (parse_allowed_exts py (
                                                        or_default
                                                          (getenv environ
                                                            "PUBLIC_DOWNLOAD_ALLOWED_EXTS")
                                                          "pdf,csv,xlsx"))
                                                      (parse_allowed_exts-Ensures py (
                                                        or_default
                                                          (getenv environ
                                                            "PUBLIC_DOWNLOAD_ALLOWED_EXTS")
                                                          "pdf,csv,xlsx"))
                                                      (λ exts exts_h. do
                                                        export_rows ← int_of py (
                                                            or_default
                                                            (getenv environ
                                                            "RAW_QUERY_EXPORT_MAX_ROWS")
                                                            "100000")
                                                        export_timeout ← float_of py (
                                                            or_default
                                                            (getenv environ
                                                            "RAW_QUERY_EXPORT_TIMEOUT_S")
                                                            "30.0")
                                                        enabled ←
                                                            parse_bool_env py environ
                                                            "ADMIN_ENABLED" true
                                                        seed ←
                                                            parse_bool_env py environ
                                                            "SEED_LANDS_ON_EMPTY" false
                                                        loaded-Ensures _ record {
                                                          vworld_wmts_key = wmts_key_h;
                                                          vworld_geocoder_key = geocoder_key_h;
                                                          admin_id = admin_h;
                                                          admin_pw_hash = pw_hash_h;
                                                          secret_key = secret_h;
                                                          allowed_ip_networks = allowed_h;
                                                          session_cookie_name = cookie_h;
                                                          session_namespace = namespace_h;
                                                          upload_sheet_name =
                                                            or_text-non_empty
                                                            (stripped py (
                                                            or_default
                                                            (getenv environ "UPLOAD_SHEET_NAME")
                                                            "목록"))
                                                            _ _;
                                                          allowed_web_track_paths = paths_h;
                                                          public_download_allowed_exts = exts_h;
                                                          public_download_dir =
                                                            or_text-non_empty
                                                            (stripped py (
                                                            or_default
                                                            (getenv environ "PUBLIC_DOWNLOAD_DIR")
                                                            "data/public_download"))
                                                            _ _;
                                                        })))))))))))

  -- The settings that `get_settings` returns have keys, an account and a secret that are not empty, a hash of
  -- bcrypt's form, an allowed network, a cookie name of valid characters, 1 to 20 different tracked paths, each of
  -- which starts with a slash, and at least one file extension; whatever the file and the environment hold.
  pub get_settings-IsWellFormed :
      (dotenv : Option (Text → TextDict Text → TextDict Text)) (base : Text) (file : Option Text)
      (environ : TextDict Text) (s : Settings F N)
      → (get_settings py dotenv base file environ).0 ≡ loaded s
      → IsWellFormed py s
  unfolding get_settings
  get_settings-IsWellFormed dotenv base file environ s h =
      (read_settings-Ensures base (load_environment py dotenv file environ)).holds s h
