-- ===== src/Settings/Samples.antt =====
-- A concrete Python, file, environment, form and program, on which the theorems of the settings are run.
use parcel_explorer.Prelude.{
  ℕ, zero, suc, ◌+◌, ◌-◌, ◌*◌, Text, codes, Bool, true, false, ◌||◌, ◌==◌, Option, none, some, List,
  [], ◌∷◌, ◌++◌, map, ℤ, pos, TextDict, text_eq, if◌then◌else◌,
}
use parcel_explorer.Auth.Limiter.{new_limiter}
use parcel_explorer.Auth.Service.{RequestContext}
use parcel_explorer.Settings.EnvFile.{Characters}
use parcel_explorer.Settings.Parse.{Python, all_text, within}
use parcel_explorer.Settings.Config.{Settings}
use parcel_explorer.Settings.Fields.{Printer}
use parcel_explorer.Settings.Runtime.{AppState, runtime_config}
use parcel_explorer.Settings.Update.{Bcrypt, Store, SettingsUpdateCommand, PasswordUpdateCommand}
use parcel_explorer.Settings.Routes.{World, Host}

abbrev pub is_white : ℕ → Bool
is_white c = c == 32 || c == 9 || c == 10 || c == 13

abbrev pub characters : Characters
characters = record {
  chars = record { is_space = is_white; is_digit = within b'0' b'9' };
  is_break = λ c. c == 10 || c == 13;
}

abbrev pub lower_char : ℕ → ℕ
lower_char c = if within b'A' b'Z' c then c + 32 else c

abbrev pub digits_value : ℕ → Text → Option ℤ
digits_value n [] = some (pos n)
digits_value n (c ∷ text) =
    let rest = digits_value (n * 10 + (c - 48)) text in if within b'0' b'9' c then rest else none

abbrev pub is_number_char : ℕ → Bool
is_number_char c = within b'0' b'9' c || c == b'.'

abbrev pub is_network_char : ℕ → Bool
is_network_char c = is_number_char c || c == b':' || c == b'/'

abbrev pub some_if : Bool → Text → Option Text
some_if true text = some text
some_if false text = none

-- floats and networks are texts
abbrev pub python : Python Text Text
python = record {
  characters = characters;
  lower = map lower_char;
  to_int = digits_value 0;
  to_float = λ text. some_if (all_text is_number_char text) text;
  ip_network = λ text. some_if (all_text is_network_char text) text;
}

abbrev pub old_file : Text
old_file = codes "# map" ++ 10 ∷ codes "APP_NAME=Old" ++ 10 ∷ codes "ADMIN_ID=root" ++ 10 ∷ []

abbrev pub updates : TextDict Text
updates = (codes "APP_NAME", codes "New map") ∷ (codes "LOGIN_MAX_ATTEMPTS", codes "3") ∷ []

-- 53 characters after the prefix, and the password before the dots
abbrev pub padded : ℕ → Text → Text
padded zero text = []
padded (suc n) [] = b'.' ∷ padded n []
padded (suc n) (c ∷ text) = c ∷ padded n text

abbrev pub hash_of : Text → Text
hash_of password = codes "$2b$12$" ++ padded 53 password

abbrev pub bcrypt : Bcrypt
bcrypt = record {
  checkpw = λ password hash. some (text_eq (hash_of password) hash);
  hashpw = λ password. some (hash_of password);
}

abbrev pub printer : Printer Text Text
printer = record {
  str_int = λ n. [];
  str_float = λ text. text;
  str_network = λ text. text;
  isdigit = within b'0' b'9';
}

abbrev pub environ : TextDict Text
environ =
    (codes "VWORLD_WMTS_KEY", codes "k1")
    ∷ (codes "VWORLD_GEOCODER_KEY", codes "k2")
    ∷ (codes "ADMIN_ID", codes "root")
    ∷ (codes "ADMIN_PW_HASH", hash_of (codes "old"))
    ∷ (codes "SECRET_KEY", codes "s")
    ∷ []

abbrev pub host : Host
host = record { dotenv = none; base = codes "/srv"; ticks = 1 }

abbrev pub named : Text → ℕ → List Text → Settings Text Text
named name attempts allowed = record {
  app_name = name;
  map_center_lon = codes "126.4500";
  map_center_lat = codes "36.7848";
  map_default_zoom = pos 14;
  vworld_wmts_key = codes "k1";
  vworld_geocoder_key = codes "k2";
  admin_id = codes "root";
  admin_pw_hash = hash_of (codes "old");
  secret_key = codes "s";
  allowed_ip_networks = allowed;
  max_upload_size_mb = pos 10;
  max_upload_rows = pos 5000;
  login_max_attempts = pos attempts;
  login_cooldown_seconds = pos 300;
  vworld_timeout_s = codes "5.0";
  vworld_retries = pos 3;
  vworld_backoff_s = codes "0.5";
  session_https_only = true;
  session_cookie_name = codes "session";
  session_namespace = codes "idle-public-property";
  trust_proxy_headers = false;
  trusted_proxy_networks = [];
  upload_sheet_name = codes "목록";
  allowed_web_track_paths = codes "/" ∷ [];
  public_download_max_size_mb = pos 25;
  public_download_rate_limit_per_minute = pos 10;
  public_download_allowed_exts = codes "pdf" ∷ codes "csv" ∷ codes "xlsx" ∷ [];
  public_download_dir = codes "data/public_download";
  raw_query_export_max_rows = pos 100000;
  raw_query_export_timeout_s = codes "30.0";
  admin_enabled = true;
  seed_lands_on_empty = false;
  base_dir = codes "/srv";
}

abbrev pub settings : Settings Text Text
settings = named (codes "Old") 5 (codes "127.0.0.1/32" ∷ codes "::1/128" ∷ [])

abbrev pub app : AppState Text Text
app = record { config = runtime_config settings; login_limiter = new_limiter 5 300 }

abbrev pub context : RequestContext
context = record { request_id = "r1"; actor = "root"; client_ip = "10.0.0.1"; csrf_valid = true }

abbrev pub store : Store Text Text
store = record { env_file = some old_file; environ = environ; cached = some settings }

abbrev pub settings_update : SettingsUpdateCommand
settings_update = record {
  context = context;
  settings_password = codes "old";
  current_password_hash = hash_of (codes "old");
  updates = (codes "LOGIN_MAX_ATTEMPTS", codes " 3 ") ∷ [];
}

abbrev pub password_update : PasswordUpdateCommand
password_update = record {
  context = context;
  current_password = codes "old";
  new_password = codes "new password";
  new_password_confirm = codes "new password";
  current_password_hash = hash_of (codes "old");
}

abbrev pub form_with : Text → TextDict Text
form_with key =
    (codes "settings_password", codes "old")
    ∷ (codes "app_name", codes "New")
    ∷ (codes "vworld_wmts_key", key)
    ∷ (codes "vworld_geocoder_key", codes "k2")
    ∷ (codes "allowed_ips", codes "10.0.0.0/24")
    ∷ (codes "max_upload_size_mb", codes "10")
    ∷ (codes "max_upload_rows", codes "5000")
    ∷ (codes "login_max_attempts", codes "3")
    ∷ (codes "login_cooldown_seconds", codes "300")
    ∷ (codes "vworld_timeout_s", codes "5.0")
    ∷ (codes "vworld_retries", codes "3")
    ∷ (codes "vworld_backoff_s", codes "0.5")
    ∷ (codes "session_https_only", codes "TRUE")
    ∷ (codes "trust_proxy_headers", codes "false")
    ∷ (codes "upload_sheet_name", codes "목록")
    ∷ (codes "public_download_rate_limit_per_minute", codes "10")
    ∷ []

abbrev pub world : World Text Text
world = record { app = app; store = store }

abbrev pub forged : RequestContext
forged = record context { csrf_valid = false }

-- what the form without the map key is cleaned to
abbrev pub keyless : TextDict Text
keyless =
    (codes "APP_NAME", codes "New")
    ∷ (codes "VWORLD_WMTS_KEY", [])
    ∷ (codes "VWORLD_GEOCODER_KEY", codes "k2")
    ∷ (codes "ALLOWED_IPS", codes "10.0.0.0/24")
    ∷ (codes "MAX_UPLOAD_SIZE_MB", codes "10")
    ∷ (codes "MAX_UPLOAD_ROWS", codes "5000")
    ∷ (codes "LOGIN_MAX_ATTEMPTS", codes "3")
    ∷ (codes "LOGIN_COOLDOWN_SECONDS", codes "300")
    ∷ (codes "VWORLD_TIMEOUT_S", codes "5.0")
    ∷ (codes "VWORLD_RETRIES", codes "3")
    ∷ (codes "VWORLD_BACKOFF_S", codes "0.5")
    ∷ (codes "SESSION_HTTPS_ONLY", codes "true")
    ∷ (codes "TRUST_PROXY_HEADERS", codes "false")
    ∷ (codes "TRUSTED_PROXY_IPS", [])
    ∷ (codes "UPLOAD_SHEET_NAME", codes "목록")
    ∷ (codes "PUBLIC_DOWNLOAD_RATE_LIMIT_PER_MINUTE", codes "10")
    ∷ []
