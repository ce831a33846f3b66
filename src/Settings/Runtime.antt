-- ===== src/Settings/Runtime.antt =====
-- app/core/runtime_config.py: the configuration that the requests read, and its replacement. A limit or a
-- cooldown below 0 acts as 0 does.
use parcel_explorer.Prelude.{
  ◌⊎◌, ℕ, ◌*◌, ◌≡◌, refl, ap, ◌∙◌, Text, Bool, true, false, not, ◌||◌, List, ℤ, pos, negsuc, ℤ_eq,
  arith, Bool-cases, inl, inr, if◌then◌else◌,
}
use parcel_explorer.Auth.Limiter.{Limiter, new_limiter}
use parcel_explorer.Settings.Config.{Settings}

pub record RuntimeConfig (F N : Type 0) : Type 0 where
  pub app_name : Text
  pub center_lon : F
  pub center_lat : F
  pub default_zoom : ℤ
  pub vworld_wmts_key : Text
  pub vworld_geocoder_key : Text
  pub base_dir : Text
  pub admin_id : Text
  pub admin_pw_hash : Text
  pub allowed_ip_networks : List N
  pub max_upload_size_mb : ℤ
  pub max_upload_rows : ℤ
  pub login_max_attempts : ℤ
  pub login_cooldown_seconds : ℤ
  pub vworld_timeout_s : F
  pub vworld_retries : ℤ
  pub vworld_backoff_s : F
  pub session_https_only : Bool
  pub session_cookie_name : Text
  pub session_namespace : Text
  pub trust_proxy_headers : Bool
  pub trusted_proxy_networks : List N
  pub upload_sheet_name : Text
  pub allowed_web_track_paths : List Text
  pub public_download_max_size_mb : ℤ
  pub public_download_rate_limit_per_minute : ℤ
  pub public_download_allowed_exts : List Text
  pub public_download_dir : Text
  pub admin_enabled : Bool

-- app.state
pub record AppState (F N : Type 0) : Type 0 where
  pub config : RuntimeConfig F N
  pub login_limiter : Limiter

abbrev pub at_least_0 : ℤ → ℕ
at_least_0 (pos n) = n
at_least_0 (negsuc n) = 0

-- `ticks` is the number of ticks of a second
abbrev pub limiter_for : ℕ → ℤ → ℤ → Limiter
limiter_for ticks max_attempts cooldown_seconds =
    new_limiter (at_least_0 max_attempts) (at_least_0 cooldown_seconds * ticks)

module _ {F N : Type 0} where
  unfoldable pub runtime_config : Settings F N → RuntimeConfig F N
  runtime_config s = record {
    app_name = s.app_name;
    center_lon = s.map_center_lon;
    center_lat = s.map_center_lat;
    default_zoom = s.map_default_zoom;
    vworld_wmts_key = s.vworld_wmts_key;
    vworld_geocoder_key = s.vworld_geocoder_key;
    base_dir = s.base_dir;
    admin_id = s.admin_id;
    admin_pw_hash = s.admin_pw_hash;
    allowed_ip_networks = s.allowed_ip_networks;
    max_upload_size_mb = s.max_upload_size_mb;
    max_upload_rows = s.max_upload_rows;
    login_max_attempts = s.login_max_attempts;
    login_cooldown_seconds = s.login_cooldown_seconds;
    vworld_timeout_s = s.vworld_timeout_s;
    vworld_retries = s.vworld_retries;
    vworld_backoff_s = s.vworld_backoff_s;
    session_https_only = s.session_https_only;
    session_cookie_name = s.session_cookie_name;
    session_namespace = s.session_namespace;
    trust_proxy_headers = s.trust_proxy_headers;
    trusted_proxy_networks = s.trusted_proxy_networks;
    upload_sheet_name = s.upload_sheet_name;
    allowed_web_track_paths = s.allowed_web_track_paths;
    public_download_max_size_mb = s.public_download_max_size_mb;
    public_download_rate_limit_per_minute = s.public_download_rate_limit_per_minute;
    public_download_allowed_exts = s.public_download_allowed_exts;
    public_download_dir = s.public_download_dir;
    admin_enabled = s.admin_enabled;
  }

  abbrev pub are_limits_changed : RuntimeConfig F N → Settings F N → Bool
  are_limits_changed old_config new_settings =
      not (ℤ_eq old_config.login_max_attempts new_settings.login_max_attempts)
      || not (ℤ_eq old_config.login_cooldown_seconds new_settings.login_cooldown_seconds)

  unfoldable pub rebuild_runtime_state : ℕ → AppState F N → Settings F N → AppState F N
  rebuild_runtime_state ticks app new_settings =
      if are_limits_changed app.config new_settings
      then record {
        config = runtime_config new_settings;
        login_limiter =
            limiter_for ticks new_settings.login_max_attempts new_settings.login_cooldown_seconds;
      }
      else record app { config = runtime_config new_settings }

  -- the limiter enforces what the configuration says
  pub record IsInStep (ticks : ℕ) (app : AppState F N) : Type 0 where
    pub attempts : app.login_limiter.max_attempts ≡ at_least_0 app.config.login_max_attempts
    pub cooldown : app.login_limiter.cooldown ≡ at_least_0 app.config.login_cooldown_seconds * ticks

eq-of-ℤ_eq : (m n : ℤ) → ℤ_eq m n ≡ true → m ≡ n
eq-of-ℤ_eq (pos m) (pos n) h = ap pos (ground (arith, h))
eq-of-ℤ_eq (negsuc m) (negsuc n) h = ap negsuc (ground (arith, h))
eq-of-ℤ_eq (pos m) (negsuc n) h = absurd (ground (arith, h))
eq-of-ℤ_eq (negsuc m) (pos n) h = absurd (ground (arith, h))

ℤ_eq_refl : (n : ℤ) → ℤ_eq n n ≡ true
ℤ_eq_refl (pos n) = ground arith
ℤ_eq_refl (negsuc n) = ground arith

module _ {F N : Type 0} where
  -- A rebuild replaces the configuration by that of the new settings. If both the limit and the cooldown of the
  -- logins stay the same, it keeps the limiter with all its failures and lockouts; otherwise it starts a new one
  -- of the new settings. Afterwards the limiter enforces the limit and the cooldown of the configuration, if it
  -- did before.
  pub rebuild_runtime_state_lem :
      (ticks : ℕ) (app : AppState F N) (s : Settings F N)
      → IsInStep ticks app
      → (rebuild_runtime_state ticks app s).config ≡ runtime_config s
        × IsInStep ticks (rebuild_runtime_state ticks app s)
        × (((app.config.login_max_attempts ≡ s.login_max_attempts)
              × (app.config.login_cooldown_seconds ≡ s.login_cooldown_seconds)
              × (rebuild_runtime_state ticks app s).login_limiter ≡ app.login_limiter)
            ⊎ (¬ (
                  (app.config.login_max_attempts ≡ s.login_max_attempts)
                  × (app.config.login_cooldown_seconds ≡ s.login_cooldown_seconds))
                × (rebuild_runtime_state ticks app s).login_limiter
                  ≡ limiter_for ticks s.login_max_attempts s.login_cooldown_seconds))
  unfolding rebuild_runtime_state runtime_config
  rebuild_runtime_state_lem ticks app s h = elim (Bool-cases (are_limits_changed app.config s)) [
    | inl e ↦ rw e (refl, record { attempts = refl; cooldown = refl }, inr (changed e, refl))
    | inr e ↦ rw e (
      refl,
      record {
        attempts = h.attempts ∙ ap at_least_0 (same_attempts e);
        cooldown = h.cooldown ∙ ap (λ n. at_least_0 n * ticks) (same_cooldown e);
      },
      inl (same_attempts e, same_cooldown e, refl),
    )
  ]
    where
      changed :
          are_limits_changed app.config s ≡ true
          → ¬ (
              (app.config.login_max_attempts ≡ s.login_max_attempts)
              × (app.config.login_cooldown_seconds ≡ s.login_cooldown_seconds))
      changed e same = ground (
        arith,
        e,
        same.0,
        same.1,
        ℤ_eq_refl s.login_max_attempts,
        ℤ_eq_refl s.login_cooldown_seconds,
      )

      same_attempts :
          are_limits_changed app.config s ≡ false
          → app.config.login_max_attempts ≡ s.login_max_attempts
      same_attempts e = eq-of-ℤ_eq _ _ (ground (arith, e))

      same_cooldown :
          are_limits_changed app.config s ≡ false
          → app.config.login_cooldown_seconds ≡ s.login_cooldown_seconds
      same_cooldown e = eq-of-ℤ_eq _ _ (ground (arith, e))
