-- ===== src/Settings/Fields.antt =====
-- app/services/admin_settings_service.py: the settings that the form holds, and the check of their new values.
-- `str` of a number and of a network is a parameter. An attribute's name is the field of `Settings`.
use parcel_explorer.Prelude.{
  ℕ, Text, codes, String, Bool, Option, none, some, List, [], ◌∷◌, ◌++◌, ℤ, map, text_eq, TextDict,
  find, if◌then◌else◌,
}
use parcel_explorer.Settings.Parse.{Python}
use parcel_explorer.Settings.Config.{Settings}

pub data FieldKind : Type 0 where
  str_kind int_kind float_kind bool_kind network_list_kind : FieldKind

-- `str(value)`, and the test `text.isdigit()` of one character
pub record Printer (F N : Type 0) : Type 0 where
  pub str_int : ℤ → Text
  pub str_float : F → Text
  pub str_network : N → Text
  pub isdigit : ℕ → Bool

module _ (F N : Type 0) where
  -- the type of the attribute of a field of this kind
  abbrev pub ValueOf : FieldKind → Type 0
  ValueOf str_kind = Text
  ValueOf int_kind = ℤ
  ValueOf float_kind = F
  ValueOf bool_kind = Bool
  ValueOf network_list_kind = List N

  pub record AdminSettingField : Type 0 where
    pub env_key : String
    pub form_field : String
    pub kind : FieldKind
    pub settings_attr : Settings F N → ValueOf kind

  abbrev setting :
      String → String → (kind : FieldKind) → (Settings F N → ValueOf kind) → AdminSettingField
  setting key name of_kind attribute = record {
    env_key = key;
    form_field = name;
    kind = of_kind;
    settings_attr = attribute;
  }

  abbrev pub admin_settings_fields : List AdminSettingField
  admin_settings_fields =
      setting "APP_NAME" "app_name" str_kind (λ s. s.app_name)
      ∷ setting "VWORLD_WMTS_KEY" "vworld_wmts_key" str_kind (λ s. s.vworld_wmts_key)
      ∷ setting "VWORLD_GEOCODER_KEY" "vworld_geocoder_key" str_kind (λ s. s.vworld_geocoder_key)
      ∷ setting "ALLOWED_IPS" "allowed_ips" network_list_kind (λ s. s.allowed_ip_networks)
      ∷ setting "MAX_UPLOAD_SIZE_MB" "max_upload_size_mb" int_kind (λ s. s.max_upload_size_mb)
      ∷ setting "MAX_UPLOAD_ROWS" "max_upload_rows" int_kind (λ s. s.max_upload_rows)
      ∷ setting "LOGIN_MAX_ATTEMPTS" "login_max_attempts" int_kind (λ s. s.login_max_attempts)
      ∷ setting "LOGIN_COOLDOWN_SECONDS" "login_cooldown_seconds" int_kind
          (λ s. s.login_cooldown_seconds)
      ∷ setting "VWORLD_TIMEOUT_S" "vworld_timeout_s" float_kind (λ s. s.vworld_timeout_s)
      ∷ setting "VWORLD_RETRIES" "vworld_retries" int_kind (λ s. s.vworld_retries)
      ∷ setting "VWORLD_BACKOFF_S" "vworld_backoff_s" float_kind (λ s. s.vworld_backoff_s)
      ∷ setting "SESSION_HTTPS_ONLY" "session_https_only" bool_kind (λ s. s.session_https_only)
      ∷ setting "TRUST_PROXY_HEADERS" "trust_proxy_headers" bool_kind (λ s. s.trust_proxy_headers)
      ∷ setting "TRUSTED_PROXY_IPS" "trusted_proxy_ips" network_list_kind
          (λ s. s.trusted_proxy_networks)
      ∷ setting "UPLOAD_SHEET_NAME" "upload_sheet_name" str_kind (λ s. s.upload_sheet_name)
      ∷ setting "PUBLIC_DOWNLOAD_RATE_LIMIT_PER_MINUTE" "public_download_rate_limit_per_minute"
          int_kind (λ s. s.public_download_rate_limit_per_minute)
      ∷ []

  abbrev with_key : Text → List AdminSettingField → Option AdminSettingField
  with_key key [] = none
  with_key key (field ∷ fields) =
      if text_eq (codes field.env_key) key then some field else with_key key fields

  -- ADMIN_SETTINGS_FIELD_BY_KEY.get(key)
  unfoldable pub field_by_key : Text → Option AdminSettingField
  field_by_key key = with_key key admin_settings_fields

abbrev pub join_texts : Text → List Text → Text
join_texts sep [] = []
join_texts sep (text ∷ []) = text
join_texts sep (text ∷ text' ∷ texts) = text ++ sep ++ join_texts sep (text' ∷ texts)

module _ {F N : Type 0} (py : Python F N) (pr : Printer F N) where
  -- by the kind of the field that the value is of
  abbrev pub serialize_value : (kind : FieldKind) → ValueOf F N kind → Text
  serialize_value bool_kind value = if value then codes "true" else codes "false"
  serialize_value int_kind value = pr.str_int value
  serialize_value float_kind value = pr.str_float value
  serialize_value network_list_kind value = join_texts (codes ",") (map pr.str_network value)
  serialize_value str_kind value = value

  unfoldable pub serialize_setting_value : AdminSettingField F N → Settings F N → Text
  serialize_setting_value field s = serialize_value field.kind (field.settings_attr s)

  unfoldable pub get_current_settings : Settings F N → TextDict Text
  get_current_settings s =
      map (λ field. (codes field.env_key, serialize_setting_value field s))
        (admin_settings_fields F N)

  -- form_data.get(name, ""); a value of the form is a text
  abbrev form_value : TextDict Text → String → Text
  form_value form name = elim (find (codes name) form) [ none ↦ [] | some value ↦ value ]

  unfoldable pub collect_settings_updates : TextDict Text → TextDict Text
  collect_settings_updates form =
      map (λ field. (codes field.env_key, form_value form field.form_field))
        (admin_settings_fields F N)
