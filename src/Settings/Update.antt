-- ===== src/Settings/Update.antt =====
-- app/services/admin_settings_service.py: the updates that an administrator submits, and the two routes of
-- app/routers/admin.py that call them. `bcrypt` is a parameter; failures of the file system and of the process
-- environment are not modelled.
use parcel_explorer.Prelude.{
  ℕ, Text, codes, Bool, true, false, not, ◌||◌, ltb, Option, none, some, List, [], ◌∷◌, ◌++◌,
  TextDict, put, text_eq, length, if◌then◌else◌,
}
use parcel_explorer.Auth.Service.{RequestContext}
use parcel_explorer.Settings.EnvFile.{update_env_file}
use parcel_explorer.Settings.Parse.{Python, split_on, is_among, all_text}
use parcel_explorer.Settings.Parsers.{stripped}
use parcel_explorer.Settings.Config.{Settings}
use parcel_explorer.Settings.Fields.{
  FieldKind, str_kind, int_kind, float_kind, bool_kind, network_list_kind, Printer,
  AdminSettingField, field_by_key,
}

-- the cleaned value, or the message of the `ValueError`
pub data Cleaned {ℓ} (A : Type ℓ) : Type ℓ where
  cleaned : A → Cleaned A
  invalid : Text → Cleaned A

abbrev pub then_cleaned {ℓ κ} : {A : Type ℓ} {B : Type κ} → Cleaned A → (A → Cleaned B) → Cleaned B
then_cleaned (cleaned a) k = k a
then_cleaned (invalid message) k = invalid message

-- text.isdigit()
abbrev pub is_digits : (ℕ → Bool) → Text → Bool
is_digits test [] = false
is_digits test (c ∷ text) = all_text test (c ∷ text)

module _ {F N : Type 0} (py : Python F N) (pr : Printer F N) where
  -- the entries of a network list, one by one
  abbrev pub check_networks : Text → List Text → Text → Cleaned Text
  check_networks key [] raw = cleaned raw
  check_networks key (item ∷ items) raw =
      let rest = check_networks key items raw in
      elim (stripped py item) [
        | [] ↦ rest
        | c ∷ candidate ↦ elim (py.ip_network (c ∷ candidate)) [
          | none ↦ invalid (codes "Invalid " ++ key ++ codes " entry: " ++ (c ∷ candidate))
          | some network ↦ rest
        ]
      ]

  -- `raw` is the stripped value
  abbrev pub normalize_raw : Text → FieldKind → Text → Cleaned Text
  normalize_raw key int_kind raw =
      if is_digits pr.isdigit raw
      then cleaned raw
      else invalid (key ++ codes " must be an integer.")
  normalize_raw key float_kind raw = elim (py.to_float raw) [
    | none ↦ invalid (key ++ codes " must be a float.")
    | some number ↦ cleaned raw
  ]
  normalize_raw key bool_kind raw =
      if is_among (py.lower raw) (codes "true" ∷ codes "false" ∷ [])
      then cleaned (py.lower raw)
      else invalid (key ++ codes " must be true or false.")
  normalize_raw key network_list_kind raw = check_networks key (split_on b',' raw) raw
  normalize_raw key str_kind raw = cleaned raw

  unfoldable pub normalize_update_value : AdminSettingField F N → Text → Cleaned Text
  normalize_update_value field value =
      normalize_raw (codes field.env_key) field.kind (stripped py value)

  -- the items of a dict have different keys, so each item is a new one of the result
  unfoldable pub validate_updates : TextDict Text → Cleaned (TextDict Text)
  validate_updates [] = cleaned []
  validate_updates ((key, value) ∷ updates) =
      let rest = validate_updates updates in
      elim (field_by_key F N key) [
        | none ↦ rest
        | some field ↦
            then_cleaned (normalize_update_value field value)
              (λ text. then_cleaned rest (λ texts. cleaned ((key, text) ∷ texts)))
      ]

-- `checkpw` and `hashpw` of bcrypt; `none` where they raise `ValueError`
pub record Bcrypt : Type 0 where
  pub checkpw : Text → Text → Option Bool
  pub hashpw : Text → Option Text

pub record SettingsUpdateCommand : Type 0 where
  pub context : RequestContext
  pub settings_password : Text
  pub current_password_hash : Text
  pub updates : TextDict Text

pub record PasswordUpdateCommand : Type 0 where
  pub context : RequestContext
  pub current_password : Text
  pub new_password : Text
  pub new_password_confirm : Text
  pub current_password_hash : Text

-- the file `.env`, the environment of the process, and what the cache of `get_settings` holds
pub record Store (F N : Type 0) : Type 0 where
  pub env_file : Option Text
  pub environ : TextDict Text
  pub cached : Option (Settings F N)

-- what is returned, the `ServiceError` that is raised, or another exception
pub data Applied {ℓ} (A : Type ℓ) : Type ℓ where
  applied : A → Applied A
  refused : ℕ → Text → Applied A
  raised : Applied A

-- os.environ.update(values)
abbrev pub put_all : TextDict Text → TextDict Text → TextDict Text
put_all [] environ = environ
put_all ((key, value) ∷ values) environ = put_all values (put key value environ)

-- not text
abbrev pub is_empty : Text → Bool
is_empty [] = true
is_empty (c ∷ text) = false

module _ {F N : Type 0} (py : Python F N) where
  -- `update_env_file`, `os.environ.update` and `cache_clear`
  abbrev pub write_values : TextDict Text → Store F N → Store F N
  write_values values store = record {
    env_file = some (update_env_file py.characters store.env_file values);
    environ = put_all values store.environ;
    cached = none;
  }

module _ {F N : Type 0} (py : Python F N) (pr : Printer F N) (b : Bcrypt) where
  abbrev pub store_cleaned :
      Store F N → Cleaned (TextDict Text) → Applied (TextDict Text) × Store F N
  store_cleaned store (invalid message) = (refused 400 message, store)
  store_cleaned store (cleaned values) = (applied values, write_values py values store)

  unfoldable pub apply_settings_update :
      SettingsUpdateCommand → Store F N → Applied (TextDict Text) × Store F N
  apply_settings_update command store =
      if not command.context.csrf_valid
      then (refused 403 (codes "CSRF 토큰 검증에 실패했습니다."), store)
      else if is_empty command.settings_password
      then (refused 400 (codes "관리자 비밀번호를 입력해주세요."), store)
      else elim (b.checkpw command.settings_password command.current_password_hash) [
        | none ↦ (raised, store)
        | some matches ↦
            if matches
            then store_cleaned store (validate_updates py pr command.updates)
            else (refused 401 (codes "관리자 비밀번호가 올바르지 않습니다."), store)
      ]

  abbrev pub store_hash : Store F N → Option Text → Applied Text × Store F N
  store_hash store none = (raised, store)
  store_hash store (some new_hash) =
      (applied new_hash, write_values py ((codes "ADMIN_PW_HASH", new_hash) ∷ []) store)

  unfoldable pub apply_password_update :
      PasswordUpdateCommand → Store F N → Applied Text × Store F N
  apply_password_update command store =
      if not command.context.csrf_valid
      then (refused 403 (codes "CSRF 토큰 검증에 실패했습니다."), store)
      else if is_empty command.current_password || is_empty command.new_password
      then (refused 400 (codes "비밀번호를 입력해주세요."), store)
      else if not (text_eq command.new_password command.new_password_confirm)
      then (refused 400 (codes "새 비밀번호가 일치하지 않습니다."), store)
      else if ltb (length command.new_password) 8
      then (refused 400 (codes "새 비밀번호는 8자 이상이어야 합니다."), store)
      else elim (b.checkpw command.current_password command.current_password_hash) [
        | none ↦ (raised, store)
        | some matches ↦
            if matches
            then store_hash store (b.hashpw command.new_password)
            else (refused 401 (codes "현재 비밀번호가 올바르지 않습니다."), store)
      ]
