-- ===== src/Settings/Tests.antt =====
-- Runs of the settings, and their theorems at a concrete file, environment and form.
use parcel_explorer.Prelude.{
  ℕ, zero, suc, ◌+◌, ◌-◌, ◌*◌, ◌≤◌, ◌≡◌, ◌≢◌, ◌⊎◌, inl, inr, refl, sym, ap, ◌∙◌, Text, String,
  codes, Bool, true, false, not, ◌&&◌, ◌||◌, ◌==◌, ltb, leb, Option, none, some, List, [], ◌∷◌,
  ◌++◌, map, ℤ, pos, negsuc, arith, TextDict, find, HasDistinctTexts, text_eq, CharTests,
  if◌then◌else◌,
}
use mathlib.Core.Option.{some-injective, none-ne-some}
use parcel_explorer.Settings.EnvFile.{
  Characters, entry_of, parse_entry, update_env_file, load_dotenv_if_present, read_lines, lines_of,
}
use parcel_explorer.Settings.Entries.{HasFormat}
use parcel_explorer.Settings.RoundTrip.{IsRegular, AreRegular, ArePlain, first_of}
use parcel_explorer.Settings.Files.{load-update_env_file}
use parcel_explorer.Settings.Parse.{Python, Loaded, loaded, failed, all_text, within}
use parcel_explorer.Settings.Config.{read_settings, get_settings}
use parcel_explorer.Settings.Fields.{Printer}
use parcel_explorer.Settings.WellFormed.{IsWellFormed, get_settings-IsWellFormed}
use parcel_explorer.Settings.Runtime.{
  limiter_for, runtime_config, rebuild_runtime_state, IsInStep, rebuild_runtime_state_lem,
}
use parcel_explorer.Settings.Update.{
  Bcrypt, Store, SettingsUpdateCommand, PasswordUpdateCommand, applied, apply_settings_update,
  apply_password_update, validate_updates, put_all, cleaned,
}
use parcel_explorer.Settings.Routes.{
  World, Host, redirected, http_error, server_error, update_settings, settings_command,
}
use parcel_explorer.Settings.Outcomes.{AcceptsSettings, AcceptsPassword, IsRejected}
use parcel_explorer.Settings.Validity.{AreKept}
use parcel_explorer.Settings.Written.{
  IsAcceptable, IsWritten, apply_settings_update_lem, apply_password_update_lem,
}
use parcel_explorer.Settings.Effects.{ReachesState, update_settings-ReachesState}
use parcel_explorer.Settings.Failures.{update_settings-http_error, update_settings-empty_key}
use parcel_explorer.Settings.Samples.{
  characters, python, old_file, updates, bcrypt, printer, environ, host, named, settings, app,
  context, store, settings_update, password_update, form_with, world, forged, keyless,
}

format-HasFormat : HasFormat characters
format-HasFormat = record {
  equals_kept = refl;
  quote_kept = refl;
  equals_inside = refl;
  quote_inside = refl;
  newline_breaks = refl;
  return_breaks = refl;
}

-- the update of a file, by evaluation
updated_file :
    update_env_file characters (some old_file) updates
    ≡ codes "# map"
      ++ 10 ∷ codes "APP_NAME=\"New map\""
      ++ 10 ∷ codes "ADMIN_ID=root"
      ++ 10 ∷ codes "LOGIN_MAX_ATTEMPTS=3"
      ++ 10 ∷ []
unfolding update_env_file parcel_explorer.Settings.EnvFile.write_text
    parcel_explorer.Settings.EnvFile.updated_lines parcel_explorer.Settings.EnvFile.update_lines
    parcel_explorer.Settings.EnvFile.splitlines parcel_explorer.Settings.EnvFile.universal_newlines
    entry_of parcel_explorer.Prelude.strip parcel_explorer.Prelude.cut_at find
    parcel_explorer.Settings.EnvFile.format_env_value parcel_explorer.Prelude.drop_key
updated_file = refl

IsRegular-entry :
    (line : Text) (entry : Text × Text)
    → entry_of characters line ≡ some entry
    → (parse_entry characters entry).0 ≡ entry.0
    → IsRegular characters line
IsRegular-entry line entry e h other f = rw (sym (some-injective _ _ (sym e ∙ f))) h

IsRegular-none : (line : Text) → entry_of characters line ≡ none → IsRegular characters line
IsRegular-none line e other f = absurd (none-ne-some other (sym e ∙ f))

old_lines-AreRegular : AreRegular characters (lines_of characters (some old_file))
unfolding update_env_file parcel_explorer.Settings.EnvFile.write_text
    parcel_explorer.Settings.EnvFile.updated_lines parcel_explorer.Settings.EnvFile.update_lines
    parcel_explorer.Settings.EnvFile.splitlines parcel_explorer.Settings.EnvFile.universal_newlines
    entry_of parcel_explorer.Prelude.strip parcel_explorer.Prelude.cut_at find
    parcel_explorer.Settings.EnvFile.format_env_value parcel_explorer.Prelude.drop_key parse_entry
old_lines-AreRegular = (
  IsRegular-none (codes "# map") refl,
  (
    IsRegular-entry (codes "APP_NAME=Old") (codes "APP_NAME", codes "Old") refl refl,
    (IsRegular-entry (codes "ADMIN_ID=root") (codes "ADMIN_ID", codes "root") refl refl, tt),
  ),
)

updates-ArePlain : ArePlain characters updates
updates-ArePlain = (
  record {
    no_comment = refl;
    no_equals = refl;
    one_line_key = refl;
    one_line_value = refl;
    key = record { left = refl; right = refl };
    value = record { left = refl; right = refl };
    unquoted = record { left = refl; right = refl };
    bare = record { left = refl; right = refl };
  },
  (
    record {
      no_comment = refl;
      no_equals = refl;
      one_line_key = refl;
      one_line_value = refl;
      key = record { left = refl; right = refl };
      value = record { left = refl; right = refl };
      unquoted = record { left = refl; right = refl };
      bare = record { left = refl; right = refl };
    },
    tt,
  ),
)

load-update_env_file_example :
    find (codes "APP_NAME") (
      load_dotenv_if_present characters
        (some (update_env_file characters (some old_file) updates))
        [])
    ≡ first_of none (
        first_of
          (find (codes "APP_NAME") updates)
          (find (codes "APP_NAME") (load_dotenv_if_present characters (some old_file) [])))
unfolding find
load-update_env_file_example =
    load-update_env_file characters format-HasFormat (some old_file) updates [] (codes "APP_NAME")
      old_lines-AreRegular updates-ArePlain

get_settings-IsWellFormed_example : IsWellFormed python settings
unfolding find read_settings get_settings load_dotenv_if_present
    parcel_explorer.Settings.EnvFile.load_lines parse_entry parcel_explorer.Prelude.put
    parcel_explorer.Settings.Parsers.get_required_env
    parcel_explorer.Settings.Parsers.validate_admin_hash
    parcel_explorer.Settings.Parse.is_bcrypt_hash parcel_explorer.Settings.Parsers.parse_allowed_ips
    parcel_explorer.Settings.Parse.split_on parcel_explorer.Settings.Parsers.parse_bool_env
    parcel_explorer.Settings.Parsers.parse_session_cookie_name
    parcel_explorer.Settings.Parse.is_cookie_name
    parcel_explorer.Settings.Parsers.parse_session_namespace
    parcel_explorer.Settings.Parsers.parse_network_list
    parcel_explorer.Settings.Parsers.parse_allowed_web_track_paths
    parcel_explorer.Prelude.starts_with parcel_explorer.Settings.Parse.fromkeys
    parcel_explorer.Settings.Parsers.parse_allowed_exts parcel_explorer.Settings.EnvFile.splitlines
    parcel_explorer.Settings.EnvFile.universal_newlines entry_of parcel_explorer.Prelude.strip
    parcel_explorer.Prelude.cut_at
get_settings-IsWellFormed_example =
    get_settings-IsWellFormed python none (codes "/srv") (some old_file) environ settings refl

app-IsInStep : IsInStep 1 app
unfolding runtime_config
app-IsInStep = record { attempts = refl; cooldown = refl }

rebuild_runtime_state_lem_example :
    (rebuild_runtime_state 1 app (named (codes "New") 3 [])).config
      ≡ runtime_config (named (codes "New") 3 [])
    × IsInStep 1 (rebuild_runtime_state 1 app (named (codes "New") 3 []))
    × (((app.config.login_max_attempts ≡ pos 3)
          × (app.config.login_cooldown_seconds ≡ pos 300)
          × (rebuild_runtime_state 1 app (named (codes "New") 3 [])).login_limiter
            ≡ app.login_limiter)
        ⊎ (¬ (
              (app.config.login_max_attempts ≡ pos 3)
              × (app.config.login_cooldown_seconds ≡ pos 300))
            × (rebuild_runtime_state 1 app (named (codes "New") 3 [])).login_limiter
              ≡ limiter_for 1 (pos 3) (pos 300)))
rebuild_runtime_state_lem_example =
    rebuild_runtime_state_lem 1 app (named (codes "New") 3 []) app-IsInStep

settings_update-HasDistinctTexts : HasDistinctTexts settings_update.updates
unfolding find
settings_update-HasDistinctTexts = (refl, tt)

apply_settings_update_lem_example :
    (IsAcceptable python printer bcrypt settings_update
      × ((values : TextDict Text) × (apply_settings_update python printer bcrypt settings_update
              store).0
            ≡ applied values
          × AreKept python printer settings_update.updates values
          × IsWritten python values store
              (apply_settings_update python printer bcrypt settings_update store).1))
    ⊎ (¬ IsAcceptable python printer bcrypt settings_update
        × IsRejected store (apply_settings_update python printer bcrypt settings_update store))
apply_settings_update_lem_example =
    apply_settings_update_lem python printer bcrypt settings_update store
      settings_update-HasDistinctTexts

apply_password_update_lem_example :
    ((new_hash : Text) × AcceptsPassword python printer bcrypt password_update new_hash
      × (apply_password_update python printer bcrypt password_update store).0 ≡ applied new_hash
      × IsWritten python
          ((codes "ADMIN_PW_HASH", new_hash) ∷ [])
          store
          (apply_password_update python printer bcrypt password_update store).1)
    ⊎ (¬ ((new_hash : Text) × AcceptsPassword python printer bcrypt password_update new_hash)
        × IsRejected store (apply_password_update python printer bcrypt password_update store))
apply_password_update_lem_example =
    apply_password_update_lem python printer bcrypt password_update store

-- the status of the answer to a form, by evaluation
form_is_redirected :
    (update_settings python printer bcrypt host context (form_with (codes "k1")) world).0
    ≡ redirected "/admin/?updated=1"
unfolding update_env_file parcel_explorer.Settings.EnvFile.write_text
    parcel_explorer.Settings.EnvFile.updated_lines parcel_explorer.Settings.EnvFile.update_lines
    parcel_explorer.Settings.EnvFile.splitlines parcel_explorer.Settings.EnvFile.universal_newlines
    entry_of parcel_explorer.Prelude.strip parcel_explorer.Prelude.cut_at find
    parcel_explorer.Settings.EnvFile.format_env_value parcel_explorer.Prelude.drop_key read_settings
    get_settings load_dotenv_if_present parcel_explorer.Settings.EnvFile.load_lines parse_entry
    parcel_explorer.Prelude.put parcel_explorer.Settings.Parsers.get_required_env
    parcel_explorer.Settings.Parsers.validate_admin_hash
    parcel_explorer.Settings.Parse.is_bcrypt_hash parcel_explorer.Settings.Parsers.parse_allowed_ips
    parcel_explorer.Settings.Parse.split_on parcel_explorer.Settings.Parsers.parse_bool_env
    parcel_explorer.Settings.Parsers.parse_session_cookie_name
    parcel_explorer.Settings.Parse.is_cookie_name
    parcel_explorer.Settings.Parsers.parse_session_namespace
    parcel_explorer.Settings.Parsers.parse_network_list
    parcel_explorer.Settings.Parsers.parse_allowed_web_track_paths
    parcel_explorer.Prelude.starts_with parcel_explorer.Settings.Parse.fromkeys
    parcel_explorer.Settings.Parsers.parse_allowed_exts update_settings
    parcel_explorer.Settings.Routes.call_get_settings
    parcel_explorer.Settings.Update.apply_settings_update
    parcel_explorer.Settings.Update.validate_updates
    parcel_explorer.Settings.Update.normalize_update_value
    parcel_explorer.Settings.Fields.collect_settings_updates
    parcel_explorer.Settings.Fields.field_by_key runtime_config
form_is_redirected = refl

update_settings-ReachesState_example :
    ReachesState python printer host
      (form_with (codes "k1"))
      world
      (update_settings python printer bcrypt host context (form_with (codes "k1")) world).1
update_settings-ReachesState_example =
    update_settings-ReachesState python printer bcrypt host context (form_with (codes "k1")) world
      "/admin/?updated=1" tt form_is_redirected

update_settings-http_error_example :
    (update_settings python printer bcrypt host forged (form_with (codes "k1")) world).1 ≡ world
unfolding update_settings parcel_explorer.Settings.Update.apply_settings_update
update_settings-http_error_example =
    update_settings-http_error python printer bcrypt host forged (form_with (codes "k1")) world 403
      (codes "CSRF 토큰 검증에 실패했습니다.") refl

keyless-AcceptsSettings :
    AcceptsSettings python printer bcrypt
      (settings_command python printer bcrypt host context (form_with []) world)
      keyless
unfolding find parcel_explorer.Prelude.strip update_settings
    parcel_explorer.Settings.Routes.call_get_settings
    parcel_explorer.Settings.Update.apply_settings_update
    parcel_explorer.Settings.Update.validate_updates
    parcel_explorer.Settings.Update.normalize_update_value
    parcel_explorer.Settings.Fields.collect_settings_updates
    parcel_explorer.Settings.Fields.field_by_key runtime_config
    parcel_explorer.Settings.Parse.split_on
keyless-AcceptsSettings = record {
  csrf = refl;
  given = λ e. ground (arith, e);
  confirmed = refl;
  valid = refl;
}

update_settings-empty_key_example :
    (update_settings python printer bcrypt host context (form_with []) world).0 ≡ server_error
    × (update_settings python printer bcrypt host context (form_with []) world).1.app ≡ app
    × (update_settings python printer bcrypt host context (form_with []) world).1.store.env_file
      ≡ some (update_env_file characters (some old_file) keyless)
unfolding find
update_settings-empty_key_example =
    update_settings-empty_key python printer bcrypt host context (form_with []) world keyless tt
      keyless-AcceptsSettings refl
