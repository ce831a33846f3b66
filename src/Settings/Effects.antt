-- ===== src/Settings/Effects.antt =====
-- What an update of the settings does to the running program: the two routes of app/routers/admin.py with
-- `get_settings` and `rebuild_runtime_state`.
use parcel_explorer.Prelude.{
  ℕ, ◌≡◌, ◌≢◌, inl, inr, refl, sym, ap, ◌∙◌, Text, String, Option, some, arith, TextDict, find,
}
use parcel_explorer.Auth.Service.{RequestContext}
use parcel_explorer.Settings.EnvFile.{update_env_file}
use parcel_explorer.Settings.Parse.{Python, Loaded, loaded, failed}
use parcel_explorer.Settings.Config.{Settings, read_settings, get_settings, load_environment}
use parcel_explorer.Settings.Fields.{Printer, collect_settings_updates}
use parcel_explorer.Settings.Runtime.{AppState, rebuild_runtime_state}
use parcel_explorer.Settings.Update.{
  cleaned, validate_updates, Bcrypt, Store, Applied, applied, refused, raised, put_all,
  write_values, apply_settings_update,
}
use parcel_explorer.Settings.Routes.{
  World, redirected, http_error, Host, call_get_settings, remember, rebuilt, finish,
  update_settings, settings_command,
}
use parcel_explorer.Settings.Outcomes.{IsRejected, apply_settings_update_cases}
use parcel_explorer.Settings.Validity.{AreValid, AreKept, validates-cleaned}
use parcel_explorer.Settings.Values.{
  KeepsEnvironment, find-put_all, HasDistinctTexts-validate_updates, collected-HasDistinctTexts,
  load_environment-keeps,
}

module _ {F N : Type 0} (py : Python F N) (host : Host) where
  -- a rejected update leaves the program as it was and is no redirection
  pub finish-rejected {ℓ} :
      {A : Type ℓ} (world : World F N) (result : Applied A × Store F N)
      → IsRejected world.store result
      → (finish py host world.app result).1 ≡ world
        × ((url : String) → (finish py host world.app result).0 ≢ redirected url)
  finish-rejected world (applied a, store) h = absurd (h.not_applied a refl)
  finish-rejected world (refused status message, store) h =
      (ap (λ s. record { app = world.app; store = s }) h.unchanged, λ url e. ground (arith, e))
  finish-rejected world (raised, store) h =
      (ap (λ s. record { app = world.app; store = s }) h.unchanged, λ url e. ground (arith, e))

  -- a new configuration is that of the settings which the environment gives
  abbrev IsRebuilt : TextDict Text → AppState F N → World F N → Type 0
  IsRebuilt environ app world =
      (s : Settings F N) × read_settings py host.base environ ≡ loaded s
      × world.store.environ ≡ environ
      × world.app ≡ rebuild_runtime_state host.ticks app s

  rebuilt-redirected :
      (app : AppState F N) (store : Store F N) (environ : TextDict Text)
      (read : Loaded (Settings F N)) (url : String)
      → read_settings py host.base environ ≡ read
      → (rebuilt py host app (remember py host store (read, environ))).0 ≡ redirected url
      → IsRebuilt environ app (rebuilt py host app (remember py host store (read, environ))).1
  rebuilt-redirected app store environ (failed error) url e h = absurd (ground (arith, h))
  rebuilt-redirected app store environ (loaded s) url e h = (s, e, refl, refl)

  pub rebuilt-http_error :
      (app : AppState F N) (store : Store F N) (environ : TextDict Text)
      (read : Loaded (Settings F N)) (status : ℕ) (message : Text)
      → (rebuilt py host app (remember py host store (read, environ))).0 ≢ http_error status message
  rebuilt-http_error app store environ (failed error) status message h = ground (arith, h)
  rebuilt-http_error app store environ (loaded s) status message h = ground (arith, h)

-- The values of the form are valid, the environment holds them, and the runtime state is that of the settings which
-- are read from it.
pub record ReachesState {F N : Type 0} (py : Python F N) (pr : Printer F N) (host : Host)
    (form : TextDict Text) (old new : World F N) : Type 0 where
  pub values : TextDict Text
  pub valid : AreValid py pr (collect_settings_updates py pr form)
  pub kept : AreKept py pr (collect_settings_updates py pr form) values
  pub held :
      (key value : Text) → find key values ≡ some value → find key new.store.environ ≡ some value
  pub settings : Settings F N
  pub read : read_settings py host.base new.store.environ ≡ loaded settings
  pub app : new.app ≡ rebuild_runtime_state host.ticks old.app settings

module _ {F N : Type 0} (py : Python F N) (pr : Printer F N) (b : Bcrypt) (host : Host) where
  pub held_in_environ :
      (form values environ : TextDict Text) (file : Option Text) (key value : Text)
      → KeepsEnvironment host.dotenv
      → validate_updates py pr (collect_settings_updates py pr form) ≡ cleaned values
      → find key values ≡ some value
      → find key (load_environment py host.dotenv file (put_all values environ)) ≡ some value
  held_in_environ form values environ file key value k v h =
      load_environment-keeps py pr host.dotenv file (put_all values environ) key value k (
        find-put_all key values environ (
          HasDistinctTexts-validate_updates py pr (collect_settings_updates py pr form) values v
            (collected-HasDistinctTexts py pr form))
        ∙ ground (arith, h))

  written-ReachesState :
      (form values : TextDict Text) (world : World F N) (url : String)
      → KeepsEnvironment host.dotenv
      → validate_updates py pr (collect_settings_updates py pr form) ≡ cleaned values
      → (finish py host world.app (applied values, write_values py values world.store)).0
        ≡ redirected url
      → ReachesState py pr host form world
          (finish py host world.app (applied values, write_values py values world.store)).1
  unfolding call_get_settings get_settings
  written-ReachesState form values world url k v h = taken (
      rebuilt-redirected py host world.app (write_values py values world.store)
        (after (put_all values world.store.environ))
        (read_settings py host.base (after (put_all values world.store.environ))) url refl h)
    where
      after : TextDict Text → TextDict Text
      after environ =
          load_environment py host.dotenv
            (some (update_env_file py.characters world.store.env_file values)) environ

      taken :
          IsRebuilt py host
            (after (put_all values world.store.environ))
            world.app
            (finish py host world.app (applied values, write_values py values world.store)).1
          → ReachesState py pr host form world
              (finish py host world.app (applied values, write_values py values world.store)).1
      taken (s, read, same, app) = record {
        values = values;
        valid = (validates-cleaned py pr (collect_settings_updates py pr form) values v).0;
        kept = (validates-cleaned py pr (collect_settings_updates py pr form) values v).1;
        held = λ key value f.
            ap (find key) same
            ∙ held_in_environ form values world.store.environ
                (some (update_env_file py.characters world.store.env_file values)) key value k v f;
        settings = s;
        read = ap (read_settings py host.base) same ∙ read;
        app = app;
      }

  -- An update of the settings that answers with the redirection reaches the runtime state: every value of the
  -- form is valid for the kind of its field, the environment has it as it is cleaned, and the configuration and the login limiter of `app.state` are what
  -- `rebuild_runtime_state` makes of the settings that `get_settings` reads from it; provided that python-dotenv, if
  -- it is there, keeps what the environment has. What is built once at the start and not from `app.state`, such as the
  -- session middleware with its SESSION_HTTPS_ONLY, is no part of this.
  pub update_settings-ReachesState :
      (context : RequestContext) (form : TextDict Text) (world : World F N) (url : String)
      → KeepsEnvironment host.dotenv
      → (update_settings py pr b host context form world).0 ≡ redirected url
      → ReachesState py pr host form world (update_settings py pr b host context form world).1
  unfolding update_settings
  update_settings-ReachesState context form world url k h =
      elim (apply_settings_update_cases py pr b (settings_command py pr b host context form world)
        world.store).1 [
          | inr r ↦ absurd (
              (finish-rejected py host world
                  (apply_settings_update py pr b (settings_command py pr b host context form world)
                    world.store)
                  r).1
                url h)
          | inl (values, a) ↦
              go values a.valid
                (apply_settings_update py pr b (settings_command py pr b host context form world)
                  world.store)
                ((apply_settings_update_cases py pr b
                    (settings_command py pr b host context form world) world.store).0
                  values a)
                h
        ]
    where
      go :
          (values : TextDict Text)
          → validate_updates py pr (collect_settings_updates py pr form) ≡ cleaned values
          → (result : Applied (TextDict Text) × Store F N)
          → result ≡ (applied values, write_values py values world.store)
          → (finish py host world.app result).0 ≡ redirected url
          → ReachesState py pr host form world (finish py host world.app result).1
      go values v result e g = rw e (
          written-ReachesState form values world url k v
            (ap (λ r. (finish py host world.app r).0) (sym e) ∙ g))
