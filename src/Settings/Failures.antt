-- ===== src/Settings/Failures.antt =====
-- The updates of the settings that are answered with an error: what they leave behind.
use parcel_explorer.Prelude.{
  ℕ, ◌≡◌, ◌≢◌, ◌⊎◌, inl, inr, refl, sym, ap, ◌∙◌, Text, String, codes, Bool, true, false, Option,
  none, some, List, [], ◌∷◌, arith, TextDict, find,
}
use parcel_explorer.Auth.Service.{RequestContext}
use parcel_explorer.Settings.EnvFile.{update_env_file}
use parcel_explorer.Settings.Parse.{Python, Loaded, loaded, failed, or_default, getenv}
use parcel_explorer.Settings.Parsers.{get_required_env}
use parcel_explorer.Settings.Config.{
  Settings, read_settings, get_settings, load_environment, int_of, float_of,
}
use parcel_explorer.Settings.Fields.{Printer}
use parcel_explorer.Settings.Update.{
  Bcrypt, Store, Applied, applied, put_all, write_values, apply_settings_update,
}
use parcel_explorer.Settings.Routes.{
  World, http_error, server_error, Host, call_get_settings, remember, rebuilt, finish,
  update_settings, settings_command,
}
use parcel_explorer.Settings.Outcomes.{AcceptsSettings, apply_settings_update_cases}
use parcel_explorer.Settings.Values.{KeepsEnvironment}
use parcel_explorer.Settings.Ensures.{Ensures, failed-Ensures, Ensures-skip, Ensures-bind}
use parcel_explorer.Settings.Effects.{finish-rejected, rebuilt-http_error, held_in_environ}

module _ {F N : Type 0} (py : Python F N) where
  empty_key-Ensures :
      (environ : TextDict Text)
      → find (codes "VWORLD_WMTS_KEY") environ ≡ some []
      → Ensures (λ text. ⊥) (get_required_env py environ "VWORLD_WMTS_KEY")
  unfolding get_required_env parcel_explorer.Prelude.strip
  empty_key-Ensures environ h = rw (h, get_required_env) (failed-Ensures _)

  read_settings-empty_key :
      (base : Text) (environ : TextDict Text)
      → find (codes "VWORLD_WMTS_KEY") environ ≡ some []
      → Ensures (λ s. ⊥) (read_settings py base environ)
  unfolding read_settings
  read_settings-empty_key base environ h =
      Ensures-skip (float_of py (or_default (getenv environ "MAP_CENTER_LON") "126.4500"))
        (λ center_lon.
          Ensures-skip (float_of py (or_default (getenv environ "MAP_CENTER_LAT") "36.7848"))
            (λ center_lat.
              Ensures-skip (int_of py (or_default (getenv environ "MAP_DEFAULT_ZOOM") "14"))
                (λ zoom.
                  Ensures-bind (get_required_env py environ "VWORLD_WMTS_KEY")
                    (empty_key-Ensures environ h) (λ key impossible. absurd impossible))))

module _ {F N : Type 0} (py : Python F N) (pr : Printer F N) (b : Bcrypt) (host : Host) where
  -- An update of the settings that answers with an HTTP error changes nothing: neither the file, nor the
  -- environment, nor the configuration, nor the limiter.
  pub update_settings-http_error :
      (context : RequestContext) (form : TextDict Text) (world : World F N) (status : ℕ)
      (message : Text)
      → (update_settings py pr b host context form world).0 ≡ http_error status message
      → (update_settings py pr b host context form world).1 ≡ world
  unfolding update_settings call_get_settings get_settings
  update_settings-http_error context form world status message h =
      elim (apply_settings_update_cases py pr b (settings_command py pr b host context form world)
        world.store).1 [
          | inr r ↦
              (finish-rejected py host world
                (apply_settings_update py pr b (settings_command py pr b host context form world)
                  world.store)
                r).0
          | inl (values, a) ↦ absurd (
              go values
                (apply_settings_update py pr b (settings_command py pr b host context form world)
                  world.store)
                ((apply_settings_update_cases py pr b
                    (settings_command py pr b host context form world) world.store).0
                  values a)
                h)
        ]
    where
      go :
          (values : TextDict Text) (result : Applied (TextDict Text) × Store F N)
          → result ≡ (applied values, write_values py values world.store)
          → (finish py host world.app result).0 ≢ http_error status message
      go values result e g =
          rebuilt-http_error py host world.app (write_values py values world.store)
            (load_environment py host.dotenv
              (some (update_env_file py.characters world.store.env_file values))
              (put_all values world.store.environ))
            _ status message (ap (λ r. (finish py host world.app r).0) (sym e) ∙ g)

  -- An accepted update that leaves the map key empty is not refused: the empty key is written to the file, then
  -- the new settings cannot be read, the answer is a server error, and the program keeps its old configuration.
  -- It is provided that python-dotenv, if it is there, keeps what the environment has.
  pub update_settings-empty_key :
      (context : RequestContext) (form : TextDict Text) (world : World F N) (values : TextDict Text)
      → KeepsEnvironment host.dotenv
      → AcceptsSettings py pr b (settings_command py pr b host context form world) values
      → find (codes "VWORLD_WMTS_KEY") values ≡ some []
      → (update_settings py pr b host context form world).0 ≡ server_error
        × (update_settings py pr b host context form world).1.app ≡ world.app
        × (update_settings py pr b host context form world).1.store.env_file
          ≡ some (update_env_file py.characters world.store.env_file values)
  unfolding update_settings call_get_settings get_settings
  update_settings-empty_key context form world values k a h =
      rw
        ((apply_settings_update_cases py pr b (settings_command py pr b host context form world)
            world.store).0
          values a)
        (go (read_settings py host.base (after (put_all values world.store.environ))) (
          read_settings-empty_key py host.base (after (put_all values world.store.environ)) (
            held_in_environ py pr b host form values world.store.environ
              (some (update_env_file py.characters world.store.env_file values))
              (codes "VWORLD_WMTS_KEY") [] k a.valid h)))
    where
      after : TextDict Text → TextDict Text
      after environ =
          load_environment py host.dotenv
            (some (update_env_file py.characters world.store.env_file values)) environ

      go :
          (read : Loaded (Settings F N))
          → Ensures (λ s. ⊥) read
          → (rebuilt py host world.app (
                remember py host
                  (write_values py values world.store)
                  (read, after (put_all values world.store.environ)))).0
              ≡ server_error
            × (rebuilt py host world.app (
                remember py host
                  (write_values py values world.store)
                  (read, after (put_all values world.store.environ)))).1.app
              ≡ world.app
            × (rebuilt py host world.app (
                remember py host
                  (write_values py values world.store)
                  (read, after (put_all values world.store.environ)))).1.store.env_file
              ≡ some (update_env_file py.characters world.store.env_file values)
      go (loaded s) e = absurd (e.holds s refl)
      go (failed error) e = (refl, refl, refl)
