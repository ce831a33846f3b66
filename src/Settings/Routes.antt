-- ===== src/Settings/Routes.antt =====
-- `update_settings` and `update_password` of app/routers/admin.py, after the dependencies have let the request
-- pass: the services, then a new configuration from `get_settings`.
use parcel_explorer.Prelude.{ℕ, Text, String, codes, Option, none, some, [], TextDict, find}
use parcel_explorer.Auth.Service.{RequestContext}
use parcel_explorer.Settings.Parse.{Python, Loaded, loaded, failed}
use parcel_explorer.Settings.Config.{Settings, get_settings}
use parcel_explorer.Settings.Fields.{Printer, collect_settings_updates}
use parcel_explorer.Settings.Runtime.{AppState, rebuild_runtime_state}
use parcel_explorer.Settings.Update.{
  Bcrypt, Store, SettingsUpdateCommand, Applied, applied, refused, raised, apply_settings_update,
  apply_password_update,
}

pub record World (F N : Type 0) : Type 0 where
  pub app : AppState F N
  pub store : Store F N

-- `server_error` is an exception that no handler of the route takes.
pub data AdminResponse : Type 0 where
  redirected : String → AdminResponse
  http_error : ℕ → Text → AdminResponse
  server_error : AdminResponse

-- The surroundings of the process: python-dotenv's `load_dotenv`, if it can be imported, the directory of the
-- repository, and the ticks of a second.
pub record Host : Type 0 where
  pub dotenv : Option (Text → TextDict Text → TextDict Text)
  pub base : Text
  pub ticks : ℕ

pub record PasswordForm : Type 0 where
  pub current_password : Text
  pub new_password : Text
  pub new_password_confirm : Text

module _ {F N : Type 0} (py : Python F N) (host : Host) where
  abbrev pub remember :
      Store F N → Loaded (Settings F N) × TextDict Text → Loaded (Settings F N) × Store F N
  remember store (failed error, environ) = (failed error, record store { environ = environ })
  remember store (loaded s, environ) =
      (loaded s, record store { environ = environ; cached = some s })

  -- a call of `get_settings`: the cached settings, or those that the file and the environment give
  unfoldable pub call_get_settings : Store F N → Loaded (Settings F N) × Store F N
  call_get_settings store = elim store.cached [
    | some s ↦ (loaded s, store)
    | none ↦ remember store (get_settings py host.dotenv host.base store.env_file store.environ)
  ]

  -- rebuild_runtime_state(request.app, get_settings())
  abbrev pub rebuilt : AppState F N → Loaded (Settings F N) × Store F N → AdminResponse × World F N
  rebuilt app (failed error, store) = (server_error, record { app = app; store = store })
  rebuilt app (loaded s, store) = (
    redirected "/admin/?updated=1",
    record { app = rebuild_runtime_state host.ticks app s; store = store },
  )

  abbrev pub finish {ℓ} :
      {A : Type ℓ} → AppState F N → Applied A × Store F N → AdminResponse × World F N
  finish app (applied a, store) = rebuilt app (call_get_settings store)
  finish app (refused status message, store) =
      (http_error status message, record { app = app; store = store })
  finish app (raised, store) = (server_error, record { app = app; store = store })

  abbrev pub form_text : TextDict Text → String → Text
  form_text form name = elim (find (codes name) form) [ none ↦ [] | some value ↦ value ]

module _ {F N : Type 0} (py : Python F N) (pr : Printer F N) (b : Bcrypt) (host : Host) where
  abbrev pub settings_command : RequestContext → TextDict Text → World F N → SettingsUpdateCommand
  settings_command context form world = record {
    context = context;
    settings_password = form_text py host form "settings_password";
    current_password_hash = world.app.config.admin_pw_hash;
    updates = collect_settings_updates py pr form;
  }

  unfoldable pub update_settings :
      RequestContext → TextDict Text → World F N → AdminResponse × World F N
  update_settings context form world =
      finish py host world.app
        (apply_settings_update py pr b (settings_command context form world) world.store)

  unfoldable pub update_password :
      RequestContext → PasswordForm → World F N → AdminResponse × World F N
  update_password context form world = finish py host world.app (
      apply_password_update py pr b
        record {
          context = context;
          current_password = form.current_password;
          new_password = form.new_password;
          new_password_confirm = form.new_password_confirm;
          current_password_hash = world.app.config.admin_pw_hash;
        }
        world.store)
