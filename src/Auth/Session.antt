-- ===== src/Auth/Session.antt =====
-- The session part of app/dependencies.py: `is_authenticated`, `require_authenticated`,
-- `get_or_create_csrf_token`, `validate_csrf_token`. A session is the dictionary of a request's
-- cookie; the program keeps three keys in it.
use parcel_explorer.Prelude.{
  String, Bool, true, false, Option, none, some, not, ◌&&◌, ◌||◌, str_eq, if◌then◌else◌,
}
use parcel_explorer.Auth.Service.{Backend}

pub record Session : Type 0 where
  pub user : Option String
  pub session_namespace : Option String
  pub csrf_token : Option String

abbrev pub cleared : Session
cleared = record { user = none; session_namespace = none; csrf_token = none }

-- the fields of the runtime configuration that the sign-in reads
pub record AuthConfig : Type 0 where
  pub admin_id : String
  pub admin_pw_hash : String
  pub namespace : String

-- session.get(key) == value
abbrev pub holds : Option String → String → Bool
holds none value = false
holds (some text) value = str_eq text value

unfoldable pub is_authenticated : AuthConfig → Session → Bool
is_authenticated config s =
    holds s.user config.admin_id && holds s.session_namespace config.namespace

-- `none` is the 401 error.
unfoldable pub require_authenticated : AuthConfig → Session → Option (Unit {0})
unfolding is_authenticated
require_authenticated config s = if not (is_authenticated config s) then none else some tt

-- `not token`
abbrev pub is_missing : Option String → Bool
is_missing none = true
is_missing (some text) = str_eq text ""

abbrev pub text_of : Option String → String
text_of none = ""
text_of (some text) = text

-- `fresh` is what `secrets.token_urlsafe` would return.
unfoldable pub get_or_create_csrf_token : String → Session → String × Session
get_or_create_csrf_token fresh s =
    if is_missing s.csrf_token
    then (fresh, record s { csrf_token = some fresh })
    else (text_of s.csrf_token, s)

-- `none` is the `TypeError` of `compare_digest`.
unfoldable pub validate_csrf_token : Backend → Session → Option String → Option Bool
validate_csrf_token b s token_from_form =
    if is_missing s.csrf_token || is_missing token_from_form
    then some false
    else b.compare_digest (text_of s.csrf_token) (text_of token_from_form)
