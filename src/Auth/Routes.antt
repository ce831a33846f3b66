-- ===== src/Auth/Routes.antt =====
-- app/routers/auth.py: the routes for the login page, login and logout. The network check before them
-- is in `Access`. `/admin/login` (POST) calls `login` with the same arguments.
use Prim.Native.String
use parcel_explorer.Prelude.{ℕ, String, Bool, true, Option, none, some, not, if◌then◌else◌, str_eq}
use parcel_explorer.Auth.Limiter.{Limiter, is_blocked, register_failure, reset}
use parcel_explorer.Auth.Service.{
  RequestContext, LoginCommand, LoginResult, LimiterAction, no_action, reset_action,
  register_action, Backend, LogoutResult,
}
use parcel_explorer.Auth.Service
use parcel_explorer.Auth.Session.{
  Session, AuthConfig, cleared, get_or_create_csrf_token, validate_csrf_token,
}

-- One submitted login form; the two times are what the limiter's calls of `time.time()` return, and
-- `fresh_token` is what `secrets.token_urlsafe` returns.
pub record LoginRequest : Type 0 where
  pub request_id : String
  pub client_ip : Option String
  pub username : String
  pub password : String
  pub csrf_token : String
  pub checked_at : ℕ
  pub failed_at : ℕ
  pub fresh_token : String

-- `server_error` is an exception that no route catches; `redirect` has status 303.
pub data Response : Type 0 where
  success_response : Response
  failure_response : ℕ → Option String → Response
  redirect : String → Response
  server_error : Response

abbrev pub host_of : Option String → String
host_of none = "unknown"
host_of (some host) = host

-- f"{client_ip}:{username}"
abbrev pub limiter_key : LoginRequest → String
limiter_key r = String.◌++◌ (host_of r.client_ip) (String.◌++◌ ":" r.username)

abbrev or_anonymous : String → String
or_anonymous name = if str_eq name "" then "anonymous" else name

abbrev pub login_command : AuthConfig → LoginRequest → Bool → Bool → LoginCommand
login_command config r csrf_valid blocked = record {
  context = record {
    request_id = r.request_id;
    actor = or_anonymous r.username;
    client_ip = host_of r.client_ip;
    csrf_valid = csrf_valid;
  };
  username = r.username;
  password = r.password;
  admin_id = config.admin_id;
  admin_password_hash = config.admin_pw_hash;
  limiter_blocked = blocked;
}

-- request.session.clear(), and the three entries that a login writes
abbrev pub signed_in : AuthConfig → LoginRequest → Session
signed_in config r =
    let s = record cleared { user = some r.username; session_namespace = some config.namespace } in
    let (token, s') = get_or_create_csrf_token r.fresh_token s in
    record s' { csrf_token = some token }

-- what the route does with the service's answer
unfoldable pub conclude :
    AuthConfig
    → LoginRequest
    → Session
    → Limiter
    → Option LoginResult
    → Response × Session × Limiter
conclude config r session limiter none = (server_error, session, limiter)
conclude config r session limiter (some result) = elim result.limiter_action [
  | reset_action ↦ (success_response, signed_in config r, reset (limiter_key r) limiter)
  | register_action ↦ (
    failure_response result.status_code result.message,
    session,
    register_failure (limiter_key r) r.failed_at limiter,
  )
  | no_action ↦ (failure_response result.status_code result.message, session, limiter)
]

unfoldable pub login :
    Backend → AuthConfig → LoginRequest → Session → Limiter → Response × Session × Limiter
unfolding conclude
login b config r session limiter = elim (validate_csrf_token b session (some r.csrf_token)) [
  | none ↦ (server_error, session, limiter)
  | some csrf_valid ↦
      let (blocked, limiter') = is_blocked (limiter_key r) r.checked_at limiter in
      conclude config r session limiter'
        (Service.login b (login_command config r csrf_valid blocked))
]

-- The page carries the token that its form sends back.
unfoldable pub login_page : String → Session → String × Session
login_page fresh_token session = get_or_create_csrf_token fresh_token session

abbrev pub finish_logout : Session → Option LogoutResult → Response × Session
finish_logout session none = (server_error, session)
finish_logout session (some result) =
    (redirect result.redirect_url, if result.clear_session then cleared else session)

unfoldable pub logout_post : Backend → Session → String → Response × Session
unfolding Service.logout
logout_post b session csrf_token = elim (validate_csrf_token b session (some csrf_token)) [
  | none ↦ (server_error, session)
  | some csrf_valid ↦
      if not csrf_valid
      then (failure_response 403 (some "잘못된 요청입니다. 페이지를 새로고침 해주세요."), session)
      else finish_logout session (Service.logout true)
]
