-- ===== src/Auth/Outcomes.antt =====
-- What each answer of the login route means for the session and for the limiter.
use Prim.Native.Char.{code}
use parcel_explorer.Prelude.{
  String, ◌≡◌, ◌↔◌, ◌⊎◌, Bool, true, false, ◌&&◌, none, some, arith, ltb, ◌==◌, eq_iff,
}
use parcel_explorer.Auth.Limiter.{Limiter, is_blocked, register_failure, reset}
use parcel_explorer.Auth.Service.{Backend, Checked, checked}
use parcel_explorer.Auth.Service
use parcel_explorer.Auth.Session.{
  Session, AuthConfig, validate_csrf_token, get_or_create_csrf_token, is_authenticated,
}
use parcel_explorer.Auth.Routes.{
  LoginRequest, Response, success_response, failure_response, server_error, limiter_key, login,
}

abbrev pub is_ascii : String → Bool
is_ascii String.[] = true
is_ascii (String.◌∷◌ c s) = ltb (code c) 128 && is_ascii s

-- What the documentation of `secrets.compare_digest` says of texts.
pub record IsDigest (b : Backend) : Type 0 where
  pub same : (s t : String) → b.compare_digest s t ≡ some true → s ≡ t
  pub refuses : (s t : String) → is_ascii s ≡ false → b.compare_digest s t ≡ none

-- a wrong user name or password
abbrev pub is_rejection : Response → Bool
is_rejection (failure_response status _) = status == 401
is_rejection _ = false

module _ (b : Backend) (config : AuthConfig) (r : LoginRequest) (session : Session)
    (limiter : Limiter) where
  pub login_success_iff : ((login b config r session limiter).0 ≡ success_response) ↔ (
      (validate_csrf_token b session (some r.csrf_token) ≡ some true)
      × ((is_blocked (limiter_key r) r.checked_at limiter).0 ≡ false)
      × (b.compare_digest r.username config.admin_id ≡ some true)
      × (b.checkpw r.password config.admin_pw_hash ≡ checked true))
  unfolding login Service.login
  login_success_iff = (λ e. ground arith, λ e. ground arith)

  -- The four things that the route can do to the limiter.
  pub login_cases :
      ((is_rejection (login b config r session limiter).0 ≡ false)
        × ((login b config r session limiter).2 ≡ limiter))
      ⊎ ((is_rejection (login b config r session limiter).0 ≡ false)
          × ((login b config r session limiter).2
              ≡ (is_blocked (limiter_key r) r.checked_at limiter).1))
      ⊎ (((is_blocked (limiter_key r) r.checked_at limiter).0 ≡ false)
          × (is_rejection (login b config r session limiter).0 ≡ true)
          × ((login b config r session limiter).2
              ≡ register_failure
                  (limiter_key r)
                  r.failed_at
                  (is_blocked (limiter_key r) r.checked_at limiter).1))
      ⊎ (((login b config r session limiter).0 ≡ success_response)
          × ((login b config r session limiter).2
              ≡ reset (limiter_key r) (is_blocked (limiter_key r) r.checked_at limiter).1))
  unfolding login Service.login
  login_cases = ground arith

  -- A successful login leaves exactly the three entries user, namespace and a fresh token, nothing of
  -- the session before it; after any other answer the session is what it was.
  pub login_session :
      ((login b config r session limiter).0 ≡ success_response
        → (login b config r session limiter).1 ≡ record {
          user = some r.username;
          session_namespace = some config.namespace;
          csrf_token = some r.fresh_token;
        })
      × (((login b config r session limiter).0 ≡ success_response)
          ⊎ ((login b config r session limiter).1 ≡ session))
  unfolding login Service.login get_or_create_csrf_token
  login_session = (λ e. ground arith, ground arith)

  -- Where `compare_digest` is as documented: a session that is authenticated after the route was so
  -- before, or the login succeeded with the administrator's name; and after a success it is.
  pub login-is_authenticated :
      IsDigest b
      → (is_authenticated config (login b config r session limiter).1 ≡ true
          → (is_authenticated config session ≡ true)
            ⊎ (((login b config r session limiter).0 ≡ success_response)
                × (r.username ≡ config.admin_id)))
        × ((login b config r session limiter).0 ≡ success_response
            → is_authenticated config (login b config r session limiter).1 ≡ true)
  unfolding login Service.login get_or_create_csrf_token is_authenticated
  login-is_authenticated d = (
    λ e. ground (arith, d.same r.username config.admin_id),
    λ e. ground (
      arith,
      d.same r.username config.admin_id,
      eq_iff r.username config.admin_id,
      eq_iff config.namespace config.namespace,
    ),
  )

  -- Where `compare_digest` is as documented: a user name that is not ASCII, in a form with the
  -- session's token and under a key that is not blocked, ends in an uncaught exception, and the
  -- attempt is not registered as a failure.
  pub login_non_ascii :
      IsDigest b
      → is_ascii r.username ≡ false
      → validate_csrf_token b session (some r.csrf_token) ≡ some true
      → (is_blocked (limiter_key r) r.checked_at limiter).0 ≡ false
      → ((login b config r session limiter).0 ≡ server_error)
        × ((login b config r session limiter).2
            ≡ (is_blocked (limiter_key r) r.checked_at limiter).1)
  unfolding login Service.login
  login_non_ascii d n v u = ground (arith, d.refuses r.username config.admin_id n)
