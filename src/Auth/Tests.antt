-- ===== src/Auth/Tests.antt =====
-- Runs of the sign-in, and its theorems at concrete requests.
use parcel_explorer.Prelude.{
  ℕ, ◌+◌, ◌≤◌, ◌<◌, String, ◌≡◌, ◌≢◌, ◌⊎◌, refl, true, ◌&&◌, none, some, [], ◌∷◌, arith, str_eq,
  eq_iff, lookup, insert, remove, length, if◌then◌else◌,
}
use parcel_explorer.Auth.Limiter.{
  Limiter, new_limiter, is_blocked, register_failure, reset, attempts_of,
}
use parcel_explorer.Auth.Service.{Backend, Checked, checked}
use parcel_explorer.Auth.Service
use parcel_explorer.Auth.Session.{Session, AuthConfig, is_authenticated, validate_csrf_token}
use parcel_explorer.Auth.Routes.{
  LoginRequest, success_response, server_error, limiter_key, login, logout_post, redirect,
}
use parcel_explorer.Auth.Outcomes.{
  is_ascii, IsDigest, login_session, login-is_authenticated, login_non_ascii,
}
use parcel_explorer.Auth.Lockout.{
  Attempt, rejections, AreGuesses, rejections-le-max_attempts, RemembersFew, login-RemembersFew,
}

-- texts in place of hashes
abbrev plain : Backend
plain = record {
  compare_digest = λ s t. if is_ascii s && is_ascii t then some (str_eq s t) else none;
  checkpw = λ password hash. checked (str_eq password hash);
}

plain-IsDigest : IsDigest plain
plain-IsDigest = record {
  same = λ s t h. ground (arith, eq_iff s t);
  refuses = λ s t h. ground arith;
}

abbrev config : AuthConfig
config = record { admin_id = "admin"; admin_pw_hash = "secret"; namespace = "parcels" }

abbrev session : Session
session = record { user = none; session_namespace = none; csrf_token = some "t0" }

abbrev form : String → String → ℕ → LoginRequest
form username password now = record {
  request_id = "r1";
  client_ip = some "10.0.0.7";
  username = username;
  password = password;
  csrf_token = "t0";
  checked_at = now;
  failed_at = now + 10;
  fresh_token = "t1";
}

abbrev limiter : Limiter
limiter = new_limiter 2 300_000_000

good_login : (login plain config (form "admin" "secret" 5) session limiter).0 ≡ success_response
unfolding login is_blocked lookup validate_csrf_token Service.login reset remove
good_login = refl

abbrev wrong : ℕ → Attempt
wrong now = record { request = form "admin" "guess" now; session = session }

-- the third wrong password is answered 429
three_guesses :
    rejections plain config "10.0.0.7:admin" limiter (wrong 5 ∷ wrong 20 ∷ wrong 40 ∷ []) ≡ 2
unfolding rejections login is_blocked lookup validate_csrf_token Service.login register_failure
    insert
three_guesses = refl

logout_run : (logout_post plain session "t0").0 ≡ redirect "/admin/login"
unfolding logout_post validate_csrf_token
logout_run = refl

not_secret : plain.checkpw "guess" "secret" ≢ checked true
not_secret e = cc

guesses :
    AreGuesses plain config "10.0.0.7:admin" 0 300_000_000 (wrong 5 ∷ wrong 20 ∷ wrong 40 ∷ [])
guesses = (
  λ e. record {
    checked_before = omega arith;
    failed_since = omega arith;
    failed_before = omega arith;
    wrong = not_secret;
  },
  (
    λ e. record {
      checked_before = omega arith;
      failed_since = omega arith;
      failed_before = omega arith;
      wrong = not_secret;
    },
    (
      λ e. record {
        checked_before = omega arith;
        failed_since = omega arith;
        failed_before = omega arith;
        wrong = not_secret;
      },
      tt,
    ),
  ),
)

few : (key : String) → length (attempts_of key limiter) < 2
unfolding lookup
few key = omega arith

rejections-le-max_attempts_example :
    rejections plain config "10.0.0.7:admin" limiter (wrong 5 ∷ wrong 20 ∷ wrong 40 ∷ []) ≤ 2
rejections-le-max_attempts_example =
    rejections-le-max_attempts plain config "10.0.0.7:admin" 0 (wrong 5 ∷ wrong 20 ∷ wrong 40 ∷ [])
      limiter (few "10.0.0.7:admin") guesses

login-RemembersFew_example :
    RemembersFew (login plain config (form "admin" "guess" 5) session limiter).2
login-RemembersFew_example =
    login-RemembersFew plain config (form "admin" "guess" 5) session limiter few

abbrev first_form : LoginRequest
first_form = form "admin" "secret" 5

login_session_example :
    ((login plain config first_form session limiter).0 ≡ success_response
      → (login plain config first_form session limiter).1 ≡ record {
        user = some first_form.username;
        session_namespace = some config.namespace;
        csrf_token = some first_form.fresh_token;
      })
    × (((login plain config first_form session limiter).0 ≡ success_response)
        ⊎ ((login plain config first_form session limiter).1 ≡ session))
login_session_example = login_session plain config first_form session limiter

login-is_authenticated_example :
    (is_authenticated config (login plain config first_form session limiter).1 ≡ true
      → (is_authenticated config session ≡ true)
        ⊎ (((login plain config first_form session limiter).0 ≡ success_response)
            × (first_form.username ≡ config.admin_id)))
    × ((login plain config first_form session limiter).0 ≡ success_response
        → is_authenticated config (login plain config first_form session limiter).1 ≡ true)
login-is_authenticated_example =
    login-is_authenticated plain config first_form session limiter plain-IsDigest

abbrev korean_form : LoginRequest
korean_form = form "관리자" "secret" 5

login_non_ascii_example :
    ((login plain config korean_form session limiter).0 ≡ server_error)
    × ((login plain config korean_form session limiter).2
        ≡ (is_blocked (limiter_key korean_form) korean_form.checked_at limiter).1)
unfolding is_blocked validate_csrf_token lookup
login_non_ascii_example =
    login_non_ascii plain config korean_form session limiter plain-IsDigest refl refl refl
