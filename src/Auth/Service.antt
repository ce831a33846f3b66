-- ===== src/Auth/Service.antt =====
-- app/services/auth_service.py: the decision of a login. What it calls of `secrets` and `bcrypt` is a
-- parameter; the log lines are not modelled.
use parcel_explorer.Prelude.{
  ℕ, String, Bool, true, false, Option, none, some, not, ◌&&◌, if◌then◌else◌,
}

-- RequestContext of service_models.py
pub record RequestContext : Type 0 where
  pub request_id : String
  pub actor : String
  pub client_ip : String
  pub csrf_valid : Bool

pub record LoginCommand : Type 0 where
  pub context : RequestContext
  pub username : String
  pub password : String
  pub admin_id : String
  pub admin_password_hash : String
  pub limiter_blocked : Bool

-- `limiter_action`
pub data LimiterAction : Type 0 where
  no_action reset_action register_action : LimiterAction

pub record LoginResult : Type 0 where
  pub success : Bool
  pub status_code : ℕ
  pub message : Option String
  pub limiter_action : LimiterAction

-- What `bcrypt.checkpw` returns, or raises: a `ValueError`, or any other exception.
pub data Checked : Type 0 where
  checked : Bool → Checked
  value_error backend_error : Checked

-- `compare_digest` is `none` where it raises `TypeError`, on a text that is not ASCII.
pub record Backend : Type 0 where
  pub compare_digest : String → String → Option Bool
  pub checkpw : String → String → Checked

abbrev pub refused : ℕ → String → LimiterAction → LoginResult
refused status message action = record {
  success = false;
  status_code = status;
  message = some message;
  limiter_action = action;
}

-- the two matches are known
unfoldable pub decide_login : Bool → Bool → LoginResult
decide_login is_id_match is_pw_match =
    if is_id_match && is_pw_match
    then record { success = true; status_code = 200; message = none; limiter_action = reset_action }
    else refused 401 "아이디 또는 비밀번호가 틀립니다." register_action

unfoldable pub check_password : Backend → LoginCommand → Bool → LoginResult
unfolding decide_login
check_password b command is_id_match =
    elim (b.checkpw command.password command.admin_password_hash) [
      | checked is_pw_match ↦ decide_login is_id_match is_pw_match
      | value_error ↦ refused 500 "서버 인증 설정 오류입니다. 관리자에게 문의하세요." no_action
      | backend_error ↦ refused 500 "비밀번호 검증 백엔드 오류입니다. 관리자에게 문의하세요." no_action
    ]

-- `none` is the `TypeError` of `compare_digest`, which nothing catches.
unfoldable pub login : Backend → LoginCommand → Option LoginResult
unfolding check_password
login b command =
    if command.limiter_blocked
    then some (refused 429 "로그인 시도가 너무 많습니다. 잠시 후 다시 시도해주세요." no_action)
    else if not command.context.csrf_valid
    then some (refused 403 "잘못된 요청입니다. 페이지를 새로고침 해주세요." no_action)
    else elim (b.compare_digest command.username command.admin_id) [
      | none ↦ none
      | some is_id_match ↦ some (check_password b command is_id_match)
    ]

pub record LogoutResult : Type 0 where
  pub redirect_url : String
  pub clear_session : Bool

-- `none` is `ValueError("csrf_invalid")`.
unfoldable pub logout : Bool → Option LogoutResult
logout csrf_valid =
    if not csrf_valid
    then none
    else some (record { redirect_url = "/admin/login"; clear_session = true })
