-- ===== src/Client.antt =====
-- `get_json_with_retry` of app/clients/http_client.py. `E` stands for the exceptions that `requests` raises, and `send`
-- for `requests.get`: what the n-th attempt yields, from 1. A wait is counted in multiples of `backoff_s`.
mod Attempts
mod Tests
use parcel_explorer.Prelude.{
  ℕ, zero, suc, ◌+◌, Bool, not, ◌&&◌, Option, none, some, List, [], ◌∷◌, leb, ltb, ◌==◌,
  if◌then◌else◌,
}

-- what `response.json()` returns or raises
pub data Body (E J : Type 0) : Type 0 where
  body : J → Body E J
  bad_body : E → Body E J

-- a response with its status, what `raise_for_status()` raises, if it does, and its body; or the exception of
-- `requests.get`
pub data Reply (E J : Type 0) : Type 0 where
  response : ℕ → Option E → Body E J → Reply E J
  no_response : E → Reply E J

-- what the body of the loop makes of a reply
pub data Judged (E J : Type 0) : Type 0 where
  json : J → Judged E J
  non_retryable : ℕ → Judged E J
  retry : E → Judged E J

-- How the call ends: `raised` is the exception of an attempt, `no_attempt` the `RuntimeError` at the end.
pub data Ended (E J : Type 0) : Type 0 where
  got : J → Ended E J
  non_retryable_error : ℕ → Ended E J
  raised : E → Ended E J
  no_attempt : Ended E J

-- what the call does, in this order
pub data Action : Type 0 where
  request : ℕ → Action
  sleep : ℕ → Action

-- 400 <= status < 500 and status != 429
abbrev pub is_final : ℕ → Bool
is_final status = leb 400 status && ltb status 500 && not (status == 429)

abbrev pub judge_body : {E J : Type 0} → Body E J → Judged E J
judge_body (body j) = json j
judge_body (bad_body error) = retry error

abbrev pub judge_response : {E J : Type 0} → Option E → Body E J → Judged E J
judge_response (some error) content = retry error
judge_response none content = judge_body content

unfoldable pub judge : {E J : Type 0} → Reply E J → Judged E J
judge (no_response error) = retry error
judge (response status error content) =
    if is_final status then non_retryable status else judge_response error content

-- the end after the loop, by `last_error`
abbrev pub after_loop : {E J : Type 0} → Option E → Ended E J
after_loop none = no_attempt
after_loop (some error) = raised error

-- the wait after a failed attempt, if one is left
abbrev pub waited : ℕ → ℕ → List Action → List Action
waited attempt left actions = if ltb 0 left then sleep attempt ∷ actions else actions

-- The end of the attempts from `attempt` on, by its reply and, for its error, the end of the `left` ones after it.
abbrev pub settle :
    {E J : Type 0} → Judged E J → ℕ → ℕ → (E → Ended E J × List Action) → Ended E J × List Action
settle (json j) attempt left next = (got j, request attempt ∷ [])
settle (non_retryable status) attempt left next = (non_retryable_error status, request attempt ∷ [])
settle (retry error) attempt left next =
    ((next error).0, request attempt ∷ waited attempt left (next error).1)

module _ {E J : Type 0} (send : ℕ → Reply E J) where
  -- `left` attempts from the one numbered `attempt` on
  unfoldable pub attempts_from : ℕ → ℕ → Option E → Ended E J × List Action
  attempts_from zero attempt last_error = (after_loop last_error, [])
  attempts_from (suc left) attempt last_error =
      settle (judge (send attempt)) attempt left
        (λ error. attempts_from left (suc attempt) (some error))

  unfoldable pub get_json_with_retry : ℕ → Ended E J × List Action
  get_json_with_retry retries = attempts_from retries 1 none
