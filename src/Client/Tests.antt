-- ===== src/Client/Tests.antt =====
-- Calls with replies of all kinds.
use parcel_explorer.Prelude.{
  ℕ, ◌<◌, ◌≡◌, ◌⊎◌, refl, String, none, some, [], ◌∷◌, ◌==◌, if◌then◌else◌,
}
use parcel_explorer.Client.{
  Reply, response, no_response, body, bad_body, got, non_retryable_error, raised, no_attempt,
  request, sleep, judge, attempts_from, get_json_with_retry,
}
use parcel_explorer.Client.Attempts.{IsDecidedAfter, IsGivenUp, get_json_with_retry_cases}

-- no connection, too many requests, a text that is no JSON, then a result
abbrev fourth_time : ℕ → Reply String ℕ
fourth_time n =
    if n == 1
    then no_response "ConnectionError"
    else if n == 2
    then response 429 (some "HTTPError") (body 0)
    else if n == 3
    then response 200 none (bad_body "JSONDecodeError")
    else response 200 none (body 7)

fourth_run :
    (get_json_with_retry fourth_time 5
      ≡ (got 7, request 1 ∷ sleep 1 ∷ request 2 ∷ sleep 2 ∷ request 3 ∷ sleep 3 ∷ request 4 ∷ []))
    × (get_json_with_retry fourth_time 2
        ≡ (raised "HTTPError", request 1 ∷ sleep 1 ∷ request 2 ∷ []))
    × (get_json_with_retry fourth_time 0 ≡ (no_attempt, []))
unfolding get_json_with_retry attempts_from judge
fourth_run = (refl, refl, refl)

not_found :
    get_json_with_retry {E = String} {J = ℕ} (λ n. response 404 (some "HTTPError") (body 0)) 5
    ≡ (non_retryable_error 404, request 1 ∷ [])
unfolding get_json_with_retry attempts_from judge
not_found = refl

get_json_with_retry_cases_example :
    ((earlier : ℕ) × (earlier < 5)
      × IsDecidedAfter fourth_time 1 earlier (get_json_with_retry fourth_time 5))
    ⊎ IsGivenUp fourth_time 1 5 none (get_json_with_retry fourth_time 5)
get_json_with_retry_cases_example = get_json_with_retry_cases fourth_time 5
