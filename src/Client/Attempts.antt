-- ===== src/Client/Attempts.antt =====
-- Which attempt decides, and what the call does until then.
use parcel_explorer.Prelude.{
  ℕ, zero, suc, ◌+◌, ◌<◌, ◌≡◌, refl, ◌⊎◌, inl, inr, Option, none, some, List, [], ◌∷◌, arith,
}
use parcel_explorer.Client.{
  Reply, Judged, json, non_retryable, retry, Ended, got, non_retryable_error, raised, Action,
  request, sleep, judge, after_loop, settle, attempts_from, get_json_with_retry,
}

-- `earlier` attempts from `start` on, each with the wait after it, and the one after them
abbrev pub actions : ℕ → ℕ → List Action
actions start zero = request start ∷ []
actions start (suc earlier) = request start ∷ sleep start ∷ actions (suc start) earlier

-- the end that a reply decides, if it decides one
abbrev pub decided : {E J : Type 0} → Judged E J → Option (Ended E J)
decided (json j) = some (got j)
decided (non_retryable status) = some (non_retryable_error status)
decided (retry error) = none

at_zero : (n : ℕ) → n + 0 ≡ n
at_zero n = omega arith

at_suc : (n m : ℕ) → n + suc m ≡ suc n + m
at_suc n m = omega arith

module _ {E J : Type 0} (send : ℕ → Reply E J) where
  -- `count` attempts from `start` on are to be tried again
  abbrev pub AreRetried : ℕ → ℕ → Type 0
  AreRetried start zero = Unit
  AreRetried start (suc count) =
      ((error : E) × judge (send start) ≡ retry error) × AreRetried (suc start) count

  -- the attempt after `earlier` ones decides
  abbrev pub IsDecidedAfter : ℕ → ℕ → Ended E J × List Action → Type 0
  IsDecidedAfter start earlier (ended, done) =
      AreRetried start earlier
      × (decided (judge (send (start + earlier))) ≡ some ended)
      × (done ≡ actions start earlier)

  -- the attempts are all tried again, and the call ends with the error of the last one, or as `last_error` says
  -- if there are none
  abbrev pub IsGivenUp : ℕ → ℕ → Option E → Ended E J × List Action → Type 0
  IsGivenUp start zero last_error (ended, done) = (ended ≡ after_loop last_error) × (done ≡ [])
  IsGivenUp start (suc earlier) last_error (ended, done) =
      AreRetried start (suc earlier)
      × ((error : E) × judge (send (start + earlier)) ≡ retry error × ended ≡ raised error)
      × (done ≡ actions start earlier)

  abbrev IsSettled : ℕ → ℕ → Option E → Ended E J × List Action → Type 0
  IsSettled start count last_error result =
      ((earlier : ℕ) × (earlier < count) × IsDecidedAfter start earlier result)
      ⊎ IsGivenUp start count last_error result

  settle_cases :
      (j : Judged E J) (attempt left : ℕ) (last_error : Option E)
      (next : E → Ended E J × List Action)
      → judge (send attempt) ≡ j
      → ((error : E) → IsSettled (suc attempt) left (some error) (next error))
      → IsSettled attempt (suc left) last_error (settle j attempt left next)
  settle_cases (json j) attempt left last_error next e c =
      inl (0, omega arith, (tt, rw (at_zero attempt, e) refl, refl))
  settle_cases (non_retryable status) attempt left last_error next e c =
      inl (0, omega arith, (tt, rw (at_zero attempt, e) refl, refl))
  settle_cases (retry error) attempt zero last_error next e c = elim (c error) [
    | inl (earlier, below, h) ↦ absurd (omega (arith, below))
    | inr (ends, done) ↦
        inr (((error, e), tt), (error, rw (at_zero attempt) e, ends), ground (arith, done))
  ]
  settle_cases (retry error) attempt (suc left) last_error next e c = elim (c error) [
    | inl (earlier, below, (retried, decides, done)) ↦ inl (
      suc earlier,
      omega arith,
      (((error, e), retried), rw (at_suc attempt earlier) decides, ground (arith, done)),
    )
    | inr (retried, (last, judged, ends), done) ↦
        inr (
          ((error, e), retried),
          (last, rw (at_suc attempt left) judged, ends),
          ground (arith, done),
        )
  ]

  from_cases :
      (left attempt : ℕ) (last_error : Option E)
      → IsSettled attempt left last_error (attempts_from send left attempt last_error)
  unfolding attempts_from
  from_cases zero attempt last_error = inr (refl, refl)
  from_cases (suc left) attempt last_error =
      settle_cases (judge (send attempt)) attempt left last_error
        (λ error. attempts_from send left (suc attempt) (some error)) refl
        (λ error. from_cases left (suc attempt) (some error))

  -- Either one of the attempts 1 to `retries` decides, with a result or an error that no repetition helps: then
  -- all attempts before it failed in a way that is tried again, and the call ends as it decides. Or all attempts
  -- failed so: then the call raises the error of the last one, or a RuntimeError if there was no attempt. In both
  -- cases the call makes the attempts 1, 2 and so on up to that one and none after it, and waits after each but that
  -- one, by its number.
  pub get_json_with_retry_cases :
      (retries : ℕ)
      → ((earlier : ℕ) × (earlier < retries)
          × IsDecidedAfter 1 earlier (get_json_with_retry send retries))
        ⊎ IsGivenUp 1 retries none (get_json_with_retry send retries)
  unfolding get_json_with_retry
  get_json_with_retry_cases retries = from_cases retries 1 none
