-- ===== src/Auth/Failures.antt =====
-- What the limiter methods do to the record of one key.
use parcel_explorer.Prelude.{
  ℕ, ◌+◌, ◌≤◌, ◌<◌, String, ◌≡◌, refl, ◌≢◌, ◌⊎◌, true, some, List, [], ◌∷◌, ◌++◌, arith, leb,
  eq_iff, length, count, keep, lookup, lookup-insert, lookup-remove,
}
use parcel_explorer.Auth.Limiter.{
  Limiter, attempts_of, cleanup, append_attempt, is_blocked, register_failure, reset,
}

-- what a limiter holds of one key
pub record SameAt (k : String) (s s' : Limiter) : Type 0 where
  pub attempts : attempts_of k s' ≡ attempts_of k s
  pub blocked : lookup k s'.blocked_until ≡ lookup k s.blocked_until
  pub max_attempts : s'.max_attempts ≡ s.max_attempts
  pub cooldown : s'.cooldown ≡ s.cooldown

pub is_blocked-SameAt :
    (k j : String) (now : ℕ) (s : Limiter) → j ≢ k → SameAt k s (is_blocked j now s).1
unfolding is_blocked
is_blocked-SameAt k j now s ne = ground (arith, lookup-remove j k s.blocked_until, eq_iff j k)

pub reset-SameAt : (k j : String) (s : Limiter) → j ≢ k → SameAt k s (reset j s)
unfolding reset
reset-SameAt k j s ne =
    ground (arith, lookup-remove j k s.blocked_until, lookup-remove j k s.attempts, eq_iff j k)

-- the attempts that a failure leaves, itself included
abbrev kept : String → ℕ → Limiter → List ℕ
kept j now s = keep (λ t. leb now (t + s.cooldown)) (attempts_of j s) ++ now ∷ []

module _ (j : String) (now : ℕ) (s : Limiter) where
  attempts_of-cleanup :
      attempts_of j (cleanup j now s) ≡ keep (λ t. leb now (t + s.cooldown)) (attempts_of j s)
  unfolding cleanup
  attempts_of-cleanup = ground (
    arith,
    eq_iff j j,
    lookup-insert j j (keep (λ t. leb now (t + s.cooldown)) (attempts_of j s)) s.attempts,
  )

  attempts_of-append_attempt : attempts_of j (append_attempt j now (cleanup j now s)) ≡ kept j now s
  attempts_of-append_attempt = ground (
    arith,
    eq_iff j j,
    attempts_of-cleanup,
    lookup-insert j j (attempts_of j (cleanup j now s) ++ now ∷ []) (cleanup j now s).attempts,
  )

  -- the attempts after a failure: one more, or a block and none
  pub register_failure_cases :
      ((s.max_attempts ≤ length (kept j now s))
        × (attempts_of j (register_failure j now s) ≡ [])
        × (lookup j (register_failure j now s).blocked_until ≡ some (now + s.cooldown)))
      ⊎ ((length (kept j now s) < s.max_attempts)
          × (attempts_of j (register_failure j now s) ≡ kept j now s)
          × (lookup j (register_failure j now s).blocked_until ≡ lookup j s.blocked_until))
  unfolding register_failure
  register_failure_cases = ground (
    arith,
    eq_iff j j,
    attempts_of-append_attempt,
    lookup-insert j j (now + s.cooldown) s.blocked_until,
    lookup-insert j j [] (append_attempt j now (cleanup j now s)).attempts,
  )

  pub register_failure-SameAt : (k : String) → j ≢ k → SameAt k s (register_failure j now s)
  unfolding register_failure
  register_failure-SameAt k ne = ground (
    arith,
    eq_iff j k,
    lookup-insert j k (now + s.cooldown) s.blocked_until,
    lookup-insert j k (keep (λ t. leb now (t + s.cooldown)) (attempts_of j s)) s.attempts,
    lookup-insert j k (attempts_of j (cleanup j now s) ++ now ∷ []) (cleanup j now s).attempts,
    lookup-insert j k [] (append_attempt j now (cleanup j now s)).attempts,
  )

-- `is_blocked` forgets a block that is over, and changes nothing else.
pub is_blocked_self :
    (j : String) (now : ℕ) (s : Limiter)
    → (attempts_of j (is_blocked j now s).1 ≡ attempts_of j s)
      × ((is_blocked j now s).1.max_attempts ≡ s.max_attempts)
      × ((is_blocked j now s).1.cooldown ≡ s.cooldown)
unfolding is_blocked
is_blocked_self j now s = ground arith

-- a block holds up to its end
pub is_blocked_before :
    (j : String) (now until : ℕ) (s : Limiter)
    → lookup j s.blocked_until ≡ some until
    → now < until
    → is_blocked j now s ≡ (true, s)
unfolding is_blocked
is_blocked_before j now until s h lt = ground arith

pub register_failure_fields :
    (j : String) (now : ℕ) (s : Limiter)
    → ((register_failure j now s).max_attempts ≡ s.max_attempts)
      × ((register_failure j now s).cooldown ≡ s.cooldown)
unfolding register_failure
register_failure_fields j now s = ground arith

-- no attempt of the window is dropped
pub count-kept :
    (start now c : ℕ) (ts : List ℕ)
    → now < start + c
    → count (leb start) (keep (λ t. leb now (t + c)) ts) ≡ count (leb start) ts
count-kept start now c [] h = refl
count-kept start now c (t ∷ ts) h = ground (arith, count-kept start now c ts h)
