-- ===== src/RateLimit/Tests.antt =====
-- Runs of the limiter, and its theorems at concrete calls.
use parcel_explorer.Prelude.{
  ℕ, ◌*◌, ◌≤◌, ◌≡◌, ◌↔◌, refl, true, false, List, [], ◌∷◌, lookup, insert, keep_values, length,
  arith,
}
use parcel_explorer.RateLimit.{
  ticks, granted, denied, index_error, allow, prune, evict_expired, refuse, make_room,
}
use parcel_explorer.RateLimit.Window.{live, recent}
use parcel_explorer.RateLimit.Spec.{Call, times, answers, spec_answers, grants, IsTimed}
use parcel_explorer.RateLimit.Refinement.{
  empty-Represents, answers-eq-spec_answers, allow-index_error, bucket_of,
}
use parcel_explorer.RateLimit.Bound.{HasLimit, recent-grants-le}
use parcel_explorer.RateLimit.Retry.{retry-allow}

abbrev call : ℕ → Call
call now = record { key = "events:10.0.0.1"; limit = 2; now = now }

-- two calls a minute: at 1 s, 2 s, 50 s and 61 s
abbrev calls : List Call
calls = call 1_000_000 ∷ call 2_000_000 ∷ call 50_000_000 ∷ call 61_000_000 ∷ []

calls-IsTimed : IsTimed 0 calls
calls-IsTimed = omega arith

calls_limited : HasLimit "events:10.0.0.1" 2 calls
calls_limited = (λ e. refl, (λ e. refl, (λ e. refl, (λ e. refl, tt))))

answers_run : answers 60 [] calls ≡ true ∷ true ∷ false ∷ true ∷ []
unfolding answers allow make_room evict_expired prune refuse lookup insert keep_values
answers_run = refl

full_run : (allow "a" 2 60 50_000_000 (("a", 1_000_000 ∷ 2_000_000 ∷ []) ∷ [])).0 ≡ denied 11
unfolding allow make_room evict_expired prune refuse lookup insert keep_values
full_run = refl

bucket_run : length (bucket_of "a" (("a", 1_000_000 ∷ 2_000_000 ∷ []) ∷ [])) ≤ 2
unfolding lookup
bucket_run = omega arith

answers-eq-spec_answers_example : answers 60 [] calls ≡ spec_answers 60 [] calls
answers-eq-spec_answers_example = answers-eq-spec_answers 60 calls calls-IsTimed

recent-grants-le_example :
    recent (60 * ticks) 61_000_000 (times "events:10.0.0.1" (grants 60 [] [] calls)) ≤ 2
recent-grants-le_example =
    recent-grants-le 60 "events:10.0.0.1" 2 calls 61_000_000 calls-IsTimed calls_limited

-- a limit of 0, which the admin settings accept
abbrev shut : Call
shut = record { key = "public-download:10.0.0.1"; limit = 0; now = 1_000_000 }

allow-index_error_example :
    ((allow shut.key shut.limit 60 shut.now []).0 ≡ index_error)
    ↔ ((shut.limit ≡ 0) × (live (60 * ticks) shut.now (times shut.key []) ≡ 0))
allow-index_error_example =
    allow-index_error 60 0 [] [] shut (omega arith) (empty-Represents (60 * ticks))

retry-allow_example :
    (1 ≤ 11)
    × ((allow "a" 2 60 61_000_000
          (allow "a" 2 60 50_000_000 (("a", 1_000_000 ∷ 2_000_000 ∷ []) ∷ [])).1).0
        ≡ granted)
unfolding lookup
retry-allow_example =
    retry-allow "a" 2 60 50_000_000 61_000_000 11 (("a", 1_000_000 ∷ 2_000_000 ∷ []) ∷ [])
      (refl, tt) bucket_run full_run (omega arith)
