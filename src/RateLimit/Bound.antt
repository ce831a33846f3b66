-- ===== src/RateLimit/Bound.antt =====
-- No key ever has more grants than its limit in any window.
use parcel_explorer.Prelude.{ℕ, ◌*◌, ◌≤◌, ◌<◌, String, ◌≡◌, List, [], ◌∷◌, arith, All, eq_iff}
use parcel_explorer.RateLimit.{Limiter, ticks}
use parcel_explorer.RateLimit.Window.{live, recent, live-antitone, recent-le-live}
use parcel_explorer.RateLimit.Spec.{Call, Log, times, may_call, noted, grants, IsTimed}
use parcel_explorer.RateLimit.Refinement.{
  Represents, is_granted-allow, allow-Represents, empty-Represents,
}

-- every call with this key comes with this limit
abbrev pub HasLimit : String → ℕ → List Call → Type 0
HasLimit key limit calls = All (λ c. c.key ≡ key → c.limit ≡ limit) calls

abbrev IsBounded : ℕ → ℕ → List ℕ → Type 0
IsBounded window limit ts = (time : ℕ) → recent window time ts ≤ limit

grant-IsBounded :
    (window now limit time : ℕ) (ts : List ℕ)
    → live window now ts < limit
    → recent window time ts ≤ limit
    → recent window time (now ∷ ts) ≤ limit
grant-IsBounded window now limit time ts h b =
    ground (arith, recent-le-live window time ts, live-antitone window now time ts)

module _ (window_seconds : ℕ) (key : String) (limit : ℕ) where
  noted-IsBounded :
      (log : Log) (c : Call)
      → (c.key ≡ key → c.limit ≡ limit)
      → IsBounded (window_seconds * ticks) limit (times key log)
      → IsBounded
          (window_seconds * ticks)
          limit
          (times key (noted (may_call window_seconds log c) c log))
  noted-IsBounded log c h b time = ground (
    arith,
    b time,
    eq_iff c.key key,
    h,
    grant-IsBounded (window_seconds * ticks) c.now limit time (times key log),
  )

  grants-IsBounded :
      (calls : List Call) {last : ℕ} {events : Limiter} {log : Log}
      → IsTimed last calls
      → HasLimit key limit calls
      → Represents (window_seconds * ticks) last events log
      → IsBounded (window_seconds * ticks) limit (times key log)
      → IsBounded
          (window_seconds * ticks)
          limit
          (times key (grants window_seconds events log calls))
  unfolding grants
  grants-IsBounded [] h l r b = b
  grants-IsBounded (c ∷ calls) {log = log} h l r b =
      grants-IsBounded calls h.1 l.1 (allow-Represents window_seconds c h.0 r)
        (rw (is_granted-allow window_seconds c h.0 r) (noted-IsBounded log c l.0 b))

  -- From an empty limiter, with one window for all keys, one limit for the calls of this key and a
  -- clock that does not run backwards: in every window (time - window, time] the key has at most
  -- `limit` granted calls, whatever other keys call and whenever buckets are evicted.
  pub recent-grants-le :
      (calls : List Call) (time : ℕ)
      → IsTimed 0 calls
      → HasLimit key limit calls
      → recent (window_seconds * ticks) time (times key (grants window_seconds [] [] calls)) ≤ limit
  recent-grants-le calls time h l =
      grants-IsBounded calls h l (empty-Represents (window_seconds * ticks)) (λ t. omega arith) time
