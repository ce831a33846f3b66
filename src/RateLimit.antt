-- ===== src/RateLimit.antt =====
-- app/rate_limit.py: the sliding-window limiter of the public endpoints.
-- A float time is a whole number of ticks, `ticks` to the second; `now` is what `time.time()`
-- returned. A limit below 1 acts as 0 does, so it is a natural number. The lock is not modelled:
-- a call is one step. `t <= now - window` is written `t + window ≤ now`.
pub mod Window
pub mod Spec
pub mod Refinement
pub mod Bound
pub mod Retry
mod Tests
use parcel_explorer.Prelude.{
  ℕ, ◌+◌, ◌-◌, ◌*◌, ◌/◌, max, String, Bool, true, false, Option, none, some, List, [], ◌∷◌, ◌++◌,
  leb, length, get_last?, Dict, lookup, insert, keep_values, or_else, not, if◌then◌else◌,
}

-- ticks to a second
abbrev pub ticks : ℕ
ticks = 1_000_000

-- MAX_TRACKED_KEYS
abbrev pub max_tracked_keys : ℕ
max_tracked_keys = 10_000

-- `_events`: the times of the granted calls of each key, oldest first
abbrev pub Limiter : Type 0
Limiter = Dict (List ℕ)

-- What `allow` returns, or raises: `index_error` is `bucket[0]` of an empty bucket.
pub data Outcome : Type 0 where
  granted : Outcome
  denied : ℕ → Outcome
  index_error : Outcome

-- while bucket and bucket[0] <= cutoff: bucket.popleft()
unfoldable pub prune : ℕ → ℕ → List ℕ → List ℕ
prune window now [] = []
prune window now (t ∷ ts) = if leb (t + window) now then prune window now ts else t ∷ ts

-- not bucket or bucket[-1] <= cutoff
unfoldable pub is_expired : ℕ → ℕ → List ℕ → Bool
is_expired window now bucket = elim (get_last? bucket) [
  | none ↦ true
  | some t ↦ leb (t + window) now
]

unfoldable pub evict_expired : ℕ → ℕ → Limiter → Limiter
unfolding is_expired
evict_expired window now events = keep_values (λ bucket. not (is_expired window now bucket)) events

-- math.ceil of a time in ticks, in seconds
abbrev pub ceil_seconds : ℕ → ℕ
ceil_seconds t = (t + 999_999) / ticks

-- the answer of a full bucket
unfoldable pub refuse : ℕ → ℕ → List ℕ → Outcome
refuse window now [] = index_error
refuse window now (oldest ∷ _) = denied (max 1 (ceil_seconds (oldest + window - now)))

-- len(self._events) >= MAX_TRACKED_KEYS
unfoldable pub make_room : ℕ → ℕ → Limiter → Limiter
make_room window now events =
    if leb max_tracked_keys (length events) then evict_expired window now events else events

-- Every call that the limiter makes room for, prunes and answers; `limit` and `window_seconds` are
-- the arguments of the call.
unfoldable pub allow : String → ℕ → ℕ → ℕ → Limiter → Outcome × Limiter
allow key limit window_seconds now events =
    let window = window_seconds * ticks in
    let room = make_room window now events in
    let bucket = prune window now (or_else (lookup key room) []) in
    if leb limit (length bucket)
    then (refuse window now bucket, insert key bucket room)
    else (granted, insert key (bucket ++ now ∷ []) room)
