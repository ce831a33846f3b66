-- ===== src/RateLimit/Retry.antt =====
-- The `Retry-After` of a denied call.
use parcel_explorer.Prelude.{
  ℕ, ◌+◌, ◌*◌, ◌≤◌, ◌<◌, String, ◌≡◌, true, List, [], ◌∷◌, ◌++◌, arith, leb, length, eq_iff,
  lookup-insert, HasDistinctKeys, insert-HasDistinctKeys,
}
use parcel_explorer.RateLimit.{Limiter, ticks, granted, denied, prune, refuse, make_room, allow}
use parcel_explorer.RateLimit.Refinement.{bucket_of, make_room_cases, make_room-HasDistinctKeys}

length-prune-le : (w now : ℕ) (ts : List ℕ) → length (prune w now ts) ≤ length ts
unfolding prune
length-prune-le w now [] = omega arith
length-prune-le w now (t ∷ ts) = ground (arith, length-prune-le w now ts)

-- what was kept at `now` and is headed by a time that a later pruning drops, gets shorter
length-prune-lt :
    (w later t : ℕ) (ts : List ℕ)
    → t + w ≤ later
    → length (prune w later (t ∷ ts)) < length (t ∷ ts)
unfolding prune
length-prune-lt w later t ts h = ground (arith, length-prune-le w later ts)

refuse_retry :
    (w now later limit retry : ℕ) (b : List ℕ)
    → refuse w now b ≡ denied retry
    → length b ≡ limit
    → now + retry * ticks ≤ later
    → (1 ≤ retry) × (length (prune w later b) < limit)
unfolding refuse
refuse_retry w now later limit retry [] r l h = ground arith
refuse_retry w now later limit retry (t ∷ ts) r l h = ground (arith, length-prune-lt w later t ts)

module _ (key : String) (limit window_seconds : ℕ) where
  granted_after :
      (now : ℕ) (events : Limiter)
      → HasDistinctKeys events
      → 0 < limit
      → length (prune (window_seconds * ticks) now (bucket_of key events)) < limit
      → (allow key limit window_seconds now events).0 ≡ granted
  unfolding allow prune
  granted_after now events d p l =
      ground (arith, make_room_cases (window_seconds * ticks) now key events d)

  -- the bucket that a call at `now` answers by
  abbrev pruned : ℕ → Limiter → List ℕ
  pruned now events =
      prune (window_seconds * ticks) now
        (bucket_of key (make_room (window_seconds * ticks) now events))

  length-pruned :
      (now : ℕ) (events : Limiter)
      → HasDistinctKeys events
      → length (pruned now events) ≤ length (bucket_of key events)
  unfolding prune
  length-pruned now events d = ground (
    arith,
    make_room_cases (window_seconds * ticks) now key events d,
    length-prune-le (window_seconds * ticks) now (bucket_of key events),
  )

  bucket_of-allow :
      (now : ℕ) (events : Limiter)
      → leb limit (length (pruned now events)) ≡ true
      → bucket_of key (allow key limit window_seconds now events).1 ≡ pruned now events
  unfolding allow
  bucket_of-allow now events h = ground (
    arith,
    eq_iff key key,
    lookup-insert key key (pruned now events) (make_room (window_seconds * ticks) now events),
  )

  allow-HasDistinctKeys :
      (now : ℕ) (events : Limiter)
      → HasDistinctKeys events
      → HasDistinctKeys (allow key limit window_seconds now events).1
  unfolding allow
  allow-HasDistinctKeys now events d = ground (
    arith,
    make_room-HasDistinctKeys (window_seconds * ticks) now events d,
    insert-HasDistinctKeys key (pruned now events) (make_room (window_seconds * ticks) now events),
    insert-HasDistinctKeys key (pruned now events ++ now ∷ [])
        (make_room (window_seconds * ticks) now events),
  )

  denied_full :
      (now : ℕ) (events : Limiter) {retry : ℕ}
      → (allow key limit window_seconds now events).0 ≡ denied retry
      → (leb limit (length (pruned now events)) ≡ true)
        × (refuse (window_seconds * ticks) now (pruned now events) ≡ denied retry)
  unfolding allow
  denied_full now events r = ground arith

  refuse_nonempty :
      (now : ℕ) (b : List ℕ) {retry : ℕ}
      → refuse (window_seconds * ticks) now b ≡ denied retry
      → 0 < length b
  unfolding refuse
  refuse_nonempty now [] r = ground arith
  refuse_nonempty now (t ∷ ts) r = omega arith

  -- A denied call names a wait of at least one second; if its key had at most `limit` recorded
  -- grants, the same call that long later, with no other call in between, is granted.
  pub retry-allow :
      (now later retry : ℕ) (events : Limiter)
      → HasDistinctKeys events
      → length (bucket_of key events) ≤ limit
      → (allow key limit window_seconds now events).0 ≡ denied retry
      → now + retry * ticks ≤ later
      → (1 ≤ retry)
        × ((allow key limit window_seconds later (allow key limit window_seconds now events).1).0
            ≡ granted)
  retry-allow now later retry events d l r h =
      let b = pruned now events in
      let (full, refused) = denied_full now events r in
      let short = length-pruned now events d in
      let exact : length b ≡ limit = ground arith in
      let waited = refuse_retry (window_seconds * ticks) now later limit retry b refused exact h in
      let positive = refuse_nonempty now b refused in
      (
        waited.0,
        granted_after later (allow key limit window_seconds now events).1
            (allow-HasDistinctKeys now events d) (omega arith)
            (rw (bucket_of-allow now events full) waited.1),
      )
