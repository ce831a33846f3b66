-- ===== src/RateLimit/Refinement.antt =====
-- The limiter, which prunes and evicts, answers as the specification on the full log.
use parcel_explorer.Prelude.{
  ℕ, ◌+◌, ◌*◌, ◌≤◌, String, ◌≡◌, refl, sym, ap, ◌∙◌, ◌⊎◌, ◌↔◌, inl, inr, Bool, true, false, not,
  List, [], ◌∷◌, ◌++◌, arith, ltb, str_eq, length, count-append, All, All-append, lookup, insert,
  keep_values, or_else, HasDistinctKeys, lookup-insert, lookup-keep_values,
  keep_values-HasDistinctKeys, insert-HasDistinctKeys, eq_iff, if◌then◌else◌,
}
use parcel_explorer.RateLimit.{
  Limiter, ticks, index_error, prune, is_expired, evict_expired, make_room, refuse, allow,
}
use parcel_explorer.RateLimit.Window.{
  live, IsOrdered, live-prune, prune-IsOrdered, prune-All, length-prune, live-is_expired,
  IsOrdered-append, All-le_trans,
}
use parcel_explorer.RateLimit.Spec.{
  Call, Log, times, may_call, is_granted, noted, answers, spec_answers, IsTimed,
}

abbrev pub bucket_of : String → Limiter → List ℕ
bucket_of k events = or_else (lookup k events) []

-- A limiter last called at `last` stands for a log.
pub record Represents (window last : ℕ) (events : Limiter) (log : Log) : Type 0 where
  pub distinct : HasDistinctKeys events
  pub ordered : (k : String) → IsOrdered (bucket_of k events)
  pub past : (k : String) → All (λ t. t ≤ last) (bucket_of k events)
  pub counts :
      (k : String) (time : ℕ)
      → last ≤ time
      → live window time (bucket_of k events) ≡ live window time (times k log)

bucket_of-keep_values :
    (p : List ℕ → Bool) (k : String) (events : Limiter)
    → HasDistinctKeys events
    → (bucket_of k (keep_values p events) ≡ bucket_of k events)
      ⊎ ((bucket_of k (keep_values p events) ≡ []) × (p (bucket_of k events) ≡ false))
bucket_of-keep_values p k events h = ground (arith, lookup-keep_values p k events h)

bucket_of-insert :
    (k j : String) (b : List ℕ) (events : Limiter)
    → bucket_of j (insert k b events) ≡ (if str_eq k j then b else bucket_of j events)
bucket_of-insert k j b events = ground (arith, lookup-insert k j b events)

module _ (window now : ℕ) where
  pub make_room_cases :
      (k : String) (events : Limiter)
      → HasDistinctKeys events
      → (bucket_of k (make_room window now events) ≡ bucket_of k events)
        ⊎ ((bucket_of k (make_room window now events) ≡ [])
            × (is_expired window now (bucket_of k events) ≡ true))
  unfolding make_room evict_expired
  make_room_cases k events h =
      ground (arith, bucket_of-keep_values (λ b. not (is_expired window now b)) k events h)

  pub make_room-HasDistinctKeys :
      (events : Limiter) → HasDistinctKeys events → HasDistinctKeys (make_room window now events)
  unfolding make_room evict_expired
  make_room-HasDistinctKeys events h =
      ground (arith, keep_values-HasDistinctKeys (λ b. not (is_expired window now b)) events h)

  pub make_room-Represents :
      {last : ℕ} {events : Limiter} {log : Log}
      → last ≤ now
      → Represents window last events log
      → Represents window now (make_room window now events) log
  make_room-Represents {last} {events} h r = record {
    distinct = make_room-HasDistinctKeys events r.distinct;
    ordered = λ k. elim (make_room_cases k events r.distinct) [
      | inl same ↦ rw same (r.ordered k)
      | inr (gone, _) ↦ rw gone tt
    ];
    past = λ k. elim (make_room_cases k events r.distinct) [
      | inl same ↦ rw same (All-le_trans last now _ h (r.past k))
      | inr (gone, _) ↦ rw gone tt
    ];
    counts = λ k time le. elim (make_room_cases k events r.distinct) [
      | inl same ↦ rw same (r.counts k time (omega arith))
      | inr (gone, old) ↦ rw gone (
          sym (live-is_expired window now time _ le (r.ordered k) old)
          ∙ r.counts k time (omega arith))
    ];
  }

  insert-Represents :
      {events : Limiter} {log : Log} (key : String) (b : List ℕ) (log' : Log)
      → IsOrdered b
      → All (λ t. t ≤ now) b
      → ((j : String) (time : ℕ)
          → now ≤ time
          → live window time (if str_eq key j then b else bucket_of j events)
            ≡ live window time (times j log'))
      → Represents window now events log
      → Represents window now (insert key b events) log'
  insert-Represents {events} key b log' o a same r = record {
    distinct = insert-HasDistinctKeys key b events r.distinct;
    ordered = λ j. rw bucket_of-insert (ground (arith, r.ordered j));
    past = λ j. rw bucket_of-insert (ground (arith, r.past j));
    counts = λ j time le. rw bucket_of-insert (same j time le);
  }

  pruned-Represents :
      {events : Limiter} {log : Log} (key : String)
      → Represents window now events log
      → Represents window now (insert key (prune window now (bucket_of key events)) events) log
  pruned-Represents {events} {log} key r =
      insert-Represents key (prune window now (bucket_of key events)) log
        (prune-IsOrdered window now _ (r.ordered key)) (prune-All window now _ _ (r.past key))
        (λ j time le. ground (
          arith,
          eq_iff key j,
          live-prune window now time (bucket_of key events) le,
          r.counts j time le,
        ))
        r

  granted-Represents :
      {events : Limiter} {log : Log} (key : String)
      → Represents window now events log
      → Represents window now
          (insert key (prune window now (bucket_of key events) ++ now ∷ []) events)
          ((key, now) ∷ log)
  granted-Represents {events} {log} key r =
      let b = prune window now (bucket_of key events) in
      let older = prune-All window now _ _ (r.past key) in
      insert-Represents key (b ++ now ∷ []) ((key, now) ∷ log)
        (IsOrdered-append b now (prune-IsOrdered window now _ (r.ordered key)) older)
        (All-append _ b (now ∷ []) older (omega arith, tt))
        (λ j time le. ground (
          arith,
          eq_iff key j,
          count-append (λ t. ltb time (t + window)) b (now ∷ []),
          live-prune window now time (bucket_of key events) le,
          r.counts j time le,
        ))
        r

refuse-index_error :
    (window now : ℕ) (b : List ℕ) → (refuse window now b ≡ index_error) ↔ (length b ≡ 0)
unfolding refuse
refuse-index_error window now [] = (λ e. refl, λ e. refl)
refuse-index_error window now (t ∷ ts) = (λ e. cc, λ e. ground arith)

module _ (window_seconds : ℕ) where
  -- One call answers as promised.
  pub is_granted-allow :
      {last : ℕ} {events : Limiter} {log : Log} (c : Call)
      → last ≤ c.now
      → Represents (window_seconds * ticks) last events log
      → is_granted (allow c.key c.limit window_seconds c.now events).0
        ≡ may_call window_seconds log c
  unfolding allow refuse
  is_granted-allow {events = events} c h r =
      let w = window_seconds * ticks in
      let room = make_room-Represents w c.now h r in
      ground (
        arith,
        length-prune w c.now _ (room.ordered c.key),
        live-prune w c.now c.now (bucket_of c.key (make_room w c.now events)),
        room.counts c.key c.now,
      )

  pub allow-Represents :
      {last : ℕ} {events : Limiter} {log : Log} (c : Call)
      → last ≤ c.now
      → Represents (window_seconds * ticks) last events log
      → Represents
          (window_seconds * ticks)
          c.now
          (allow c.key c.limit window_seconds c.now events).1
          (noted (is_granted (allow c.key c.limit window_seconds c.now events).0) c log)
  unfolding allow refuse
  allow-Represents {events = events} c h r =
      let w = window_seconds * ticks in
      let room = make_room w c.now events in
      let r' = make_room-Represents w c.now h r in
      ground (arith, pruned-Represents w c.now c.key r', granted-Represents w c.now c.key r')

  answers-eq-spec_answers_from :
      (calls : List Call) {last : ℕ} {events : Limiter} {log : Log}
      → IsTimed last calls
      → Represents (window_seconds * ticks) last events log
      → answers window_seconds events calls ≡ spec_answers window_seconds log calls
  unfolding answers spec_answers
  answers-eq-spec_answers_from [] h r = refl
  answers-eq-spec_answers_from (c ∷ calls) {events = events} h r = rw (← is_granted-allow c h.0 r) (
      ap (◌∷◌ (is_granted (allow c.key c.limit window_seconds c.now events).0))
        (answers-eq-spec_answers_from calls h.1 (allow-Represents c h.0 r)))

pub empty-Represents : (window : ℕ) → Represents window 0 [] []
unfolding lookup
empty-Represents window = record {
  distinct = tt;
  ordered = λ k. tt;
  past = λ k. tt;
  counts = λ k time h. refl;
}

-- With one window for all keys and a clock that does not run backwards, the calls from an empty
-- limiter get exactly the promised answers: a call is granted if and only if its key has fewer than
-- `limit` grants in the window that ends at the call. Pruning, the eviction of expired buckets at
-- `max_tracked_keys` keys and the calls of other keys change no answer.
pub answers-eq-spec_answers :
    (window_seconds : ℕ) (calls : List Call)
    → IsTimed 0 calls
    → answers window_seconds [] calls ≡ spec_answers window_seconds [] calls
answers-eq-spec_answers window_seconds calls h =
    answers-eq-spec_answers_from window_seconds calls h (empty-Represents (window_seconds * ticks))

-- For a limiter that stands for a log, all of whose calls had this one window, and a call that is not
-- earlier than the last one: the call raises `IndexError` exactly if its limit is 0 and its window
-- holds no grant of its key.
pub allow-index_error :
    (window_seconds last : ℕ) (events : Limiter) (log : Log) (c : Call)
    → last ≤ c.now
    → Represents (window_seconds * ticks) last events log
    → ((allow c.key c.limit window_seconds c.now events).0 ≡ index_error)
      ↔ ((c.limit ≡ 0) × (live (window_seconds * ticks) c.now (times c.key log) ≡ 0))
unfolding allow
allow-index_error window_seconds last events log c h r =
    let w = window_seconds * ticks in
    let room = make_room-Represents w c.now h r in
    let b = prune w c.now (bucket_of c.key (make_room w c.now events)) in
    let counted = length-prune w c.now _ (room.ordered c.key) in
    (
      λ e. ground (
        arith,
        counted,
        refuse-index_error w c.now b,
        live-prune w c.now c.now (bucket_of c.key (make_room w c.now events)),
        room.counts c.key c.now,
      ),
      λ e. ground (
        arith,
        counted,
        refuse-index_error w c.now b,
        live-prune w c.now c.now (bucket_of c.key (make_room w c.now events)),
        room.counts c.key c.now,
      ),
    )
