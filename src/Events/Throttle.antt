-- ===== src/Events/Throttle.antt =====
-- How many events of all clients get past the limits.
use parcel_explorer.Prelude.{
  ℕ, ◌*◌, ◌≤◌, ◌≡◌, refl, String, Bool, true, false, List, [], ◌∷◌, arith, str_eq, eq_iff, All,
  if◌then◌else◌,
}
use parcel_explorer.RateLimit.{Limiter, Outcome, granted, denied, index_error, allow, ticks}
use parcel_explorer.RateLimit.Window.{recent}
use parcel_explorer.RateLimit.Spec.{Call, Log, times, noted, is_granted, grants, IsTimed}
use parcel_explorer.RateLimit.Bound.{HasLimit, recent-grants-le}
use parcel_explorer.Events.Routes.{
  EventRequest, client_ip, key_of, event_global_limit_per_minute, rate_limit_window_seconds,
  then_global, allow_rate_limited_event,
}

module _ (prefix : String) (limit : ℕ) where
  -- The requests come one after the other; the times of those let through, the last one first.
  unfoldable pub passed_from : Limiter → List ℕ → List EventRequest → List ℕ
  passed_from limiter passed [] = passed
  passed_from limiter passed (r ∷ requests) =
      let (o, limiter') = allow_rate_limited_event prefix limit r limiter in
      passed_from limiter' (if is_granted o then r.second_time ∷ passed else passed) requests

  -- the clock does not run backwards
  abbrev pub AreTimed : ℕ → List EventRequest → Type 0
  AreTimed last [] = Unit
  AreTimed last (r ∷ requests) =
      (last ≤ r.first_time) × (r.first_time ≤ r.second_time) × AreTimed r.second_time requests

  -- no client's own key is the common one
  abbrev pub AreClients : List EventRequest → Type 0
  AreClients requests =
      All
        (λ (r : EventRequest).
          str_eq (key_of prefix (client_ip r)) (key_of prefix "global") ≡ false)
        requests

  abbrev own_call : EventRequest → Call
  own_call r = record { key = key_of prefix (client_ip r); limit = limit; now = r.first_time }

  abbrev common_call : EventRequest → Call
  common_call r = record {
    key = key_of prefix "global";
    limit = event_global_limit_per_minute;
    now = r.second_time;
  }

  abbrev called : Call → Limiter → Outcome × Limiter
  called c limiter = allow c.key c.limit rate_limit_window_seconds c.now limiter

  -- the calls of the limiter that the requests make
  calls_of : Limiter → List EventRequest → List Call
  calls_of limiter [] = []
  calls_of limiter (r ∷ requests) =
      let rest = calls_of (allow_rate_limited_event prefix limit r limiter).1 requests in
      own_call r
      ∷ (if is_granted (called (own_call r) limiter).0 then common_call r ∷ rest else rest)

  times-noted :
      (r : EventRequest) (b : Bool) (log : Log)
      → str_eq (key_of prefix (client_ip r)) (key_of prefix "global") ≡ false
      → times (key_of prefix "global") (noted b (common_call r) (noted true (own_call r) log)) ≡ (
          let passed = times (key_of prefix "global") log in
          if b then r.second_time ∷ passed else passed)
  times-noted r true log h =
      ground (arith, h, eq_iff (key_of prefix "global") (key_of prefix "global"))
  times-noted r false log h = ground (arith, h)

  AreTimed-earlier :
      (requests : List EventRequest) (last earlier : ℕ)
      → earlier ≤ last
      → AreTimed last requests
      → AreTimed earlier requests
  AreTimed-earlier [] last earlier le h = tt
  AreTimed-earlier (r ∷ requests) last earlier le h = (omega (arith, le, h.0), h.1, h.2)

  calls_of-IsTimed :
      (requests : List EventRequest) (limiter : Limiter) (last : ℕ)
      → AreTimed last requests
      → IsTimed last (calls_of limiter requests)
  unfolding calls_of
  calls_of-IsTimed [] limiter last h = tt
  calls_of-IsTimed (r ∷ requests) limiter last h =
      go (is_granted (called (own_call r) limiter).0)
        (λ from. calls_of-IsTimed requests (allow_rate_limited_event prefix limit r limiter).1 from)
    where
      go :
          (b : Bool)
          → ((from : ℕ)
              → AreTimed from requests
              → IsTimed from
                  (calls_of (allow_rate_limited_event prefix limit r limiter).1 requests))
          → IsTimed last (
              let rest = calls_of (allow_rate_limited_event prefix limit r limiter).1 requests in
              own_call r ∷ (if b then common_call r ∷ rest else rest))
      go true next = (h.0, (h.1, next r.second_time h.2))
      go false next =
          (h.0, next r.first_time (AreTimed-earlier requests r.second_time r.first_time h.1 h.2))

  calls_of-HasLimit :
      (requests : List EventRequest) (limiter : Limiter)
      → AreClients requests
      → HasLimit (key_of prefix "global") event_global_limit_per_minute (calls_of limiter requests)
  unfolding calls_of
  calls_of-HasLimit [] limiter h = tt
  calls_of-HasLimit (r ∷ requests) limiter h =
      go (is_granted (called (own_call r) limiter).0)
        (calls_of-HasLimit requests (allow_rate_limited_event prefix limit r limiter).1 h.1)
    where
      go :
          (b : Bool)
          → HasLimit
              (key_of prefix "global")
              event_global_limit_per_minute
              (calls_of (allow_rate_limited_event prefix limit r limiter).1 requests)
          → HasLimit (key_of prefix "global") event_global_limit_per_minute (
              let rest = calls_of (allow_rate_limited_event prefix limit r limiter).1 requests in
              own_call r ∷ (if b then common_call r ∷ rest else rest))
      go true next = (
        λ e.
            absurd
              (ground (arith, h.0, eq_iff (key_of prefix (client_ip r)) (key_of prefix "global"))),
        (λ e. refl, next),
      )
      go false next = (
        λ e.
            absurd
              (ground (arith, h.0, eq_iff (key_of prefix (client_ip r)) (key_of prefix "global"))),
        next,
      )

  passed-times :
      (requests : List EventRequest) (limiter : Limiter) (log : Log)
      → AreClients requests
      → passed_from limiter (times (key_of prefix "global") log) requests
        ≡ times
            (key_of prefix "global")
            (grants rate_limit_window_seconds limiter log (calls_of limiter requests))
  unfolding passed_from calls_of grants allow_rate_limited_event
  passed-times [] limiter log h = refl
  passed-times (r ∷ requests) limiter log h =
      go (called (own_call r) limiter) (λ l g. passed-times requests l g h.1)
    where
      go :
          (p : Outcome × Limiter)
          → ((l : Limiter) (g : Log)
              → passed_from l (times (key_of prefix "global") g) requests
                ≡ times
                    (key_of prefix "global")
                    (grants rate_limit_window_seconds l g (calls_of l requests)))
          → (let (o, limiter') = then_global prefix r p in
              let passed = times (key_of prefix "global") log in
              passed_from limiter'
                (if is_granted o then r.second_time ∷ passed else passed)
                requests)
            ≡ times (key_of prefix "global") (
                grants rate_limit_window_seconds p.1 (noted (is_granted p.0) (own_call r) log) (
                  let rest = calls_of (then_global prefix r p).1 requests in
                  if is_granted p.0 then common_call r ∷ rest else rest))
      go (granted, l) next =
          let (o, l') = called (common_call r) l in
          rw (← times-noted r (is_granted o) log h.0)
            (next l' (noted (is_granted o) (common_call r) (noted true (own_call r) log)))
      go (denied n, l) next = next l log
      go (index_error, l) next = next l log

  -- Requests that come one after the other, from clients whose own key is not the common one, to a
  -- limiter that was empty and that nothing else calls: in every window of a minute at most 1200 are
  -- let through, whatever limit each client has and however many clients there are.
  pub passed-le-global_limit :
      (requests : List EventRequest) (time : ℕ)
      → AreTimed 0 requests
      → AreClients requests
      → recent (rate_limit_window_seconds * ticks) time (passed_from [] [] requests)
        ≤ event_global_limit_per_minute
  passed-le-global_limit requests time timed clients = rw (passed-times requests [] [] clients) (
      recent-grants-le rate_limit_window_seconds (key_of prefix "global")
        event_global_limit_per_minute (calls_of [] requests) time
        (calls_of-IsTimed requests [] 0 timed) (calls_of-HasLimit requests [] clients))
