-- ===== src/Events/Routes.antt =====
-- The limits on public events in app/routers/map_router.py: `_allow_rate_limited_event`,
-- `_handle_rate_limited_event` and the route `/events`. The two times of a request are what the limiter's
-- calls read.
use Prim.Native.String
use parcel_explorer.Prelude.{ℕ, String, Option, none, some}
use parcel_explorer.RateLimit.{Limiter, Outcome, granted, denied, index_error, allow}
use parcel_explorer.Geo.Service.{ServiceError}
use parcel_explorer.Events.Commands.{Payload}
use parcel_explorer.Events.Normalize.{Values, Floats, returned, raised, crashed}
use parcel_explorer.Events.Normalize
use parcel_explorer.Events.Store.{EventLogs}
use parcel_explorer.Events.Record.{receive_map_event}

abbrev pub event_limit_per_minute : ℕ
event_limit_per_minute = 60

abbrev pub event_global_limit_per_minute : ℕ
event_global_limit_per_minute = 1200

abbrev pub rate_limit_window_seconds : ℕ
rate_limit_window_seconds = 60

pub record EventRequest : Type 0 where
  pub client : Option String
  pub first_time : ℕ
  pub second_time : ℕ
  pub recorded_at : String

abbrev pub client_ip : EventRequest → String
client_ip r = elim r.client [ none ↦ "unknown" | some host ↦ host ]

-- f"{prefix}:{name}"
abbrev pub key_of : String → String → String
key_of prefix name = String.◌++◌ prefix (String.◌++◌ ":" name)

-- the second call of the loop follows only if the first one is granted
abbrev pub then_global : String → EventRequest → Outcome × Limiter → Outcome × Limiter
then_global prefix r (granted, limiter) =
    allow (key_of prefix "global") event_global_limit_per_minute rate_limit_window_seconds
      r.second_time limiter
then_global prefix r (denied retry_after, limiter) = (denied retry_after, limiter)
then_global prefix r (index_error, limiter) = (index_error, limiter)

unfoldable pub allow_rate_limited_event : String → ℕ → EventRequest → Limiter → Outcome × Limiter
allow_rate_limited_event prefix limit r limiter =
    then_global prefix r
      (allow (key_of prefix (client_ip r)) limit rate_limit_window_seconds r.first_time limiter)

-- `too_many` is the answer 429, `service_error` one with the error's status, `server_error` an exception.
pub data EventResponse : Type 0 where
  success : EventResponse
  too_many : ℕ → EventResponse
  service_error : ServiceError → EventResponse
  server_error : EventResponse

abbrev pub respond : Normalize.Outcome (Unit {0}) → EventResponse
respond (returned _) = success
respond (raised e) = service_error e
respond crashed = server_error

module _ {V F : Type 0} (values : Values V F) (floats : Floats F) where
  abbrev pub handle_allowed :
      EventRequest
      → Payload V
      → Outcome × Limiter
      → EventLogs F
      → EventResponse × Limiter × EventLogs F
  handle_allowed r payload (denied retry_after, limiter) db = (too_many retry_after, limiter, db)
  handle_allowed r payload (index_error, limiter) db = (server_error, limiter, db)
  handle_allowed r payload (granted, limiter) db =
      let (answer, db') = receive_map_event values floats r.recorded_at payload db in
      (respond answer, limiter, db')

  unfoldable pub post_map_event :
      EventRequest → Payload V → Limiter → EventLogs F → EventResponse × Limiter × EventLogs F
  post_map_event r payload limiter db =
      handle_allowed r payload (allow_rate_limited_event "events" event_limit_per_minute r limiter)
        db
