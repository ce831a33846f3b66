-- ===== src/Events/Tests.antt =====
-- Events as clients send them, and the theorems about them there. Values are texts; a float is a whole
-- number, or `none` for one that is not a number.
use parcel_explorer.Prelude.{
  ◌+◌, ◌≤◌, ◌*◌, insert, CharTests, strip, ℕ, ◌≡◌, refl, String, codes, Bool, false, ◌&&◌, ◌==◌,
  Option, none, some, [], ◌∷◌, arith, ltb, leb, str_eq, lookup, starts_with, if◌then◌else◌,
}
use parcel_explorer.Upload.Rows.{number, invalid}
use parcel_explorer.Geo.Service.{validation_error}
use parcel_explorer.Events.Commands.{Payload, build_map_event_command}
use parcel_explorer.Events.Normalize.{
  Values, Floats, returned, raised, min_area_bucket_for, normalize_anon_id, normalize_land_address,
  normalize_search_term, parse_min_area,
}
use parcel_explorer.Events.Store.{
  EventLogs, fetch_event_summary, insert_map_event, insert_raw_query_log,
}
use parcel_explorer.Events.Record.{persist_search_map_event, record_map_event, receive_map_event}
use parcel_explorer.RateLimit.{ticks, allow, make_room, prune, refuse}
use parcel_explorer.RateLimit.Window.{recent}
use parcel_explorer.Events.Routes.{EventRequest, success, allow_rate_limited_event, post_map_event}
use parcel_explorer.Events.Throttle.{passed_from, passed-le-global_limit}
use parcel_explorer.Events.Bounds.{AreBounded, receive_map_event-AreBounded}
use parcel_explorer.Events.Counts.{IsOneOrNone, receive_map_event-IsOneOrNone}
use parcel_explorer.Events.Buckets.{IsOrdered, IsNan, min_area_bucket_for_lem, parse_min_area-nan}

abbrev chars : CharTests
chars = record { is_space = λ c. c == 32; is_digit = λ c. leb 48 c && leb c 57 }

abbrev values : Values String (Option ℕ)
values = record {
  chars = chars;
  str = codes;
  is_empty_text = λ v. str_eq v "";
  is_falsy = λ v. str_eq v "";
  float = λ v.
      if str_eq v "150" then number (some 150) else if str_eq v "nan" then number none else invalid;
  dumps = λ event_type payload. some (codes event_type);
}

abbrev below : (ℕ → ℕ → Bool) → Option ℕ → Option ℕ → Bool
below test none y = false
below test (some a) none = false
below test (some a) (some b) = test a b

abbrev floats : Floats (Option ℕ)
floats = record { lt = below ltb; le = below leb; of = λ n. some n }

abbrev search : Payload String
search =
    ("eventType", some " search")
    ∷ ("minArea", some "150")
    ∷ ("searchTerm", some " 12 ab 3 ")
    ∷ ("anonId", none)
    ∷ []

abbrev click : Payload String
click = ("eventType", some "land_click") ∷ ("landAddress", some "  ") ∷ []

abbrev empty : EventLogs (Option ℕ)
empty = record { map_event_log = []; raw_query_log = []; next_event_id = 1; next_raw_id = 1 }

empty-AreBounded : AreBounded chars empty
empty-AreBounded = record { events = tt; queries = tt }

-- an address of spaces is refused
click_run :
    receive_map_event values floats "t0" click empty
    ≡ (raised (validation_error 400 "landAddress is required for land_click."), empty)
unfolding receive_map_event build_map_event_command lookup starts_with strip record_map_event
    normalize_land_address
click_run = refl

term_run : normalize_search_term values (some " 12 ab 3 ") ≡ codes "ab"
unfolding normalize_search_term strip
term_run = refl

search_run :
    fetch_event_summary (receive_map_event values floats "t0" search empty).1
    ≡ record { search_count = 1; click_count = 0; unique_session_count = 0 }
unfolding fetch_event_summary receive_map_event build_map_event_command lookup starts_with strip
    record_map_event parse_min_area persist_search_map_event insert_map_event insert_raw_query_log
    normalize_anon_id
search_run = refl

receive_map_event-AreBounded_example :
    AreBounded chars (receive_map_event values floats "t0" search empty).1
receive_map_event-AreBounded_example =
    receive_map_event-AreBounded values floats "t0" search empty empty-AreBounded

receive_map_event-IsOneOrNone_example :
    IsOneOrNone empty (receive_map_event values floats "t0" search empty)
receive_map_event-IsOneOrNone_example =
    receive_map_event-IsOneOrNone values floats "t0" search empty

one_fifty-IsOrdered : IsOrdered floats (some 150)
one_fifty-IsOrdered = record { complement = λ n. ground arith }

min_area_bucket_for_lem_example : min_area_bucket_for floats (some 150) ≡ (
    if floats.lt (some 150) (some 100)
    then "0-99"
    else if floats.lt (some 150) (some 200)
    then "100-199"
    else if floats.lt (some 150) (some 300)
    then "200-299"
    else if floats.lt (some 150) (some 500)
    then "300-499"
    else if floats.lt (some 150) (some 1000)
    then "500-999"
    else "1000+")
min_area_bucket_for_lem_example = min_area_bucket_for_lem floats (some 150) one_fifty-IsOrdered refl

none-IsNan : IsNan floats none
none-IsNan = record { not_above = λ n. refl; not_below = λ n. refl }

parse_min_area-nan_example :
    (parse_min_area values floats (some "nan") ≡ returned none)
    × (min_area_bucket_for floats none ≡ "1000+")
parse_min_area-nan_example = parse_min_area-nan floats values "nan" none none-IsNan refl refl

abbrev request : String → ℕ → EventRequest
request host time = record {
  client = some host;
  first_time = time;
  second_time = time + 1;
  recorded_at = "t0";
}

-- the second event of the client comes too soon for a limit of 1
passed_run :
    passed_from "events" 1 [] []
      (request "10.0.0.7" 5 ∷ request "10.0.0.7" 20 ∷ request "10.0.0.8" 30 ∷ [])
    ≡ 31 ∷ 6 ∷ []
unfolding passed_from allow_rate_limited_event allow make_room prune lookup insert refuse
passed_run = refl

passed-le-global_limit_example :
    recent
      (60 * ticks)
      50
      (passed_from "events" 60 [] [] (request "10.0.0.7" 5 ∷ request "10.0.0.8" 30 ∷ []))
    ≤ 1200
passed-le-global_limit_example =
    passed-le-global_limit "events" 60 (request "10.0.0.7" 5 ∷ request "10.0.0.8" 30 ∷ []) 50
      (omega arith, omega arith, (omega arith, omega arith, tt)) (refl, (refl, tt))

-- a search that the limits let through
post_run : (post_map_event values floats (request "10.0.0.7" 5) search [] empty).0 ≡ success
unfolding post_map_event allow_rate_limited_event allow make_room prune lookup insert
    receive_map_event build_map_event_command starts_with strip record_map_event parse_min_area
post_run = refl
