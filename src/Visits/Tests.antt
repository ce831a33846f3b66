-- ===== src/Visits/Tests.antt =====
-- A run of the recording of a visit, and its theorems at concrete events.
use parcel_explorer.Prelude.{
  ℕ, ◌+◌, ◌-◌, ◌*◌, ◌≡◌, ◌≢◌, ◌⊎◌, refl, Text, codes, decimal, String, Bool, true, false, not, ◌&&◌,
  ◌||◌, ◌==◌, ltb, leb, Option, none, some, List, [], ◌∷◌, pos, CharTests, TextDict, find, map,
  text_eq, if◌then◌else◌,
}
use parcel_explorer.Events.Normalize.{returned, crashed}
use parcel_explorer.Visits.Normalize.{
  WebValues, Integer, integer, not_integer, Timestamp, moment, not_float, float_overflow,
  parse_client_ts,
}
use parcel_explorer.Visits.Classify.{classify_os_family}
use parcel_explorer.Visits.Record.{
  WebVisitEventCommand, NormalizedWebVisitEvent, build_web_visit_event_command, VisitTable,
  record_web_visit_event,
}
use parcel_explorer.Visits.Bounds.{IsAppended, IsBoundedVisit, record_web_visit_event-IsBounded}
use parcel_explorer.Visits.Times.{IsRecent, parse_client_ts-IsRecent}

abbrev digits : ℕ → Text → Option ℕ
digits n [] = some n
digits n (c ∷ text) =
    let rest = digits (n * 10 + (c - 48)) text in if leb 48 c && leb c 57 then rest else none

abbrev integer_of : Option ℕ → Integer
integer_of none = not_integer
integer_of (some n) = integer (pos n)

abbrev no_text : Text → Bool
no_text [] = true
no_text (c ∷ text) = false

abbrev lower : Text → Text
lower = map (λ c. if leb 65 c && leb c 90 then c + 32 else c)

abbrev moment_of : Option ℕ → Timestamp
moment_of none = not_float
moment_of (some n) = moment n

-- the infinity sign stands for a number that no float can hold
abbrev timestamp_of : Text → Timestamp
timestamp_of text = if text_eq text (codes "∞") then float_overflow else moment_of (digits 0 text)

abbrev now : ℕ
now = 900000000000

-- the values of the object are texts
abbrev values : WebValues Text
values = record {
  chars = record { is_space = λ c. c == 32; is_digit = λ c. false };
  str = λ text. text;
  is_empty_text = no_text;
  is_falsy = no_text;
  int = λ text. integer_of (digits 0 text);
  lower = lower;
  urlparse = λ text. none;
  fromtimestamp = timestamp_of;
  strftime = λ n. codes (decimal n);
}

abbrev payload : TextDict Text
payload =
    (codes "eventType", codes "visit_start")
    ∷ (codes "anonId", codes "a1")
    ∷ (codes "sessionId", codes " s1 ")
    ∷ (codes "pagePath", codes "/")
    ∷ (codes "screenWidth", codes "90000")
    ∷ []

abbrev iphone : Text
iphone = codes "Mozilla/5.0 (iPhone; CPU iPhone OS 17_0 like Mac OS X)"

abbrev command : WebVisitEventCommand Text
command =
    build_web_visit_event_command (λ name. find (codes name) payload)
      record { user_agent = some iphone; allowed_web_track_paths = codes "/" ∷ [] }

abbrev table : VisitTable
table = record { rows = []; next_id = 1 }

-- the agent of a telephone with iOS is taken for one with macOS
iphone_os : classify_os_family lower iphone ≡ "macos"
unfolding classify_os_family parcel_explorer.Prelude.starts_with
iphone_os = refl

record_web_visit_event-IsBounded_example :
    ((event : NormalizedWebVisitEvent) × (record_web_visit_event values now command table).0
        ≡ returned event
      × IsAppended event table (record_web_visit_event values now command table).1
      × IsBoundedVisit values now command event)
    ⊎ (((event : NormalizedWebVisitEvent)
          → (record_web_visit_event values now command table).0 ≢ returned event)
        × (record_web_visit_event values now command table).1 ≡ table)
record_web_visit_event-IsBounded_example = record_web_visit_event-IsBounded values now command table

-- half a second ahead of the server, which the stored text drops
parse_client_ts-IsRecent_example :
    IsRecent values now (some (codes "900000500000")) (codes "900000")
unfolding parse_client_ts decimal
parse_client_ts-IsRecent_example =
    parse_client_ts-IsRecent values now (some (codes "900000500000")) (codes "900000") refl

-- a number that no float can hold ends in an uncaught exception
parse_client_ts_overflow : parse_client_ts values now (some (codes "∞")) ≡ crashed
unfolding parse_client_ts
parse_client_ts_overflow = refl
