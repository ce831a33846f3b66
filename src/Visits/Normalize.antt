-- ===== src/Visits/Normalize.antt =====
-- The normalisers of app/services/web_stats_normalizers.py. `V` stands for the values of a JSON object. A time is a
-- number of ticks since the first time of `datetime`, a million to a second.
use parcel_explorer.Prelude.{
  ℕ, ◌+◌, ◌-◌, ◌*◌, ◌/◌, Text, codes, String, Bool, true, false, not, ◌||◌, ltb, Option, none, some,
  List, [], ◌∷◌, ◌++◌, ℤ, pos, negsuc, CharTests, strip, take, length, starts_with, text_eq,
  if◌then◌else◌,
}
use parcel_explorer.Geo.Service.{validation_error}
use parcel_explorer.Events.Normalize.{Outcome, returned, raised, crashed, non_empty}

-- `int(v)`; `not_integer` where it raises `TypeError` or `ValueError`, `too_large` where it raises `OverflowError`
pub data Integer : Type 0 where
  integer : ℤ → Integer
  not_integer too_large : Integer

-- `datetime.fromtimestamp(float(v), tz=UTC)`: the time; or `float` raises `TypeError` or `ValueError`, or it raises
-- `OverflowError`, or `fromtimestamp` raises one of the errors that are caught
pub data Timestamp : Type 0 where
  moment : ℕ → Timestamp
  not_float float_overflow no_moment : Timestamp

-- the parts of `urlparse` that are used; `hostname` is empty where it is `None`
pub record Url : Type 0 where
  pub scheme : Text
  pub netloc : Text
  pub path : Text
  pub hostname : Text

-- What Python does with a JSON value and with a text: `str(v)`, `v == ""`, `not v`, `int(v)`, `lower`, `urlparse` with
-- `none` where it raises `ValueError`, `datetime.fromtimestamp(float(v))`, and `strftime`, whose format has no fractions,
-- of a number of whole seconds.
pub record WebValues (V : Type 0) : Type 0 where
  pub chars : CharTests
  pub str : V → Text
  pub is_empty_text : V → Bool
  pub is_falsy : V → Bool
  pub int : V → Integer
  pub lower : Text → Text
  pub urlparse : Text → Option Url
  pub fromtimestamp : V → Timestamp
  pub strftime : ℕ → Text

infixl 5 ◌>>=◌
abbrev pub ◌>>=◌ : {A B : Type 0} → Outcome A → (A → Outcome B) → Outcome B
returned a >>= k = k a
raised error >>= k = raised error
crashed >>= k = crashed

abbrev pub is_one_of : Text → List Text → Bool
is_one_of text [] = false
is_one_of text (other ∷ texts) = text_eq text other || is_one_of text texts

abbrev pub web_event_types : List Text
web_event_types = codes "visit_start" ∷ codes "heartbeat" ∷ codes "visit_end" ∷ []

-- five minutes, and seven days
abbrev pub ahead : ℕ
ahead = 300 * 1000000

abbrev pub week : ℕ
week = 604800 * 1000000

-- not later than five minutes ahead, where it is `now`, and not earlier than a week ago
abbrev pub within_week : ℕ → ℕ → ℕ
within_week now event =
    let event' = if ltb (now + ahead) event then now else event in
    if ltb event' (now - week) then now - week else event'

module _ {V : Type 0} (values : WebValues V) where
  abbrev pub truthy_text : V → Text
  truthy_text v = if values.is_falsy v then [] else values.str v

  -- str(raw or "").strip()
  abbrev pub stripped_text : Option V → Text
  stripped_text none = strip values.chars []
  stripped_text (some v) = strip values.chars (truthy_text v)

  unfoldable pub normalize_event_type : Option V → Outcome Text
  normalize_event_type raw =
      let event_type = stripped_text raw in
      if is_one_of event_type web_event_types
      then returned event_type
      else raised (validation_error 400 "Unsupported eventType.")

  abbrev pub token : String → Text → Outcome Text
  token message [] = raised (validation_error 400 message)
  token message (c ∷ value) = returned (take 128 (c ∷ value))

  -- the message names the field
  unfoldable pub normalize_required_token : Option V → String → Outcome Text
  normalize_required_token raw message = token message (stripped_text raw)

  abbrev pub shortened : ℕ → Text → Option Text
  shortened max_length [] = none
  shortened max_length (c ∷ value) = some (take max_length (c ∷ value))

  unfoldable pub normalize_optional_string : Option V → ℕ → Option Text
  normalize_optional_string none max_length = none
  normalize_optional_string (some v) max_length =
      shortened max_length (strip values.chars (values.str v))

  -- a number in the range, or nothing
  abbrev pub ranged : ℕ → Integer → Outcome (Option ℕ)
  ranged max_value not_integer =
      raised (validation_error 400 "numeric client context fields must be integer.")
  ranged max_value too_large = crashed
  ranged max_value (integer (negsuc n)) = returned none
  ranged max_value (integer (pos n)) = returned (if ltb max_value n then none else some n)

  -- with the `min_value` 0 of every call
  unfoldable pub normalize_optional_int : Option V → ℕ → Outcome (Option ℕ)
  normalize_optional_int none max_value = returned none
  normalize_optional_int (some v) max_value =
      if values.is_empty_text v then returned none else ranged max_value (values.int v)

  abbrev pub or_root : Text → Text
  or_root [] = codes "/"
  or_root (c ∷ value) = c ∷ value

  unfoldable pub normalize_page_path : Option V → List Text → Outcome Text
  normalize_page_path raw allowed_paths =
      let value = or_root (stripped_text raw) in
      if not (starts_with (codes "/") value)
      then raised (validation_error 400 "pagePath must start with '/'.")
      else if ltb 256 (length value)
      then raised (validation_error 400 "pagePath is too long.")
      else if not (is_one_of value allowed_paths)
      then raised (validation_error 400 "Unsupported pagePath.")
      else returned value

  abbrev pub query_of : ℕ → Text → Option Text
  query_of max_length [] = none
  query_of max_length (c ∷ value) =
      if starts_with (codes "?") (c ∷ value)
      then some (take max_length value)
      else some (take max_length (c ∷ value))

  unfoldable pub normalize_query_string : Option V → ℕ → Option Text
  normalize_query_string none max_length = none
  normalize_query_string (some v) max_length =
      query_of max_length (strip values.chars (values.str v))

  abbrev pub is_empty : Text → Bool
  is_empty [] = true
  is_empty (c ∷ text) = false

  abbrev pub referrer_of : Option Url → Option Text
  referrer_of none = none
  referrer_of (some url) =
      if not (is_one_of url.scheme (codes "http" ∷ codes "https" ∷ [])) || is_empty url.netloc
      then none
      else some (take 1024 (url.scheme ++ (codes "://" ++ (url.netloc ++ or_root url.path))))

  abbrev pub referrer_from : Option Text → Option Text
  referrer_from none = none
  referrer_from (some text) = referrer_of (values.urlparse text)

  unfoldable pub normalize_referrer_url : Option V → Option Text
  normalize_referrer_url raw = referrer_from (normalize_optional_string raw 2048)

  abbrev pub host_of_url : Option Url → Option Text
  host_of_url none = none
  host_of_url (some url) = non_empty (values.lower (strip values.chars url.hostname))

  abbrev pub host_from : Option Text → Option Text
  host_from none = none
  host_from (some []) = none
  host_from (some (c ∷ text)) = host_of_url (values.urlparse (c ∷ text))

  abbrev pub domain_or : Option Text → Option Text → Option Text
  domain_or (some (c ∷ domain)) referrer_url = some (values.lower (c ∷ domain))
  domain_or (some []) referrer_url = host_from referrer_url
  domain_or none referrer_url = host_from referrer_url

  unfoldable pub normalize_referrer_domain : Option V → Option Text → Option Text
  normalize_referrer_domain raw_domain referrer_url =
      domain_or (normalize_optional_string raw_domain 255) referrer_url

  -- time.strftime("%Y-%m-%d %H:%M:%S")
  abbrev pub written : ℕ → Text
  written time = values.strftime (time / 1000000)

  abbrev pub client_time : ℕ → Timestamp → Outcome Text
  client_time now not_float =
      raised (validation_error 400 "clientTs must be unix timestamp seconds.")
  client_time now float_overflow = crashed
  client_time now no_moment =
      raised (validation_error 400 "clientTs must be unix timestamp seconds.")
  client_time now (moment event) = returned (written (within_week now event))

  unfoldable pub parse_client_ts : ℕ → Option V → Outcome Text
  parse_client_ts now none = returned (written now)
  parse_client_ts now (some v) =
      if values.is_empty_text v
      then returned (written now)
      else client_time now (values.fromtimestamp v)
