-- ===== src/Events/Bounds.antt =====
-- What the tables of events hold, whatever the clients send.
use parcel_explorer.Prelude.{
  CharTests, lstrip, rstrip, strip, ℕ, ◌≤◌, ◌<◌, ◌≡◌, refl, inl, inr, String, Text, codes, false,
  Option, none, some, List, [], ◌∷◌, ◌++◌, arith, length, length-take-le, take, All, All-append,
  All-take, Bool-cases, if◌then◌else◌,
}
use parcel_explorer.Events.Commands.{
  Payload, MapEventCommand, search_command, land_click_command, unknown_command,
  build_map_event_command,
}
use parcel_explorer.Events.Normalize.{
  Values, Floats, Outcome, returned, raised, crashed, non_empty, normalize_anon_id,
  normalize_land_address, without_digits, term_text, normalize_search_term, normalize_raw_text,
  serialize_raw_payload, parse_min_area,
}
use parcel_explorer.Events.Store.{
  MapEvent, RawQuery, EventLogs, insert_map_event, insert_raw_query_log,
}
use parcel_explorer.Events.Record.{
  search_event, click_event, persist_search_map_event, persist_land_click_map_event, record_search,
  record_click, record_map_event, receive_map_event,
}

-- at most `n` characters, if there is a text
abbrev pub IsWithin : ℕ → Option Text → Type 0
IsWithin n none = Unit
IsWithin n (some text) = length text ≤ n

-- at least one and at most `n`, if there is a text
abbrev pub IsFilledWithin : ℕ → Option Text → Type 0
IsFilledWithin n none = Unit
IsFilledWithin n (some text) = (0 < length text) × (length text ≤ n)

abbrev pub HasNoDigit : CharTests → Option Text → Type 0
HasNoDigit chars none = Unit
HasNoDigit chars (some text) = All (λ c. chars.is_digit c ≡ false) text

pub record IsBoundedEvent {F : Type 0} (chars : CharTests) (e : MapEvent F) : Type 0 where
  pub anon_id : IsFilledWithin 128 e.anon_id
  pub land_address : IsFilledWithin 500 e.land_address
  pub region_name : IsFilledWithin 200 e.region_name
  pub region_digits : HasNoDigit chars e.region_name

pub record IsBoundedQuery (q : RawQuery) : Type 0 where
  pub anon_id : IsFilledWithin 128 q.anon_id
  pub raw_region_query : IsWithin 1000 q.raw_region_query
  pub raw_min_area_input : IsWithin 1000 q.raw_min_area_input
  pub raw_max_area_input : IsWithin 1000 q.raw_max_area_input
  pub raw_rent_only_input : IsWithin 32 q.raw_rent_only_input
  pub raw_land_id_input : IsWithin 64 q.raw_land_id_input
  pub raw_land_address_input : IsWithin 1000 q.raw_land_address_input
  pub raw_click_source_input : IsWithin 32 q.raw_click_source_input
  pub raw_payload_json : length q.raw_payload_json ≤ 4000

pub record AreBounded {F : Type 0} (chars : CharTests) (db : EventLogs F) : Type 0 where
  pub events : All (IsBoundedEvent chars) db.map_event_log
  pub queries : All IsBoundedQuery db.raw_query_log

module _ {V F : Type 0} (values : Values V F) where
  anon_id-IsFilledWithin : (raw : Option V) → IsFilledWithin 128 (normalize_anon_id values raw)
  unfolding normalize_anon_id
  anon_id-IsFilledWithin none = tt
  anon_id-IsFilledWithin (some raw) = go (strip values.chars (values.str raw))
    where
      go :
          (text : Text)
          → IsFilledWithin 128 (elim text [ [] ↦ none | c ∷ more ↦ some (take 128 (c ∷ more)) ])
      go [] = tt
      go (c ∷ more) = (omega arith, length-take-le 128 (c ∷ more))

  raw_text-IsWithin : (n : ℕ) (raw : Option V) → IsWithin n (normalize_raw_text values n raw)
  unfolding normalize_raw_text
  raw_text-IsWithin n none = tt
  raw_text-IsWithin n (some raw) = length-take-le n (values.str raw)

  payload-within :
      (t : String) (payload : List (String × Option V))
      → length (serialize_raw_payload values t payload) ≤ 4000
  unfolding serialize_raw_payload
  payload-within t payload = go (values.dumps t payload)
    where
      go :
          (dumped : Option Text)
          → length (elim dumped [ none ↦ codes "{}" | some text ↦ take 4000 text ]) ≤ 4000
      go none = omega arith
      go (some text) = length-take-le 4000 text

  land_address-within : (raw : Option V) → length (normalize_land_address values raw) ≤ 500
  unfolding normalize_land_address
  land_address-within none = omega arith
  land_address-within (some raw) = length-take-le 500 (strip values.chars (values.str raw))

  term-within : (raw : Option V) → length (normalize_search_term values raw) ≤ 200
  unfolding normalize_search_term
  term-within raw = go (term_text values raw)
    where
      go :
          (text : Text)
          → length (elim text [
            | [] ↦ []
            | c ∷ more ↦ take 200 (strip values.chars (without_digits values (c ∷ more)))
          ])
            ≤ 200
      go [] = omega arith
      go (c ∷ more) = length-take-le 200 (strip values.chars (without_digits values (c ∷ more)))

module _ (P : ℕ → Type 0) (chars : CharTests) where
  All-lstrip : (text : Text) → All P text → All P (lstrip chars text)
  All-lstrip [] h = tt
  All-lstrip (c ∷ text) h = elim (Bool-cases (chars.is_space c)) [
    | inl e ↦ rw e (All-lstrip text h.1)
    | inr e ↦ rw e h
  ]

  All-rstrip : (text : Text) → All P text → All P (rstrip chars text)
  All-rstrip [] h = tt
  All-rstrip (c ∷ text) h = go (rstrip chars text) (All-rstrip text h.1)
    where
      go :
          (rest : Text)
          → All P rest
          → All P
              (elim rest [ [] ↦ if chars.is_space c then [] else c ∷ [] | d ∷ more ↦ c ∷ d ∷ more ])
      go [] k = elim (Bool-cases (chars.is_space c)) [ inl e ↦ rw e tt | inr e ↦ rw e (h.0, tt) ]
      go (d ∷ more) k = (h.0, k)

  All-strip : (text : Text) → All P text → All P (strip chars text)
  unfolding strip
  All-strip text h = All-rstrip (lstrip chars text) (All-lstrip text h)

module _ {V F : Type 0} (values : Values V F) where
  digits_gone :
      (text : Text) → All (λ c. values.chars.is_digit c ≡ false) (without_digits values text)
  digits_gone [] = tt
  digits_gone (c ∷ text) = elim (Bool-cases (values.chars.is_digit c)) [
    | inl e ↦ rw e (digits_gone text)
    | inr e ↦ rw e (e, digits_gone text)
  ]

  term_digits :
      (raw : Option V)
      → All (λ c. values.chars.is_digit c ≡ false) (normalize_search_term values raw)
  unfolding normalize_search_term
  term_digits raw = go (term_text values raw)
    where
      go :
          (text : Text)
          → All
              (λ c. values.chars.is_digit c ≡ false)
              (elim text [
                | [] ↦ []
                | c ∷ more ↦ take 200 (strip values.chars (without_digits values (c ∷ more)))
              ])
      go [] = tt
      go (c ∷ more) = All-take _ 200 _ (
          All-strip (λ d. values.chars.is_digit d ≡ false) values.chars
            (without_digits values (c ∷ more)) (digits_gone (c ∷ more)))

filled-non_empty : (n : ℕ) (text : Text) → length text ≤ n → IsFilledWithin n (non_empty text)
filled-non_empty n [] h = tt
filled-non_empty n (c ∷ text) h = (omega arith, h)

no_digit-non_empty :
    (chars : CharTests) (text : Text)
    → All (λ c. chars.is_digit c ≡ false) text
    → HasNoDigit chars (non_empty text)
no_digit-non_empty chars [] h = tt
no_digit-non_empty chars (c ∷ text) h = h

-- one row more in each table
add-AreBounded :
    {F : Type 0} (chars : CharTests) (event : MapEvent F) (query : RawQuery) (db : EventLogs F)
    → IsBoundedEvent chars event
    → IsBoundedQuery query
    → AreBounded chars db
    → (All (IsBoundedEvent chars) (db.map_event_log ++ event ∷ []))
      × (All IsBoundedQuery (db.raw_query_log ++ query ∷ []))
add-AreBounded chars event query db e q b = (
  All-append (IsBoundedEvent chars) db.map_event_log (event ∷ []) b.events (e, tt),
  All-append IsBoundedQuery db.raw_query_log (query ∷ []) b.queries (q, tt),
)

module _ {V F : Type 0} (values : Values V F) (floats : Floats F) (now : String) where
  search-AreBounded :
      (anon_id min_area term raw_term raw_min raw_max raw_rent : Option V) (value : F)
      (db : EventLogs F)
      → AreBounded values.chars db
      → AreBounded values.chars (
          persist_search_map_event now
            (search_event values floats anon_id min_area term raw_term raw_min raw_max raw_rent
              value)
            db)
  unfolding persist_search_map_event insert_map_event insert_raw_query_log
  search-AreBounded anon_id min_area term raw_term raw_min raw_max raw_rent value db b =
      let (events, queries) =
        add-AreBounded values.chars _ _ db
          (record {
            anon_id = anon_id-IsFilledWithin values anon_id;
            land_address = tt;
            region_name =
                filled-non_empty 200 (normalize_search_term values term) (term-within values term);
            region_digits =
                no_digit-non_empty values.chars (normalize_search_term values term)
                  (term_digits values term);
          })
          (record {
            anon_id = anon_id-IsFilledWithin values anon_id;
            raw_region_query = raw_text-IsWithin values 1000 _;
            raw_min_area_input = raw_text-IsWithin values 1000 _;
            raw_max_area_input = raw_text-IsWithin values 1000 raw_max;
            raw_rent_only_input = raw_text-IsWithin values 32 raw_rent;
            raw_land_id_input = tt;
            raw_land_address_input = tt;
            raw_click_source_input = tt;
            raw_payload_json = payload-within values "search" _;
          })
          b in
      record { events = events; queries = queries }

  click-AreBounded :
      (anon_id land_address land_id click_source : Option V) (db : EventLogs F)
      → 0 < length (normalize_land_address values land_address)
      → AreBounded values.chars db
      → AreBounded values.chars (
          persist_land_click_map_event now
            (click_event values floats anon_id land_address land_id click_source)
            db)
  unfolding persist_land_click_map_event insert_map_event insert_raw_query_log
  click-AreBounded anon_id land_address land_id click_source db filled b =
      let (events, queries) =
        add-AreBounded values.chars _ _ db
          (record {
            anon_id = anon_id-IsFilledWithin values anon_id;
            land_address = (filled, land_address-within values land_address);
            region_name = tt;
            region_digits = tt;
          })
          (record {
            anon_id = anon_id-IsFilledWithin values anon_id;
            raw_region_query = tt;
            raw_min_area_input = tt;
            raw_max_area_input = tt;
            raw_rent_only_input = tt;
            raw_land_id_input = raw_text-IsWithin values 64 land_id;
            raw_land_address_input = raw_text-IsWithin values 1000 land_address;
            raw_click_source_input = raw_text-IsWithin values 32 click_source;
            raw_payload_json = payload-within values "land_click" _;
          })
          b in
      record { events = events; queries = queries }

  record_map_event-AreBounded :
      (command : MapEventCommand V) (db : EventLogs F)
      → AreBounded values.chars db
      → AreBounded values.chars (record_map_event values floats now command db).1
  unfolding record_map_event
  record_map_event-AreBounded (unknown_command event_type anon_id) db b = b
  record_map_event-AreBounded
        (search_command anon_id min_area term raw_term raw_min raw_max raw_rent) db b =
      go (parse_min_area values floats min_area)
    where
      go :
          (parsed : Outcome F)
          → AreBounded values.chars
              (record_search values floats now
                (search_event values floats anon_id min_area term raw_term raw_min raw_max raw_rent)
                parsed
                db).1
      go (returned value) =
          search-AreBounded anon_id min_area term raw_term raw_min raw_max raw_rent value db b
      go (raised e) = b
      go crashed = b
  record_map_event-AreBounded (land_click_command anon_id land_address land_id click_source) db b =
      go (normalize_land_address values land_address) refl
    where
      go :
          (address : Text)
          → normalize_land_address values land_address ≡ address
          → AreBounded values.chars
              (record_click values floats now address
                (click_event values floats anon_id land_address land_id click_source)
                db).1
      go [] e = b
      go (c ∷ address) e =
          click-AreBounded anon_id land_address land_id click_source db (rw e (omega arith)) b

  -- From any tables within these bounds, whatever object a client sends and however the call ends, every
  -- row stays within them: an anonymous id has 1 to 128 characters, an address 1 to 500, a region
  -- 1 to 200 and no digit, where they are present, and the raw texts have at most 1000, 64 or 32, and the
  -- raw payload at most 4000.
  pub receive_map_event-AreBounded :
      (payload : Payload V) (db : EventLogs F)
      → AreBounded values.chars db
      → AreBounded values.chars (receive_map_event values floats now payload db).1
  unfolding receive_map_event
  receive_map_event-AreBounded payload db =
      record_map_event-AreBounded (build_map_event_command values.chars values.str payload) db
