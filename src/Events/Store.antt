-- ===== src/Events/Store.antt =====
-- The tables of app/repositories/event_repository.py, with rows in the order of `id`, their inserts and
-- the summary. `now` is what CURRENT_TIMESTAMP reads; a statement does not fail.
use parcel_explorer.Prelude.{
  text_eq, ℕ, ◌+◌, String, Text, Bool, false, ◌||◌, Option, none, some, List, [], ◌∷◌, ◌++◌, count,
  length, str_eq, if◌then◌else◌,
}

pub record MapEvent (F : Type 0) : Type 0 where
  pub id : ℕ
  pub event_type : String
  pub anon_id : Option Text
  pub land_address : Option Text
  pub region_name : Option Text
  pub min_area_value : Option F
  pub min_area_bucket : Option String
  pub region_source : String
  pub created_at : String

pub record RawQuery : Type 0 where
  pub id : ℕ
  pub event_type : String
  pub anon_id : Option Text
  pub raw_region_query : Option Text
  pub raw_min_area_input : Option Text
  pub raw_max_area_input : Option Text
  pub raw_rent_only_input : Option Text
  pub raw_land_id_input : Option Text
  pub raw_land_address_input : Option Text
  pub raw_click_source_input : Option Text
  pub raw_payload_json : Text
  pub created_at : String

-- both tables, and the ids that AUTOINCREMENT gives next
pub record EventLogs (F : Type 0) : Type 0 where
  pub map_event_log : List (MapEvent F)
  pub raw_query_log : List RawQuery
  pub next_event_id : ℕ
  pub next_raw_id : ℕ

abbrev pub is_among : Text → List Text → Bool
is_among text [] = false
is_among text (t ∷ texts) = text_eq t text || is_among text texts

-- the texts of the list, each once
abbrev pub distinct : List Text → List Text
distinct [] = []
distinct (text ∷ texts) =
    let rest = distinct texts in if is_among text rest then rest else text ∷ rest

module _ {F : Type 0} where
  -- the row comes with its columns; the table gives the id
  unfoldable pub insert_map_event : (ℕ → MapEvent F) → EventLogs F → EventLogs F
  insert_map_event row db = record db {
    map_event_log = db.map_event_log ++ row db.next_event_id ∷ [];
    next_event_id = db.next_event_id + 1;
  }

  unfoldable pub insert_raw_query_log : (ℕ → RawQuery) → EventLogs F → EventLogs F
  insert_raw_query_log row db = record db {
    raw_query_log = db.raw_query_log ++ row db.next_raw_id ∷ [];
    next_raw_id = db.next_raw_id + 1;
  }

  abbrev pub is_of_type : String → MapEvent F → Bool
  is_of_type event_type e = str_eq e.event_type event_type

  -- CASE WHEN anon_id IS NOT NULL AND anon_id != ''
  abbrev pub anon_ids : List (MapEvent F) → List Text
  anon_ids [] = []
  anon_ids (e ∷ log) = elim e.anon_id [
    | none ↦ anon_ids log
    | some [] ↦ anon_ids log
    | some (c ∷ text) ↦ (c ∷ text) ∷ anon_ids log
  ]

-- the three sums, with `or 0` for an empty table
pub record Summary : Type 0 where
  pub search_count : ℕ
  pub click_count : ℕ
  pub unique_session_count : ℕ

unfoldable pub fetch_event_summary : {F : Type 0} → EventLogs F → Summary
fetch_event_summary db = record {
  search_count = count (is_of_type "search") db.map_event_log;
  click_count = count (is_of_type "land_click") db.map_event_log;
  unique_session_count = length (distinct (anon_ids db.map_event_log));
}
