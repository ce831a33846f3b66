-- ===== src/Events/Record.antt =====
-- `record_map_event` of app/services/map_event_service.py: an event is normalised, and one transaction
-- writes it to both tables.
use parcel_explorer.Prelude.{List, [], ◌∷◌, String, Text, Option, none, some, [], ◌∷◌}
use parcel_explorer.Geo.Service.{validation_error}
use parcel_explorer.Events.Commands.{
  Payload, MapEventCommand, search_command, land_click_command, unknown_command,
  build_map_event_command,
}
use parcel_explorer.Events.Normalize.{
  Values, Floats, Outcome, returned, raised, crashed, non_empty, min_area_bucket_for,
  normalize_anon_id, normalize_land_address, normalize_search_term, normalize_raw_text,
  serialize_raw_payload, parse_min_area,
}
use parcel_explorer.Events.Store.{EventLogs, insert_map_event, insert_raw_query_log}

pub record NormalizedSearchMapEvent (F : Type 0) : Type 0 where
  pub anon_id : Option Text
  pub min_area_value : F
  pub min_area_bucket : String
  pub region_name : Option Text
  pub raw_region_query : Option Text
  pub raw_min_area_input : Option Text
  pub raw_max_area_input : Option Text
  pub raw_rent_only_input : Option Text
  pub raw_payload_json : Text

pub record NormalizedLandClickMapEvent : Type 0 where
  pub anon_id : Option Text
  pub land_address : Text
  pub raw_land_id_input : Option Text
  pub raw_land_address_input : Option Text
  pub raw_click_source_input : Option Text
  pub raw_payload_json : Text

-- first if first is not None else second
abbrev pub or_second : {V : Type 0} → Option V → Option V → Option V
or_second none second = second
or_second (some v) second = some v

-- the entries of the payload after its type
abbrev pub search_payload :
    {V : Type 0}
    (anon_id min_area search_term raw_search_term raw_min_area_input raw_max_area_input
      raw_rent_only : Option V)
    → List (String × Option V)
search_payload anon_id min_area search_term raw_search_term raw_min_area_input raw_max_area_input
      raw_rent_only =
    ("anonId", anon_id)
    ∷ ("minArea", min_area)
    ∷ ("searchTerm", search_term)
    ∷ ("rawSearchTerm", raw_search_term)
    ∷ ("rawMinAreaInput", raw_min_area_input)
    ∷ ("rawMaxAreaInput", raw_max_area_input)
    ∷ ("rawRentOnly", raw_rent_only)
    ∷ []

abbrev pub click_payload :
    {V : Type 0} (anon_id land_address land_id click_source : Option V) → List (String × Option V)
click_payload anon_id land_address land_id click_source =
    ("anonId", anon_id)
    ∷ ("landAddress", land_address)
    ∷ ("landId", land_id)
    ∷ ("clickSource", click_source)
    ∷ []

module _ {V F : Type 0} (values : Values V F) (floats : Floats F) where
  abbrev pub search_event :
      (anon_id min_area search_term raw_search_term raw_min_area_input raw_max_area_input
        raw_rent_only : Option V)
      → F
      → NormalizedSearchMapEvent F
  search_event anon_id min_area search_term raw_search_term raw_min_area_input raw_max_area_input
        raw_rent_only value =
      record {
        anon_id = normalize_anon_id values anon_id;
        min_area_value = value;
        min_area_bucket = min_area_bucket_for floats value;
        region_name = non_empty (normalize_search_term values search_term);
        raw_region_query = normalize_raw_text values 1000 (or_second raw_search_term search_term);
        raw_min_area_input = normalize_raw_text values 1000 (or_second raw_min_area_input min_area);
        raw_max_area_input = normalize_raw_text values 1000 raw_max_area_input;
        raw_rent_only_input = normalize_raw_text values 32 raw_rent_only;
        raw_payload_json = serialize_raw_payload values "search" (
            search_payload anon_id min_area search_term raw_search_term raw_min_area_input
              raw_max_area_input raw_rent_only);
      }

  abbrev pub click_event :
      (anon_id land_address land_id click_source : Option V) → NormalizedLandClickMapEvent
  click_event anon_id land_address land_id click_source = record {
    anon_id = normalize_anon_id values anon_id;
    land_address = normalize_land_address values land_address;
    raw_land_id_input = normalize_raw_text values 64 land_id;
    raw_land_address_input = normalize_raw_text values 1000 land_address;
    raw_click_source_input = normalize_raw_text values 32 click_source;
    raw_payload_json =
        serialize_raw_payload values "land_click"
          (click_payload anon_id land_address land_id click_source);
  }

module _ {F : Type 0} (now : String) where
  unfoldable pub persist_search_map_event : NormalizedSearchMapEvent F → EventLogs F → EventLogs F
  persist_search_map_event event db =
      insert_raw_query_log
        (λ id. record {
          id = id;
          event_type = "search";
          anon_id = event.anon_id;
          raw_region_query = event.raw_region_query;
          raw_min_area_input = event.raw_min_area_input;
          raw_max_area_input = event.raw_max_area_input;
          raw_rent_only_input = event.raw_rent_only_input;
          raw_land_id_input = none;
          raw_land_address_input = none;
          raw_click_source_input = none;
          raw_payload_json = event.raw_payload_json;
          created_at = now;
        })
        (insert_map_event
          (λ id. record {
            id = id;
            event_type = "search";
            anon_id = event.anon_id;
            land_address = none;
            region_name = event.region_name;
            min_area_value = some event.min_area_value;
            min_area_bucket = some event.min_area_bucket;
            region_source = "user_input";
            created_at = now;
          })
          db)

  unfoldable pub persist_land_click_map_event :
      NormalizedLandClickMapEvent → EventLogs F → EventLogs F
  persist_land_click_map_event event db =
      insert_raw_query_log
        (λ id. record {
          id = id;
          event_type = "land_click";
          anon_id = event.anon_id;
          raw_region_query = none;
          raw_min_area_input = none;
          raw_max_area_input = none;
          raw_rent_only_input = none;
          raw_land_id_input = event.raw_land_id_input;
          raw_land_address_input = event.raw_land_address_input;
          raw_click_source_input = event.raw_click_source_input;
          raw_payload_json = event.raw_payload_json;
          created_at = now;
        })
        (insert_map_event
          (λ id. record {
            id = id;
            event_type = "land_click";
            anon_id = event.anon_id;
            land_address = some event.land_address;
            region_name = none;
            min_area_value = none;
            min_area_bucket = none;
            region_source = "derived_address";
            created_at = now;
          })
          db)

module _ {V F : Type 0} (values : Values V F) (floats : Floats F) (now : String) where
  -- what follows `parse_min_area`
  abbrev pub record_search :
      (F → NormalizedSearchMapEvent F) → Outcome F → EventLogs F → Outcome (Unit {0}) × EventLogs F
  record_search event (returned value) db =
      (returned tt, persist_search_map_event now (event value) db)
  record_search event (raised e) db = (raised e, db)
  record_search event crashed db = (crashed, db)

  -- if not land_address
  abbrev pub record_click :
      Text → NormalizedLandClickMapEvent → EventLogs F → Outcome (Unit {0}) × EventLogs F
  record_click [] event db =
      (raised (validation_error 400 "landAddress is required for land_click."), db)
  record_click (c ∷ address) event db = (returned tt, persist_land_click_map_event now event db)

  unfoldable pub record_map_event :
      MapEventCommand V → EventLogs F → Outcome (Unit {0}) × EventLogs F
  record_map_event (search_command anon_id min_area term raw_term raw_min raw_max raw_rent) db =
      record_search
        (search_event values floats anon_id min_area term raw_term raw_min raw_max raw_rent)
        (parse_min_area values floats min_area) db
  record_map_event (land_click_command anon_id land_address land_id click_source) db =
      record_click (normalize_land_address values land_address)
        (click_event values floats anon_id land_address land_id click_source) db
  record_map_event (unknown_command event_type anon_id) db =
      (raised (validation_error 400 "Unsupported eventType."), db)

  -- an event as the route passes it on
  unfoldable pub receive_map_event : Payload V → EventLogs F → Outcome (Unit {0}) × EventLogs F
  receive_map_event payload db =
      record_map_event (build_map_event_command values.chars values.str payload) db
