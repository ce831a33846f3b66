-- ===== src/Events/Counts.antt =====
-- What one event adds to the tables and to the summary that the administrator reads.
use parcel_explorer.Prelude.{
  ◌+◌, ◌≡◌, refl, ◌∙◌, ◌⊎◌, inl, inr, ◌≢◌, String, Text, [], ◌∷◌, ◌++◌, arith, count-append,
}
use parcel_explorer.Events.Commands.{
  Payload, MapEventCommand, search_command, land_click_command, unknown_command,
  build_map_event_command,
}
use parcel_explorer.Events.Normalize.{
  Values, Floats, Outcome, returned, raised, crashed, normalize_land_address, parse_min_area,
}
use parcel_explorer.Events.Store.{
  MapEvent, RawQuery, EventLogs, is_of_type, fetch_event_summary, insert_map_event,
  insert_raw_query_log,
}
use parcel_explorer.Events.Record.{
  NormalizedSearchMapEvent, NormalizedLandClickMapEvent, search_event, click_event,
  persist_search_map_event, persist_land_click_map_event, record_search, record_click,
  record_map_event, receive_map_event,
}

module _ {F : Type 0} where
  -- one row more in each table, for the same event
  abbrev pub IsRecorded : MapEvent F → RawQuery → EventLogs F → EventLogs F → Type 0
  IsRecorded event query db db' =
      (db'.map_event_log ≡ db.map_event_log ++ event ∷ [])
      × (db'.raw_query_log ≡ db.raw_query_log ++ query ∷ [])
      × (query.event_type ≡ event.event_type)
      × (query.anon_id ≡ event.anon_id)
      × (query.created_at ≡ event.created_at)

  -- the summary counts one search more, or one click more
  abbrev pub IsCountedOnce : EventLogs F → EventLogs F → Type 0
  IsCountedOnce db db' =
      (((fetch_event_summary db').search_count ≡ (fetch_event_summary db).search_count + 1)
        × ((fetch_event_summary db').click_count ≡ (fetch_event_summary db).click_count))
      ⊎ (((fetch_event_summary db').search_count ≡ (fetch_event_summary db).search_count)
          × ((fetch_event_summary db').click_count ≡ (fetch_event_summary db).click_count + 1))

  -- recorded and answered with success, or refused and without a trace
  abbrev pub IsOneOrNone : EventLogs F → Outcome (Unit {0}) × EventLogs F → Type 0
  IsOneOrNone db (answer, db') =
      ((answer ≡ returned tt)
        × ((event : MapEvent F) × (query : RawQuery) × IsRecorded event query db db')
        × IsCountedOnce db db')
      ⊎ ((answer ≢ returned tt) × (db' ≡ db))

module _ {F : Type 0} (now : String) where
  search-IsOneOrNone :
      (event : NormalizedSearchMapEvent F) (db : EventLogs F)
      → IsOneOrNone db (returned tt, persist_search_map_event now event db)
  unfolding persist_search_map_event insert_map_event insert_raw_query_log fetch_event_summary
  search-IsOneOrNone event db = inl (
    refl,
    (_, _, (refl, refl, refl, refl, refl)),
    inl (
      count-append (is_of_type "search") db.map_event_log _,
      count-append (is_of_type "land_click") db.map_event_log _ ∙ omega arith,
    ),
  )

  click-IsOneOrNone :
      (event : NormalizedLandClickMapEvent) (db : EventLogs F)
      → IsOneOrNone db (returned tt, persist_land_click_map_event now event db)
  unfolding persist_land_click_map_event insert_map_event insert_raw_query_log fetch_event_summary
  click-IsOneOrNone event db = inl (
    refl,
    (_, _, (refl, refl, refl, refl, refl)),
    inr (
      count-append (is_of_type "search") db.map_event_log _ ∙ omega arith,
      count-append (is_of_type "land_click") db.map_event_log _,
    ),
  )

module _ {V F : Type 0} (values : Values V F) (floats : Floats F) (now : String) where
  record_search-IsOneOrNone :
      (event : F → NormalizedSearchMapEvent F) (parsed : Outcome F) (db : EventLogs F)
      → IsOneOrNone db (record_search values floats now event parsed db)
  record_search-IsOneOrNone event (returned value) db = search-IsOneOrNone now (event value) db
  record_search-IsOneOrNone event (raised e) db = inr (λ h. cc, refl)
  record_search-IsOneOrNone event crashed db = inr (λ h. cc, refl)

  record_click-IsOneOrNone :
      (address : Text) (event : NormalizedLandClickMapEvent) (db : EventLogs F)
      → IsOneOrNone db (record_click values floats now address event db)
  record_click-IsOneOrNone [] event db = inr (λ h. cc, refl)
  record_click-IsOneOrNone (c ∷ address) event db = click-IsOneOrNone now event db

  record_map_event-IsOneOrNone :
      (command : MapEventCommand V) (db : EventLogs F)
      → IsOneOrNone db (record_map_event values floats now command db)
  unfolding record_map_event
  record_map_event-IsOneOrNone
        (search_command anon_id min_area term raw_term raw_min raw_max raw_rent) db =
      record_search-IsOneOrNone
        (search_event values floats anon_id min_area term raw_term raw_min raw_max raw_rent)
        (parse_min_area values floats min_area) db
  record_map_event-IsOneOrNone (land_click_command anon_id land_address land_id click_source) db =
      record_click-IsOneOrNone (normalize_land_address values land_address)
        (click_event values floats anon_id land_address land_id click_source) db
  record_map_event-IsOneOrNone (unknown_command event_type anon_id) db = inr (λ h. cc, refl)

  -- Whatever object a client sends: either the call returns, each of the two tables has exactly one row
  -- more, both of the same type, anonymous id and time, and the summary counts one search more or one
  -- click more; or the call ends in an error, and the tables are as they were.
  pub receive_map_event-IsOneOrNone :
      (payload : Payload V) (db : EventLogs F)
      → IsOneOrNone db (receive_map_event values floats now payload db)
  unfolding receive_map_event
  receive_map_event-IsOneOrNone payload db =
      record_map_event-IsOneOrNone (build_map_event_command values.chars values.str payload) db
