-- ===== src/Export/Query.antt =====
-- app/services/raw_query_export_service.py: the command, its check, the query and the whole export; and
-- `fetch_raw_query_logs` of app/repositories/event_repository.py. Dates of `datetime` are a parameter, and so is what
-- ends the query: its result, the interruption by the timer, or another failure of the database.
use parcel_explorer.Prelude.{
  ℕ, Text, codes, String, Bool, true, false, not, ◌&&◌, ◌||◌, ◌==◌, ltb, leb, str_eq, Option, none,
  some, List, [], ◌∷◌, ℤ, clamp_ℤ, CharTests, strip, keep, take, if◌then◌else◌,
}
use parcel_explorer.Events.Store.{RawQuery}
use parcel_explorer.Export.Csv.{RawQueryCsvExportResult, render_raw_query_csv}

-- `strptime` with "%Y-%m-%d" gives a day, or `none` where it raises `ValueError`; `strftime` gives the text of the
-- start of a day; `next_day` is `none` where adding a day raises `OverflowError`.
pub record Calendar : Type 0 where
  pub strptime : Text → Option ℕ
  pub strftime : ℕ → Text
  pub next_day : ℕ → Option ℕ

pub record RawQueryExportCommand : Type 0 where
  pub event_type : String
  pub date_from : Option Text
  pub date_to : Option Text
  pub limit : ℤ
  pub max_rows : ℤ

pub record ValidatedRawQueryExport : Type 0 where
  pub event_type_filter : Option String
  pub effective_limit : ℕ
  pub created_at_from : Option Text
  pub created_at_to : Option Text

-- a result, a `ServiceError` with its status and message, or another exception
pub data Exported {ℓ} (A : Type ℓ) : Type ℓ where
  exported : A → Exported A
  rejected : ℕ → String → Exported A
  crashed : Exported A

infixl 5 ◌>>=◌
abbrev pub ◌>>=◌ {ℓ κ} : {A : Type ℓ} {B : Type κ} → Exported A → (A → Exported B) → Exported B
exported a >>= k = k a
rejected status message >>= k = rejected status message
crashed >>= k = crashed

-- s < t, of texts
abbrev pub text_ltb : Text → Text → Bool
text_ltb [] [] = false
text_ltb [] (d ∷ t) = true
text_ltb (c ∷ s) [] = false
text_ltb (c ∷ s) (d ∷ t) = ltb c d || (c == d && text_ltb s t)

module _ (chars : CharTests) (calendar : Calendar) where
  abbrev pub day_of : String → Text → Exported ℕ
  day_of message raw = elim (calendar.strptime raw) [
    | none ↦ rejected 400 message
    | some day ↦ exported day
  ]

  -- neither absent nor blank
  abbrev pub given : Option Text → Option Text
  given none = none
  given (some raw) = elim (strip chars raw) [ [] ↦ none | c ∷ text ↦ some raw ]

  abbrev start_of : Option Text → Exported (Option Text)
  start_of none = exported none
  start_of (some raw) =
      day_of "date_from must be YYYY-MM-DD." raw
      >>= (λ day. exported (some (calendar.strftime day)))

  unfoldable pub parse_date_start : Option Text → Exported (Option Text)
  parse_date_start raw = start_of (given raw)

  abbrev pub day_after : ℕ → Exported (Option Text)
  day_after day = elim (calendar.next_day day) [
    | none ↦ crashed
    | some next ↦ exported (some (calendar.strftime next))
  ]

  abbrev end_of : Option Text → Exported (Option Text)
  end_of none = exported none
  end_of (some raw) = day_of "date_to must be YYYY-MM-DD." raw >>= day_after

  unfoldable pub parse_date_end_exclusive : Option Text → Exported (Option Text)
  parse_date_end_exclusive raw = end_of (given raw)

  -- both bounds are given, and the first is not earlier
  abbrev pub is_empty_range : Option Text → Option Text → Bool
  is_empty_range (some from) (some to) = not (text_ltb from to)
  is_empty_range _ _ = false

  unfoldable pub validate_raw_query_export_command :
      RawQueryExportCommand → Exported ValidatedRawQueryExport
  validate_raw_query_export_command command =
      if not (
        str_eq command.event_type "all"
        || str_eq command.event_type "search"
        || str_eq command.event_type "land_click")
      then rejected 400 "event_type must be one of: all, search, land_click."
      else parse_date_start command.date_from >>= (λ from.
        parse_date_end_exclusive command.date_to >>= (λ to.
          if is_empty_range from to
          then rejected 400 "date_from must be earlier than or equal to date_to."
          else exported record {
            event_type_filter =
                if str_eq command.event_type "all" then none else some command.event_type;
            effective_limit = clamp_ℤ 1 command.limit command.max_rows;
            created_at_from = from;
            created_at_to = to;
          }))

-- the conditions of the WHERE clause
abbrev pub is_of_type : Option String → RawQuery → Bool
is_of_type none row = true
is_of_type (some event_type) row = str_eq row.event_type event_type

abbrev pub is_not_before : Option Text → RawQuery → Bool
is_not_before none row = true
is_not_before (some from) row = not (text_ltb (codes row.created_at) from)

abbrev pub is_before : Option Text → RawQuery → Bool
is_before none row = true
is_before (some to) row = text_ltb (codes row.created_at) to

abbrev pub is_selected : ValidatedRawQueryExport → RawQuery → Bool
is_selected v row =
    is_of_type v.event_type_filter row
    && is_not_before v.created_at_from row
    && is_before v.created_at_to row

-- ORDER BY created_at DESC, id DESC: the first row comes before the second
abbrev pub comes_first : RawQuery → RawQuery → Bool
comes_first row other =
    text_ltb (codes other.created_at) (codes row.created_at)
    || (not (text_ltb (codes row.created_at) (codes other.created_at)) && leb other.id row.id)

abbrev pub insert_row : RawQuery → List RawQuery → List RawQuery
insert_row row [] = row ∷ []
insert_row row (other ∷ rows) =
    let rest = insert_row row rows in
    if comes_first row other then row ∷ other ∷ rows else other ∷ rest

unfoldable pub sort_rows : List RawQuery → List RawQuery
sort_rows [] = []
sort_rows (row ∷ rows) = insert_row row (sort_rows rows)

unfoldable pub fetch_raw_query_logs : ValidatedRawQueryExport → List RawQuery → List RawQuery
fetch_raw_query_logs v table = take v.effective_limit (sort_rows (keep (is_selected v) table))

-- how the query ends
pub data Ending : Type 0 where
  finished interrupted operational_error : Ending

unfoldable pub fetch_raw_query_export_rows :
    Ending → ValidatedRawQueryExport → List RawQuery → Exported (List RawQuery)
fetch_raw_query_export_rows finished v table = exported (fetch_raw_query_logs v table)
fetch_raw_query_export_rows interrupted v table = rejected 503 "쿼리 실행 시간이 초과되었습니다. 조건을 좁혀 다시 시도하세요."
fetch_raw_query_export_rows operational_error v table = crashed

module _ (chars : CharTests) (calendar : Calendar) where
  unfoldable pub export_raw_query_csv :
      Ending → RawQueryExportCommand → List RawQuery → Exported RawQueryCsvExportResult
  export_raw_query_csv ending command table =
      validate_raw_query_export_command chars calendar command >>= (λ v.
        fetch_raw_query_export_rows ending v table
        >>= (λ rows. exported (render_raw_query_csv rows v.effective_limit)))
