-- ===== src/Export/Tests.antt =====
-- A run of the export, and its theorems at a concrete command and table.
use parcel_explorer.Prelude.{
  ℕ, ◌+◌, ◌≤◌, ◌≡◌, ◌⊎◌, refl, arith, String, Text, codes, Bool, true, false, ◌||◌, ◌==◌, Option,
  none, some, List, [], ◌∷◌, ◌++◌, map, pos, ℤ, CharTests, TextDict, find,
}
use parcel_explorer.Events.Store.{RawQuery}
use parcel_explorer.Export.Csv.{RawQueryCsvExportResult, column_names, cells, render_raw_query_csv}
use parcel_explorer.Export.Query.{
  Calendar, RawQueryExportCommand, ValidatedRawQueryExport, exported, rejected, finished,
  validate_raw_query_export_command, export_raw_query_csv,
}
use parcel_explorer.Export.Reader.{read_csv}
use parcel_explorer.Export.RoundTrip.{read_csv-render_raw_query_csv}
use parcel_explorer.Export.Outcomes.{IsExport, export_raw_query_csv-IsExport}
use parcel_explorer.Export.Command.{
  IsCalendar, IsDate, IsKnown, IsChecked, validate_raw_query_export_command_iff,
}

abbrev chars : CharTests
chars = record { is_space = λ c. c == 32 || c == 10; is_digit = λ c. false }

-- the first days of May
abbrev may : Calendar
may = record {
  strptime = λ text. find text ((codes "2024-05-01", 1) ∷ (codes "2024-05-02", 2) ∷ []);
  strftime = λ day. codes "2024-05-0" ++ (48 + day) ∷ codes " 00:00:00";
  next_day = λ day. some (day + 1);
}

abbrev searched : ℕ → Text → RawQuery
searched n region = record {
  id = n;
  event_type = "search";
  anon_id = some (codes "a1");
  raw_region_query = some region;
  raw_min_area_input = none;
  raw_max_area_input = none;
  raw_rent_only_input = none;
  raw_land_id_input = none;
  raw_land_address_input = none;
  raw_click_source_input = none;
  raw_payload_json = codes "{}";
  created_at = "2024-05-01 10:00:00";
}

abbrev table : List RawQuery
table =
    searched 1 (codes "=1+1")
    ∷ searched 2 (codes "a, \"b\"")
    ∷ record (searched 3 (codes "late")) { created_at = "2024-05-02 09:00:00" }
    ∷ []

abbrev command : RawQueryExportCommand
command = record {
  event_type = "search";
  date_from = some (codes "2024-05-01");
  date_to = none;
  limit = pos 2;
  max_rows = pos 100;
}

abbrev one_day : RawQueryExportCommand
one_day = record command { date_to = some (codes "2024-05-01") }

-- the newest two of the three rows
abbrev result : RawQueryCsvExportResult
result =
    render_raw_query_csv
      (record (searched 3 (codes "late")) { created_at = "2024-05-02 09:00:00" }
        ∷ searched 2 (codes "a, \"b\"")
        ∷ [])
      2

read_csv-render_raw_query_csv_example :
    read_csv (render_raw_query_csv table 5).csv_text ≡ some (column_names ∷ map cells table)
read_csv-render_raw_query_csv_example = read_csv-render_raw_query_csv table 5

export_raw_query_csv-IsExport_example :
    (v : ValidatedRawQueryExport) × validate_raw_query_export_command chars may command ≡ exported v
    × IsExport v table result
unfolding export_raw_query_csv validate_raw_query_export_command
    parcel_explorer.Export.Query.parse_date_start parcel_explorer.Prelude.strip find
    parcel_explorer.Export.Query.parse_date_end_exclusive
    parcel_explorer.Export.Query.fetch_raw_query_export_rows
    parcel_explorer.Export.Query.fetch_raw_query_logs parcel_explorer.Export.Query.sort_rows
export_raw_query_csv-IsExport_example =
    export_raw_query_csv-IsExport chars may finished command table result refl

may-IsCalendar : IsCalendar may 1 9
may-IsCalendar = record {
  ordered = λ day other after after' before before'. ground arith;
  next = λ day before. refl;
}

one_day-from : IsDate chars may 1 9 one_day.date_from 1
unfolding parcel_explorer.Prelude.strip find
one_day-from = record {
  text = codes "2024-05-01";
  is_given = refl;
  not_blank = λ e. ground (arith, e);
  parsed = refl;
  from_first = omega arith;
  to_last = omega arith;
}

one_day-to : IsDate chars may 1 9 one_day.date_to 1
unfolding parcel_explorer.Prelude.strip find
one_day-to = record {
  text = codes "2024-05-01";
  is_given = refl;
  not_blank = λ e. ground (arith, e);
  parsed = refl;
  from_first = omega arith;
  to_last = omega arith;
}

validate_raw_query_export_command_iff_example :
    (IsKnown one_day.event_type
      × (1 ≤ 1)
      × ((v : ValidatedRawQueryExport) × validate_raw_query_export_command chars may one_day
            ≡ exported v
          × IsChecked may one_day 1 1 v))
    ⊎ (¬ (IsKnown one_day.event_type × (1 ≤ 1))
        × ((message : String) × validate_raw_query_export_command chars may one_day
              ≡ rejected 400 message))
validate_raw_query_export_command_iff_example =
    validate_raw_query_export_command_iff chars may one_day 1 1 may-IsCalendar one_day-from
      one_day-to
