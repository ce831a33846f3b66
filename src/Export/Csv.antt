-- ===== src/Export/Csv.antt =====
-- The CSV text of app/services/raw_query_export_service.py: `_safe_csv_string`, `render_raw_query_csv`, and what
-- `csv.writer` with its default dialect writes.
use parcel_explorer.Prelude.{
  ℕ, Text, codes, decimal, Bool, false, ◌||◌, ◌==◌, Option, none, some, List, [], ◌∷◌, ◌++◌, map,
  length, starts_with, if◌then◌else◌,
}
use parcel_explorer.Events.Store.{RawQuery}

abbrev pub comma : ℕ
comma = b','

abbrev pub quotation : ℕ
quotation = 34

abbrev pub return : ℕ
return = 13

abbrev pub line_feed : ℕ
line_feed = 10

-- a character for which a field is quoted
abbrev pub is_special : ℕ → Bool
is_special c = c == comma || c == quotation || c == return || c == line_feed

abbrev pub has_special : Text → Bool
has_special [] = false
has_special (c ∷ text) = is_special c || has_special text

-- each quotation mark twice
abbrev pub doubled : Text → Text
doubled [] = []
doubled (c ∷ text) =
    let rest = doubled text in if c == quotation then quotation ∷ quotation ∷ rest else c ∷ rest

unfoldable pub quote_field : Text → Text
quote_field text = if has_special text then quotation ∷ (doubled text ++ quotation ∷ []) else text

abbrev pub line_end : Text
line_end = return ∷ line_feed ∷ []

-- the fields, with commas between them, and the end of the line
abbrev pub write_fields : Text → List Text → Text
write_fields field [] = quote_field field ++ line_end
write_fields field (field' ∷ fields) = quote_field field ++ comma ∷ write_fields field' fields

-- writer.writerow(fields); one empty field alone is quoted
unfoldable pub writerow : List Text → Text
writerow [] = line_end
writerow ([] ∷ []) = quotation ∷ quotation ∷ line_end
writerow (field ∷ fields) = write_fields field fields

abbrev pub csv_formula_prefixes : List Text
csv_formula_prefixes = codes "=" ∷ codes "+" ∷ codes "-" ∷ codes "@" ∷ (9 ∷ []) ∷ codes "|" ∷ []

abbrev pub starts_with_any : List Text → Text → Bool
starts_with_any [] text = false
starts_with_any (prefix ∷ prefixes) text = starts_with prefix text || starts_with_any prefixes text

abbrev pub text_of : Option Text → Text
text_of none = []
text_of (some text) = text

unfoldable pub safe_csv_string : Option Text → Text
safe_csv_string value =
    if starts_with_any csv_formula_prefixes (text_of value)
    then 39 ∷ text_of value
    else text_of value

abbrev pub column_names : List Text
column_names =
    codes "id"
    ∷ codes "created_at"
    ∷ codes "event_type"
    ∷ codes "anon_id"
    ∷ codes "raw_region_query"
    ∷ codes "raw_min_area_input"
    ∷ codes "raw_max_area_input"
    ∷ codes "raw_rent_only_input"
    ∷ codes "raw_land_id_input"
    ∷ codes "raw_land_address_input"
    ∷ codes "raw_click_source_input"
    ∷ codes "raw_payload_json"
    ∷ []

abbrev pub cells : RawQuery → List Text
cells row =
    codes (decimal row.id)
    ∷ safe_csv_string (some (codes row.created_at))
    ∷ safe_csv_string (some (codes row.event_type))
    ∷ safe_csv_string row.anon_id
    ∷ safe_csv_string row.raw_region_query
    ∷ safe_csv_string row.raw_min_area_input
    ∷ safe_csv_string row.raw_max_area_input
    ∷ safe_csv_string row.raw_rent_only_input
    ∷ safe_csv_string row.raw_land_id_input
    ∷ safe_csv_string row.raw_land_address_input
    ∷ safe_csv_string row.raw_click_source_input
    ∷ safe_csv_string (some row.raw_payload_json)
    ∷ []

abbrev pub write_rows : List (List Text) → Text
write_rows [] = []
write_rows (row ∷ rows) = writerow row ++ write_rows rows

pub record RawQueryCsvExportResult : Type 0 where
  pub csv_text : Text
  pub row_count : ℕ
  pub effective_limit : ℕ

unfoldable pub render_raw_query_csv : List RawQuery → ℕ → RawQueryCsvExportResult
render_raw_query_csv rows effective_limit = record {
  csv_text = write_rows (column_names ∷ map cells rows);
  row_count = length rows;
  effective_limit = effective_limit;
}
