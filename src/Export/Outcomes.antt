-- ===== src/Export/Outcomes.antt =====
-- What the export of the raw queries gives, if it gives a file.
use parcel_explorer.Prelude.{◌≡◌, refl, some, List, [], ◌∷◌, map, All, arith, CharTests, length}
use mathlib.Core.Path.{subst}
use parcel_explorer.Events.Store.{RawQuery}
use parcel_explorer.Export.Csv.{RawQueryCsvExportResult, column_names, cells, render_raw_query_csv}
use parcel_explorer.Export.Query.{
  Calendar, RawQueryExportCommand, ValidatedRawQueryExport, Exported, exported, rejected, crashed,
  ◌>>=◌, Ending, finished, interrupted, operational_error, validate_raw_query_export_command,
  fetch_raw_query_logs, fetch_raw_query_export_rows, export_raw_query_csv,
}
use parcel_explorer.Export.Reader.{read_csv}
use parcel_explorer.Export.RoundTrip.{read_csv-render_raw_query_csv}
use parcel_explorer.Export.Cells.{IsNoFormula, cells-AreNoFormulas}
use parcel_explorer.Export.Selected.{AreExported, fetch_raw_query_logs-AreExported}

-- The file holds the column names and the cells of the exported rows, none of which is a formula; the result counts
-- the rows.
pub record IsExport (v : ValidatedRawQueryExport) (table : List RawQuery)
    (result : RawQueryCsvExportResult) : Type 0 where
  pub rows : List RawQuery
  pub exported_rows : AreExported v table rows
  pub read : read_csv result.csv_text ≡ some (column_names ∷ map cells rows)
  pub no_formulas : All (λ row. All IsNoFormula (cells row)) rows
  pub counted : result.row_count ≡ length rows

all_no_formulas : (rows : List RawQuery) → All (λ row. All IsNoFormula (cells row)) rows
all_no_formulas [] = tt
all_no_formulas (row ∷ rows) = (cells-AreNoFormulas row, all_no_formulas rows)

rendered-IsExport :
    (v : ValidatedRawQueryExport) (table : List RawQuery)
    → IsExport v table (render_raw_query_csv (fetch_raw_query_logs v table) v.effective_limit)
unfolding render_raw_query_csv
rendered-IsExport v table = record {
  rows = fetch_raw_query_logs v table;
  exported_rows = fetch_raw_query_logs-AreExported v table;
  read = read_csv-render_raw_query_csv (fetch_raw_query_logs v table) v.effective_limit;
  no_formulas = all_no_formulas (fetch_raw_query_logs v table);
  counted = refl;
}

exported-injective {ℓ} : {A : Type ℓ} (a b : A) → exported a ≡ exported b → a ≡ b
exported-injective a b e = cc e

module _ (chars : CharTests) (calendar : Calendar) where
  -- An export that gives a file gives one for a command that passes the check: a reader of CSV files gets from it
  -- the column names and the cells of the rows that the check selects, newest first, at most as many as the
  -- effective limit and all of them if they are fewer; no cell starts a formula.
  pub export_raw_query_csv-IsExport :
      (ending : Ending) (command : RawQueryExportCommand) (table : List RawQuery)
      (result : RawQueryCsvExportResult)
      → export_raw_query_csv chars calendar ending command table ≡ exported result
      → (v : ValidatedRawQueryExport) × validate_raw_query_export_command chars calendar command
          ≡ exported v
        × IsExport v table result
  unfolding export_raw_query_csv fetch_raw_query_export_rows
  export_raw_query_csv-IsExport ending command table result h =
      go (validate_raw_query_export_command chars calendar command) ending refl h
    where
      go :
          (checked : Exported ValidatedRawQueryExport) (e : Ending)
          → validate_raw_query_export_command chars calendar command ≡ checked
          → (checked >>= (λ v.
              fetch_raw_query_export_rows e v table
              >>= (λ rows. exported (render_raw_query_csv rows v.effective_limit))))
            ≡ exported result
          → (v : ValidatedRawQueryExport) × validate_raw_query_export_command chars calendar command
              ≡ exported v
            × IsExport v table result
      go (exported v) finished c h = (
        v,
        c,
        subst (IsExport v table) (exported-injective _ result h) (rendered-IsExport v table),
      )
      go (exported v) interrupted c h = absurd (ground (arith, h))
      go (exported v) operational_error c h = absurd (ground (arith, h))
      go (rejected status message) e c h = absurd (ground (arith, h))
      go crashed e c h = absurd (ground (arith, h))
