-- ===== src/Upload/Service.antt =====
-- `handle_excel_upload` of app/services/upload_service.py. `Workbooks` stands for what pandas does with
-- a file; log lines are not modelled, and the database does not fail.
use Prim.Native.String
use parcel_explorer.Prelude.{
  ℕ, ◌>>=◌, String, Option, none, some, List, [], ◌∷◌, ltb, length, join, decimal, if◌then◌else◌,
}
use parcel_explorer.Lands.Replace.{UploadRow, replace_land_data}
use parcel_explorer.Geo.Service.{
  Database, ok, err, ServiceError, validation_error, enqueue_geom_update_job,
}
use parcel_explorer.Upload.Rows.{
  Cells, Frame, RowError, Normalized, is_in, validate_required_columns, normalize_upload_rows,
}
use parcel_explorer.Upload.Request.{
  UploadedFileInput, UploadCommand, UploadContext, Engine, UploadFileMeta, TextMethods,
  build_upload_context, validate_upload_request,
}

pub record Book (V : Type 0) : Type 0 where
  pub sheet_names : List String
  pub read_sheet : String → Option (Frame V)

-- `none` where opening or reading raises
pub record Workbooks (V : Type 0) : Type 0 where
  pub open_book : Engine → List ℕ → Option (Book V)

pub record UploadDataFrameResult (V : Type 0) : Type 0 where
  pub dataframe : Frame V
  pub selected_sheet : String

-- `raised` is an error that the caller sees, `unexpected` any other exception
pub data Upload : Type 0 where
  success : ℕ → ℕ → Upload
  rejected_rows : ℕ → List RowError → Upload
  unexpected : Upload
  raised : ServiceError → Upload

-- `UploadValidatedRows`, or how the upload ends without it
pub data Validated (F : Type 0) : Type 0 where
  valid : List (UploadRow F) → ℕ → Validated F
  not_valid : Upload → Validated F

abbrev pub columns_message : List String → String
columns_message missing = String.◌++◌ "필수 컬럼 누락: " (join ", " missing)

abbrev pub rows_message : UploadContext → String
rows_message context =
    String.◌++◌ "최대 업로드 행 수(" (String.◌++◌ (decimal context.max_upload_rows) ")를 초과했습니다.")

module _ {V F : Type 0} (cells : Cells V F) where
  -- if total_errors
  abbrev pub judge_rows : ℕ → Option (Normalized F) → Validated F
  judge_rows row_count none = not_valid unexpected
  judge_rows row_count (some n) =
      if ltb 0 n.total_errors
      then not_valid (rejected_rows n.total_errors n.errors)
      else valid n.rows row_count

  -- if missing
  abbrev pub judge_columns : List String → Validated F → Validated F
  judge_columns [] next = next
  judge_columns (column ∷ missing) next =
      not_valid (raised (validation_error 400 (columns_message (column ∷ missing))))

  unfoldable pub validate_upload_dataframe : Frame V → UploadContext → Validated F
  validate_upload_dataframe df context = judge_columns (validate_required_columns df.columns) (
      if ltb context.max_upload_rows (length df.rows)
      then not_valid (raised (validation_error 400 (rows_message context)))
      else judge_rows (length df.rows) (normalize_upload_rows cells df.rows))

module _ {V : Type 0} (workbooks : Workbooks V) where
  -- the requested sheet if there is one, else the first; no sheet raises `IndexError`
  abbrev pub select_sheet : String → List String → Option String
  select_sheet requested [] = none
  select_sheet requested (name ∷ names) =
      if is_in requested (name ∷ names) then some requested else some name

  unfoldable pub load_upload_dataframe :
      UploadedFileInput → UploadContext → UploadFileMeta → Option (UploadDataFrameResult V)
  load_upload_dataframe file_input context file_meta = do
    book ← workbooks.open_book file_meta.excel_engine file_input.file
    selected_sheet ← select_sheet context.requested_sheet book.sheet_names
    df ← book.read_sheet selected_sheet
    some (record { dataframe = df; selected_sheet = selected_sheet })

module _ {F : Type 0} where
  unfoldable pub finalize_upload : String → ℕ → Database F → Upload × Database F
  finalize_upload now row_count db =
      let (job_id, db') = enqueue_geom_update_job now db in (success row_count job_id, db')

  -- the two commits of a valid upload
  unfoldable pub store_upload : String → Validated F → Database F → Upload × Database F
  store_upload now (not_valid ended) db = (ended, db)
  store_upload now (valid rows row_count) db =
      finalize_upload now row_count (record db { lands = replace_land_data rows db.lands })

module _ {V F : Type 0} (cells : Cells V F) (workbooks : Workbooks V) (m : TextMethods) where
  abbrev pub store_loaded :
      String → UploadContext → Option (UploadDataFrameResult V) → Database F → Upload × Database F
  store_loaded now context none db = (unexpected, db)
  store_loaded now context (some loaded) db =
      store_upload now (validate_upload_dataframe cells loaded.dataframe context) db

  unfoldable pub handle_excel_upload :
      String → UploadCommand → UploadedFileInput → Database F → Upload × Database F
  handle_excel_upload now command file_input db =
      let context = build_upload_context m command file_input in
      elim (validate_upload_request command file_input context) [
        | err e ↦ (raised e, db)
        | ok file_meta ↦
            store_loaded now context (load_upload_dataframe workbooks file_input context file_meta)
              db
      ]
