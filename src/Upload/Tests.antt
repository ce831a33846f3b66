-- ===== src/Upload/Tests.antt =====
-- Uploads of small sheets, and the theorems about them there. Cells are texts, and areas numbers.
use parcel_explorer.Prelude.{
  ℕ, ◌+◌, ◌≤◌, ◌≡◌, ◌↔◌, ◌⊎◌, refl, String, codes, true, false, ◌||◌, none, some, [], ◌∷◌, ◌++◌,
  length, str_eq, starts_with, decimal, if◌then◌else◌,
}
use parcel_explorer.Lands.Replace.{replace_land_data}
use parcel_explorer.Geo.Jobs.{create_geom_update_job}
use parcel_explorer.Geo.Service.{enqueue_geom_update_job, Database, ok}
use parcel_explorer.Upload.Rows.{
  Cells, number, invalid, SheetRow, Frame, required_columns, validate_required_columns,
  append_error, parse_area, normalize_row, normalize_from, normalize_upload_rows,
  check_excel_magic_bytes, xlsx_magic,
}
use parcel_explorer.Upload.Partition.{
  accepted_rows, refusals, reported, verdicts_from, normalize_upload_rows-verdicts,
}
use parcel_explorer.Upload.Request.{
  UploadedFileInput, UploadCommand, UploadContext, UploadFileMeta, openpyxl, TextMethods,
  build_upload_context, is_unsupported, has_excel_extension, max_size_bytes, engine_of,
  validate_upload_request, magic_of, validate_upload_request-ok_iff,
}
use parcel_explorer.Upload.Service.{
  Workbooks, success, rejected_rows, validate_upload_dataframe, load_upload_dataframe,
  finalize_upload, store_upload, handle_excel_upload,
}
use parcel_explorer.Upload.Outcomes.{IsAllOrNothing, handle_excel_upload-IsAllOrNothing}

abbrev cells : Cells String ℕ
cells = record {
  is_none = λ v. str_eq v "None";
  is_float = λ v. str_eq v "nan";
  isna = λ v. str_eq v "None" || str_eq v "nan";
  str = λ v. v;
  strip = λ s. s;
  float = λ v. if str_eq v "x" then invalid else number 12;
}

abbrev row : String → String → SheetRow String
row address area = record {
  address = address;
  land_type = "답";
  area = area;
  adm_property = "Y";
  gen_property = "N";
  contact = "nan";
}

abbrev sheet : SheetRow String → Frame String
sheet second = record { columns = required_columns; rows = row "A" "12" ∷ second ∷ [] }

-- the second row has no address, the third no number
two_errors :
    (reported {F = ℕ}
      (accepted_rows (verdicts_from cells 1 (row "A" "12" ∷ row "None" "x" ∷ row "B" "x" ∷ [])))
      (refusals (verdicts_from cells 1 (row "A" "12" ∷ row "None" "x" ∷ row "B" "x" ∷ [])))).errors
    ≡ record { row = 2; field = "address"; code = "missing"; value = "" }
      ∷ record { row = 3; field = "area"; code = "invalid"; value = "x" }
      ∷ []
two_errors = refl

normalize_upload_rows-verdicts_example :
    ((false ≡ false)
      × (normalize_upload_rows cells (row "A" "12" ∷ row "None" "x" ∷ [])
          ≡ some (
              reported
                (accepted_rows (verdicts_from cells 1 (row "A" "12" ∷ row "None" "x" ∷ [])))
                (refusals (verdicts_from cells 1 (row "A" "12" ∷ row "None" "x" ∷ [])))))
      × (length (accepted_rows (verdicts_from cells 1 (row "A" "12" ∷ row "None" "x" ∷ [])))
            + length (refusals (verdicts_from cells 1 (row "A" "12" ∷ row "None" "x" ∷ [])))
          ≡ 2))
    ⊎ ((false ≡ true) × (normalize_upload_rows cells (row "A" "12" ∷ row "None" "x" ∷ []) ≡ none))
normalize_upload_rows-verdicts_example =
    normalize_upload_rows-verdicts cells (row "A" "12" ∷ row "None" "x" ∷ [])

abbrev methods : TextMethods
methods = record { lower = λ t. t; strip = λ t. t }

abbrev command : UploadCommand
command = record {
  context = record {
    request_id = "r1";
    actor = "admin";
    client_ip = "10.0.0.7";
    csrf_valid = true;
  };
  requested_sheet = "목록";
  max_upload_size_mb = 1;
  max_upload_rows = 2;
}

abbrev workbook : UploadedFileInput
workbook = record {
  filename = codes "lands.xlsx";
  content_type = [];
  file = xlsx_magic ++ 7 ∷ 7 ∷ [];
}

abbrev context : UploadContext
context = build_upload_context methods command workbook

abbrev meta : UploadFileMeta
meta = record { file_size_bytes = 6; excel_engine = openpyxl }

validate_upload_request-ok_iff_example :
    (validate_upload_request command workbook context ≡ ok meta) ↔ (
      (true ≡ true)
      × (has_excel_extension context.filename ≡ true)
      × (6 ≤ max_size_bytes context)
      × (starts_with (magic_of openpyxl) workbook.file ≡ true)
      × (is_unsupported context.content_type ≡ false)
      × (openpyxl ≡ engine_of context.filename)
      × (meta.file_size_bytes ≡ 6))
validate_upload_request-ok_iff_example =
    validate_upload_request-ok_iff command workbook context meta

abbrev books : SheetRow String → Workbooks String
books second = record {
  open_book = λ engine file.
      some (record { sheet_names = "목록" ∷ []; read_sheet = λ name. some (sheet second) });
}

abbrev empty : Database ℕ
empty = record {
  lands = record { rows = []; next_id = 1 };
  jobs = record { rows = []; next_id = 4 };
}

two_stored :
    (handle_excel_upload cells (books (row "B" "7")) methods "t0" command workbook empty).0
    ≡ success 2 4
unfolding handle_excel_upload build_upload_context validate_upload_request check_excel_magic_bytes
    starts_with load_upload_dataframe validate_upload_dataframe validate_required_columns
    normalize_upload_rows normalize_from normalize_row parse_area append_error store_upload
    finalize_upload enqueue_geom_update_job create_geom_update_job replace_land_data
two_stored = refl

-- one bad row keeps the whole sheet out
one_rejected :
    handle_excel_upload cells (books (row "B" "x")) methods "t0" command workbook empty ≡ (
      rejected_rows 1 (record { row = 2; field = "area"; code = "invalid"; value = "x" } ∷ []),
      empty,
    )
unfolding handle_excel_upload build_upload_context validate_upload_request check_excel_magic_bytes
    starts_with load_upload_dataframe validate_upload_dataframe validate_required_columns
    normalize_upload_rows normalize_from normalize_row parse_area append_error store_upload
one_rejected = refl

decimal_run : decimal 1024 ≡ "1024"
unfolding decimal
decimal_run = refl

handle_excel_upload-IsAllOrNothing_example :
    IsAllOrNothing cells
      (books (row "B" "7"))
      methods
      "t0"
      command
      workbook
      empty
      (handle_excel_upload cells (books (row "B" "7")) methods "t0" command workbook empty)
handle_excel_upload-IsAllOrNothing_example =
    handle_excel_upload-IsAllOrNothing cells (books (row "B" "7")) methods "t0" command workbook
      empty
