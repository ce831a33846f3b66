-- ===== src/Upload/Outcomes.antt =====
-- An upload stores all rows of its sheet or none.
use mathlib.Core.Option
use parcel_explorer.Prelude.{
  ℕ, ◌≤◌, ◌≡◌, refl, sym, ap, ◌∙◌, ◌⊎◌, inl, inr, String, Bool, true, false, Option, none, some,
  List, [], ◌∷◌, map, arith, ltb, length, length-map, if◌then◌else◌,
}
use parcel_explorer.Lands.{Land, count_all_lands}
use parcel_explorer.Lands.Replace.{
  UploadRow, new_land, replace_land_data, last_geom, numbered, length-numbered,
  replace_land_data_lem,
}
use parcel_explorer.Geo.Jobs.{create_geom_update_job}
use parcel_explorer.Geo.Service.{
  Database, Result, ok, err, ServiceError, validation_error, enqueue_geom_update_job,
}
use parcel_explorer.Upload.Rows.{
  Cells, Frame, Normalized, normalize_upload_rows, validate_required_columns,
}
use parcel_explorer.Upload.Partition.{
  accepted_rows, refusals, has_broken, reported, verdicts_from, normalize_upload_rows-verdicts,
}
use parcel_explorer.Upload.Request.{
  UploadedFileInput, UploadCommand, UploadContext, UploadFileMeta, TextMethods,
  build_upload_context, validate_upload_request,
}
use parcel_explorer.Upload.Service.{
  Workbooks, UploadDataFrameResult, Upload, success, raised, Validated, valid, not_valid,
  rows_message, judge_columns, judge_rows, validate_upload_dataframe, load_upload_dataframe,
  finalize_upload, store_upload, store_loaded, handle_excel_upload,
}

module _ {V F : Type 0} (cells : Cells V F) where
  -- Every row of the sheet was accepted.
  abbrev pub AllAccepted : Frame V → UploadContext → List (UploadRow F) → Type 0
  AllAccepted df context rows =
      (validate_required_columns df.columns ≡ [])
      × (length df.rows ≤ context.max_upload_rows)
      × (has_broken (verdicts_from cells 1 df.rows) ≡ false)
      × (refusals (verdicts_from cells 1 df.rows) ≡ [])
      × (rows ≡ accepted_rows (verdicts_from cells 1 df.rows))
      × (length rows ≡ length df.rows)

  none_refused : {A : Type 0} (es : List A) → length es ≡ 0 → es ≡ []
  none_refused [] h = refl
  none_refused (e ∷ es) h = absurd (omega arith)

  -- what makes the checks end in `valid`
  judged_valid :
      (missing : List String) (too_many : Bool) (ended : Upload) (c : ℕ) (n : Option (Normalized F))
      (rows : List (UploadRow F)) (row_count : ℕ)
      → judge_columns cells missing (if too_many then not_valid ended else judge_rows cells c n)
        ≡ valid rows row_count
      → (missing ≡ [])
        × (too_many ≡ false)
        × ((m : Normalized F) × (n ≡ some m)
            × (m.total_errors ≡ 0)
            × (rows ≡ m.rows)
            × (row_count ≡ c))
  judged_valid (column ∷ missing) too_many ended c n rows row_count e = absurd (ground arith)
  judged_valid [] true ended c n rows row_count e = absurd (ground arith)
  judged_valid [] false ended c none rows row_count e = absurd (ground arith)
  judged_valid [] false ended c (some m) rows row_count e =
      (refl, refl, (m, refl, ground arith, ground arith, ground arith))

  all_accepted :
      (df : Frame V) (context : UploadContext) (rows : List (UploadRow F)) (m : Normalized F)
      → validate_required_columns df.columns ≡ []
      → length df.rows ≤ context.max_upload_rows
      → normalize_upload_rows cells df.rows ≡ some m
      → m.total_errors ≡ 0
      → rows ≡ m.rows
      → AllAccepted df context rows
  all_accepted df context rows m columns few n none_wrong same =
      elim (normalize_upload_rows-verdicts cells df.rows) [
        | inl (b, e, l) ↦
            let vs = verdicts_from cells 1 df.rows in
            let good : m ≡ reported (accepted_rows vs) (refusals vs) = ground (arith, e, n) in
            let clean : length (refusals vs) ≡ 0 =
              sym (ap (λ (k : Normalized F). k.total_errors) good) ∙ none_wrong in
            let kept : rows ≡ accepted_rows vs = same ∙ ap (λ (k : Normalized F). k.rows) good in
            (
              columns,
              few,
              b,
              none_refused (refusals vs) clean,
              kept,
              omega (arith, l, clean, ap (λ (rs : List (UploadRow F)). length rs) kept),
            )
        | inr (b, e) ↦ absurd (ground (arith, e, n))
      ]

  validate_upload_dataframe-valid :
      (df : Frame V) (context : UploadContext) (rows : List (UploadRow F)) (row_count : ℕ)
      → validate_upload_dataframe cells df context ≡ valid rows row_count
      → AllAccepted df context rows × (row_count ≡ length df.rows)
  unfolding validate_upload_dataframe
  validate_upload_dataframe-valid df context rows row_count e =
      let (columns, few, (m, n, clean, same, counted)) =
        judged_valid (validate_required_columns df.columns)
          (ltb context.max_upload_rows (length df.rows)) _ (length df.rows)
          (normalize_upload_rows cells df.rows) rows row_count e in
      (all_accepted df context rows m columns (ground (arith, few)) n clean same, counted)

abbrev pub is_success : Upload → Bool
is_success (success _ _) = true
is_success _ = false

module _ {V F : Type 0} (cells : Cells V F) where
  judged_fails :
      (missing : List String) (too_many : Bool) (e : ServiceError) (c : ℕ)
      (n : Option (Normalized F)) (ended : Upload)
      → judge_columns cells missing
          (if too_many then not_valid (raised e) else judge_rows cells c n)
        ≡ not_valid ended
      → is_success ended ≡ false
  judged_fails (column ∷ missing) too_many e c n ended h = ground arith
  judged_fails [] true e c n ended h = ground arith
  judged_fails [] false e c none ended h = ground arith
  judged_fails [] false e c (some k) ended h = ground arith

  not_valid_fails :
      (df : Frame V) (context : UploadContext) (ended : Upload)
      → validate_upload_dataframe cells df context ≡ not_valid ended
      → is_success ended ≡ false
  unfolding validate_upload_dataframe
  not_valid_fails df context ended e =
      judged_fails (validate_required_columns df.columns)
        (ltb context.max_upload_rows (length df.rows)) (validation_error 400 (rows_message context))
        (length df.rows) (normalize_upload_rows cells df.rows) ended e

module _ {V F : Type 0} (cells : Cells V F) (workbooks : Workbooks V) (m : TextMethods)
    (now : String) (command : UploadCommand) (file_input : UploadedFileInput)
    (db : Database F) where
  abbrev context : UploadContext
  context = build_upload_context m command file_input

  -- all rows of the sheet are stored and a job waits, and the answer says so
  abbrev pub IsStored : UploadFileMeta → Frame V → List (UploadRow F) → Upload × Database F → Type 0
  IsStored meta df rows (answer, db') =
      (validate_upload_request command file_input context ≡ ok meta)
      × (Option.map (λ (r : UploadDataFrameResult V). r.dataframe)
            (load_upload_dataframe workbooks file_input context meta)
          ≡ some df)
      × AllAccepted cells df context rows
      × (answer ≡ success (count_all_lands db'.lands) (create_geom_update_job now db.jobs).0)
      × (count_all_lands db'.lands ≡ length df.rows)
      × (db'.lands.rows
          ≡ numbered db.lands.next_id
              (map (λ row. new_land row (last_geom row.address db.lands.rows)) rows))
      × (db'.jobs ≡ (create_geom_update_job now db.jobs).1)

  abbrev pub IsAllOrNothing : Upload × Database F → Type 0
  IsAllOrNothing (answer, db') =
      ((is_success answer ≡ false) × (db' ≡ db))
      ⊎ ((meta : UploadFileMeta) × (df : Frame V) × (rows : List (UploadRow F)) × IsStored meta df
            rows (answer, db'))

  judged :
      (meta : UploadFileMeta) (loaded : UploadDataFrameResult V) (v : Validated F)
      → validate_upload_request command file_input context ≡ ok meta
      → load_upload_dataframe workbooks file_input context meta ≡ some loaded
      → validate_upload_dataframe cells loaded.dataframe context ≡ v
      → IsAllOrNothing (store_upload now v db)
  unfolding store_upload finalize_upload enqueue_geom_update_job count_all_lands
      validate_upload_dataframe
  judged meta loaded (not_valid ended) v l e =
      inl (not_valid_fails cells loaded.dataframe context ended e, refl)
  judged meta loaded (valid rows row_count) v l e =
      let (accepted, counted) =
        validate_upload_dataframe-valid cells loaded.dataframe context rows row_count e in
      let (stored, _, _) = replace_land_data_lem rows db.lands in
      let held : length (replace_land_data rows db.lands).rows ≡ length loaded.dataframe.rows =
        ap (λ (ls : List (Land F)). length ls) stored
        ∙ length-numbered db.lands.next_id _
        ∙ length-map (λ row. new_land row (last_geom row.address db.lands.rows)) rows
        ∙ accepted.5 in
      inr (
        meta,
        loaded.dataframe,
        rows,
        (v, rw l refl, accepted, rw (counted, held) refl, held, stored, refl),
      )

  loaded_or_not :
      (meta : UploadFileMeta) (loaded : Option (UploadDataFrameResult V))
      → validate_upload_request command file_input context ≡ ok meta
      → load_upload_dataframe workbooks file_input context meta ≡ loaded
      → IsAllOrNothing (store_loaded cells workbooks m now context loaded db)
  loaded_or_not meta none v l = inl (refl, refl)
  loaded_or_not meta (some loaded) v l =
      judged meta loaded (validate_upload_dataframe cells loaded.dataframe context) v l refl

  checked_or_not :
      (r : Result UploadFileMeta)
      → validate_upload_request command file_input context ≡ r
      → IsAllOrNothing (elim r [
        | err e ↦ (raised e, db)
        | ok meta ↦
            store_loaded cells workbooks m now context
              (load_upload_dataframe workbooks file_input context meta)
              db
      ])
  checked_or_not (err e) v = inl (refl, refl)
  checked_or_not (ok meta) v =
      loaded_or_not meta (load_upload_dataframe workbooks file_input context meta) v refl

  -- Either the upload answers something else than a success, and neither the parcels nor the jobs
  -- change. Or it answers with a number of rows and a job: then the request passed its checks, every row
  -- of the sheet was accepted, the table holds exactly these rows, as many as the answer says and as the
  -- sheet has, at most the allowed number, under consecutive new ids and with the known geometries of
  -- their addresses, and the job is the one new job.
  pub handle_excel_upload-IsAllOrNothing :
      IsAllOrNothing (handle_excel_upload cells workbooks m now command file_input db)
  unfolding handle_excel_upload
  handle_excel_upload-IsAllOrNothing =
      checked_or_not (validate_upload_request command file_input context) refl
