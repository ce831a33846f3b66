-- ===== src/Upload/Partition.antt =====
-- What `normalize_upload_rows` makes of all rows together.
use mathlib.Core.List.{append-nil, append_assoc}
use parcel_explorer.Prelude.{
  ℕ, zero, suc, ◌+◌, ◌>>=◌, ◌≡◌, refl, ap, ◌∙◌, Bool, true, false, ◌⊎◌, inl, inr, Option, none,
  some, List, [], ◌∷◌, ◌++◌, arith, leb, length, length-append, take, str_eq, Bool-cases,
  if◌then◌else◌,
}
use parcel_explorer.Lands.Replace.{UploadRow}
use parcel_explorer.Upload.Rows.{
  Parsed, number, invalid, breaks, Cells, SheetRow, RowError, Normalized, max_error_report,
  append_error, to_str, area_error, address_error, upload_row, add_parsed, parse_area,
  normalize_row, normalize_from, normalize_upload_rows,
}

-- what the rules say of one row
pub data Verdict (F : Type 0) : Type 0 where
  accepted : UploadRow F → Verdict F
  refused : RowError → Verdict F
  broken : Verdict F

module _ {F : Type 0} where
  abbrev pub accepted_rows : List (Verdict F) → List (UploadRow F)
  accepted_rows [] = []
  accepted_rows (accepted row ∷ verdicts) = row ∷ accepted_rows verdicts
  accepted_rows (_ ∷ verdicts) = accepted_rows verdicts

  abbrev pub refusals : List (Verdict F) → List RowError
  refusals [] = []
  refusals (refused error ∷ verdicts) = error ∷ refusals verdicts
  refusals (_ ∷ verdicts) = refusals verdicts

  abbrev pub has_broken : List (Verdict F) → Bool
  has_broken [] = false
  has_broken (broken ∷ verdicts) = true
  has_broken (_ ∷ verdicts) = has_broken verdicts

  -- the accepted rows, and of all errors the first hundred and their number
  abbrev pub reported : List (UploadRow F) → List RowError → Normalized F
  reported rows errors = record {
    rows = rows;
    errors = take max_error_report errors;
    total_errors = length errors;
  }

  count_accepted :
      (verdicts : List (Verdict F))
      → has_broken verdicts ≡ false
      → length (accepted_rows verdicts) + length (refusals verdicts) ≡ length verdicts
  count_accepted [] h = refl
  count_accepted (accepted row ∷ verdicts) h = omega (arith, count_accepted verdicts h)
  count_accepted (refused error ∷ verdicts) h = omega (arith, count_accepted verdicts h)
  count_accepted (broken ∷ verdicts) h = absurd (ground arith)

take-append_error :
    (n : ℕ) (e : RowError) (es : List RowError)
    → (if leb n (length (take n es)) then take n es else take n es ++ e ∷ [])
      ≡ take n (es ++ e ∷ [])
take-append_error zero e es = ground arith
take-append_error (suc zero) e [] = refl
take-append_error (suc (suc n)) e [] = ground arith
take-append_error (suc n) e (x ∷ es) = ground (arith, take-append_error n e es)

append_error-take :
    (e : RowError) (es : List RowError)
    → append_error e (take max_error_report es) ≡ take max_error_report (es ++ e ∷ [])
unfolding append_error
append_error-take e es = take-append_error max_error_report e es

module _ {V F : Type 0} (cells : Cells V F) where
  abbrev area_verdict : ℕ → SheetRow V → Parsed F → Verdict F
  area_verdict row_num row (number area) = accepted (upload_row cells row area)
  area_verdict row_num row invalid = refused (area_error cells row_num "invalid" row.area)
  area_verdict row_num row breaks = broken

  -- A row needs an address and an area that is a number.
  abbrev pub verdict : ℕ → SheetRow V → Verdict F
  verdict row_num row =
      if str_eq (to_str cells row.address) ""
      then refused (address_error cells row_num (to_str cells row.address))
      else if cells.isna row.area
      then refused (area_error cells row_num "missing" row.area)
      else area_verdict row_num row (cells.float row.area)

  abbrev pub verdicts_from : ℕ → List (SheetRow V) → List (Verdict F)
  verdicts_from row_num [] = []
  verdicts_from row_num (row ∷ rows) = verdict row_num row ∷ verdicts_from (suc row_num) rows

  length-verdicts_from :
      (row_num : ℕ) (rows : List (SheetRow V)) → length (verdicts_from row_num rows) ≡ length rows
  length-verdicts_from row_num [] = refl
  length-verdicts_from row_num (row ∷ rows) = omega (arith, length-verdicts_from (suc row_num) rows)

  abbrev after : List (UploadRow F) → List RowError → Verdict F → Option (Normalized F)
  after rs es (accepted row) = some (reported (rs ++ row ∷ []) es)
  after rs es (refused error) = some (reported rs (es ++ error ∷ []))
  after rs es broken = none

  -- one more error is reported
  one_more :
      (rs : List (UploadRow F)) (es : List RowError) (e : RowError)
      → record {
        rows = rs;
        errors = append_error e (take max_error_report es);
        total_errors = length es + 1;
      }
        ≡ reported rs (es ++ e ∷ [])
  one_more rs es e = rw (append_error-take e es, length-append es (e ∷ []))

  parse_area-after :
      (row_num : ℕ) (row : SheetRow V) (rs : List (UploadRow F)) (es : List RowError) (p : Parsed F)
      → cells.float row.area ≡ p
      → cells.isna row.area ≡ false
      → (parse_area cells row.area row_num (take max_error_report es) >>= λ parsed.
          some (add_parsed cells row (reported rs es) parsed))
        ≡ after rs es (area_verdict row_num row p)
  unfolding parse_area
  parse_area-after row_num row rs es (number area) f b = rw (b, f)
  parse_area-after row_num row rs es invalid f b =
      rw (b, f) (ap some (one_more rs es (area_error cells row_num "invalid" row.area)))
  parse_area-after row_num row rs es breaks f b = rw (b, f)

  normalize_row-after :
      (row_num : ℕ) (row : SheetRow V) (rs : List (UploadRow F)) (es : List RowError)
      → normalize_row cells row_num row (reported rs es) ≡ after rs es (verdict row_num row)
  unfolding normalize_row parse_area
  normalize_row-after row_num row rs es = elim (Bool-cases (str_eq (to_str cells row.address) "")) [
    | inl e ↦
        rw e (ap some (one_more rs es (address_error cells row_num (to_str cells row.address))))
    | inr e ↦ rw e (elim (Bool-cases (cells.isna row.area)) [
      | inl a ↦ rw a (ap some (one_more rs es (area_error cells row_num "missing" row.area)))
      | inr a ↦ parse_area-after row_num row rs es (cells.float row.area) refl a ∙ rw a
    ])
  ]

  normalize_from-reported :
      (row_num : ℕ) (rows : List (SheetRow V)) (rs : List (UploadRow F)) (es : List RowError)
      → normalize_from cells row_num rows (reported rs es) ≡ (
          let vs = verdicts_from row_num rows in
          if has_broken vs
          then none
          else some (reported (rs ++ accepted_rows vs) (es ++ refusals vs)))
  unfolding normalize_from
  normalize_from-reported row_num [] rs es = simp append-nil
  normalize_from-reported row_num (row ∷ rows) rs es =
      rw (normalize_row-after row_num row rs es)
        (go (verdict row_num row) (λ rs' es'. normalize_from-reported (suc row_num) rows rs' es'))
    where
      go :
          (v : Verdict F)
          → ((rs' : List (UploadRow F)) (es' : List RowError)
              → normalize_from cells (suc row_num) rows (reported rs' es') ≡ (
                  let vs = verdicts_from (suc row_num) rows in
                  if has_broken vs
                  then none
                  else some (reported (rs' ++ accepted_rows vs) (es' ++ refusals vs))))
          → (after rs es v >>= normalize_from cells (suc row_num) rows) ≡ (
              let vs = v ∷ verdicts_from (suc row_num) rows in
              if has_broken vs
              then none
              else some (reported (rs ++ accepted_rows vs) (es ++ refusals vs)))
      go (accepted r) next = next (rs ++ r ∷ []) es ∙ simp append_assoc
      go (refused e) next = next rs (es ++ e ∷ []) ∙ simp append_assoc
      go broken next = refl

  -- The rows are judged one by one, numbered from 1: if the area of none raises an unexpected exception,
  -- the accepted rows come back in their order, with the first hundred errors and the number of all
  -- errors, and accepted rows and errors together are as many as the rows; otherwise the call raises.
  pub normalize_upload_rows-verdicts :
      (rows : List (SheetRow V))
      → ((has_broken (verdicts_from 1 rows) ≡ false)
          × (normalize_upload_rows cells rows
              ≡ some (
                  reported
                    (accepted_rows (verdicts_from 1 rows))
                    (refusals (verdicts_from 1 rows))))
          × (length (accepted_rows (verdicts_from 1 rows))
                + length (refusals (verdicts_from 1 rows))
              ≡ length rows))
        ⊎ ((has_broken (verdicts_from 1 rows) ≡ true) × (normalize_upload_rows cells rows ≡ none))
  unfolding normalize_upload_rows
  normalize_upload_rows-verdicts rows = elim (Bool-cases (has_broken (verdicts_from 1 rows))) [
    | inl b ↦ inr (b, normalize_from-reported 1 rows [] [] ∙ rw b)
    | inr b ↦ inl (
      b,
      normalize_from-reported 1 rows [] [] ∙ rw b,
      count_accepted (verdicts_from 1 rows) b ∙ length-verdicts_from 1 rows,
    )
  ]
