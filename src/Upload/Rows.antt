-- ===== src/Upload/Rows.antt =====
-- app/validators/land_validators.py: the rows of an uploaded sheet. `V` stands for the values of its cells
-- and `F` for floats; the record `Cells` for what pandas and Python's text methods do with them.
use parcel_explorer.Prelude.{
  ℕ, suc, ◌+◌, ◌>>=◌, String, Text, Bool, false, not, ◌&&◌, ◌||◌, Option, none, some, List, [], ◌∷◌,
  ◌++◌, codes, leb, length, keep, str_eq, starts_with, if◌then◌else◌,
}
use parcel_explorer.Lands.Replace.{UploadRow}

-- what `float(value)` does: return, raise `TypeError` or `ValueError`, or raise another exception
pub data Parsed (F : Type 0) : Type 0 where
  number : F → Parsed F
  invalid : Parsed F
  breaks : Parsed F

pub record Cells (V F : Type 0) : Type 0 where
  pub is_none : V → Bool
  pub is_float : V → Bool
  pub isna : V → Bool
  pub str : V → String
  pub strip : String → String
  pub float : V → Parsed F

-- the six required cells of a row
pub record SheetRow (V : Type 0) : Type 0 where
  pub address : V
  pub land_type : V
  pub area : V
  pub adm_property : V
  pub gen_property : V
  pub contact : V

pub record Frame (V : Type 0) : Type 0 where
  pub columns : List String
  pub rows : List (SheetRow V)

pub record RowError : Type 0 where
  pub row : ℕ
  pub field : String
  pub code : String
  pub value : String

-- the three values that `normalize_upload_rows` collects
pub record Normalized (F : Type 0) : Type 0 where
  pub rows : List (UploadRow F)
  pub errors : List RowError
  pub total_errors : ℕ

abbrev pub required_columns : List String
required_columns = "소재지(지번)" ∷ "(공부상)지목" ∷ "(공부상)면적(㎡)" ∷ "행정재산" ∷ "일반재산" ∷ "담당자연락처" ∷ []

abbrev pub max_error_report : ℕ
max_error_report = 100

-- text in texts
abbrev pub is_in : String → List String → Bool
is_in text [] = false
is_in text (t ∷ texts) = str_eq t text || is_in text texts

unfoldable pub validate_required_columns : List String → List String
validate_required_columns columns = keep (λ col. not (is_in col columns)) required_columns

unfoldable pub append_error : RowError → List RowError → List RowError
append_error error errors =
    if leb max_error_report (length errors) then errors else errors ++ error ∷ []

module _ {V F : Type 0} (cells : Cells V F) where
  -- `_to_str`
  abbrev pub to_str : V → String
  to_str value =
      if cells.is_none value || (cells.is_float value && cells.isna value)
      then ""
      else cells.strip (cells.str value)

  -- the `value` of an error
  abbrev pub error_value : V → String
  error_value value = if cells.is_none value then "" else cells.str value

  abbrev pub area_error : ℕ → String → V → RowError
  area_error row_num code value = record {
    row = row_num;
    field = "area";
    code = code;
    value = error_value value;
  }

  -- `_parse_area`: the area, and the errors; `none` is an exception that it does not catch
  unfoldable pub parse_area : V → ℕ → List RowError → Option (Option F × List RowError)
  parse_area value row_num errors =
      if cells.isna value
      then some (none, append_error (area_error row_num "missing" value) errors)
      else elim (cells.float value) [
        | number area ↦ some (some area, errors)
        | invalid ↦ some (none, append_error (area_error row_num "invalid" value) errors)
        | breaks ↦ none
      ]

  abbrev pub address_error : ℕ → String → RowError
  address_error row_num address = record {
    row = row_num;
    field = "address";
    code = "missing";
    value = address;
  }

  abbrev pub upload_row : SheetRow V → F → UploadRow F
  upload_row row area = record {
    address = to_str row.address;
    land_type = to_str row.land_type;
    area = area;
    adm_property = to_str row.adm_property;
    gen_property = to_str row.gen_property;
    contact = to_str row.contact;
  }

  -- what the loop does with the result of `_parse_area`
  abbrev pub add_parsed : SheetRow V → Normalized F → Option F × List RowError → Normalized F
  add_parsed row n (none, errors) = record n { errors = errors; total_errors = n.total_errors + 1 }
  add_parsed row n (some area, errors) = record n {
    rows = n.rows ++ upload_row row area ∷ [];
    errors = errors;
  }

  unfoldable pub normalize_row : ℕ → SheetRow V → Normalized F → Option (Normalized F)
  normalize_row row_num row n =
      if str_eq (to_str row.address) ""
      then some (record n {
        errors = append_error (address_error row_num (to_str row.address)) n.errors;
        total_errors = n.total_errors + 1;
      })
      else parse_area row.area row_num n.errors >>= λ parsed. some (add_parsed row n parsed)

  -- `row_num` is the number of the next row
  unfoldable pub normalize_from : ℕ → List (SheetRow V) → Normalized F → Option (Normalized F)
  normalize_from row_num [] n = some n
  normalize_from row_num (row ∷ rows) n = do
    n' ← normalize_row row_num row n
    normalize_from (suc row_num) rows n'

  unfoldable pub normalize_upload_rows : List (SheetRow V) → Option (Normalized F)
  normalize_upload_rows rows =
      normalize_from 1 rows (record { rows = []; errors = []; total_errors = 0 })

-- _MAGIC_BYTES
abbrev pub xlsx_magic : List ℕ
xlsx_magic = 0x50 ∷ 0x4b ∷ 3 ∷ 4 ∷ []

abbrev pub xls_magic : List ℕ
xls_magic = 0xd0 ∷ 0xcf ∷ 0x11 ∷ 0xe0 ∷ 0xa1 ∷ 0xb1 ∷ 0x1a ∷ 0xe1 ∷ []

abbrev pub reversed_onto : Text → Text → Text
reversed_onto [] onto = onto
reversed_onto (c ∷ text) onto = reversed_onto text (c ∷ onto)

-- text.endswith(suffix)
abbrev pub ends_with : Text → Text → Bool
ends_with suffix text = starts_with (reversed_onto suffix []) (reversed_onto text [])

unfoldable pub check_excel_magic_bytes : List ℕ → Text → Bool
check_excel_magic_bytes header filename =
    if ends_with (codes ".xlsx") filename
    then starts_with xlsx_magic header
    else if ends_with (codes ".xls") filename
    then starts_with xls_magic header
    else false
