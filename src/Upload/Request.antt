-- ===== src/Upload/Request.antt =====
-- `_validate_upload_request` of app/services/upload_service.py: the checks on an upload before its file is
-- opened. `lower` and `strip` stand for Python's methods on texts; a file is the list of its bytes.
use Prim.Native.String
use parcel_explorer.Prelude.{
  text_eq, ℕ, ◌*◌, ◌≡◌, refl, ap, ◌≤◌, String, Text, codes, Bool, true, false, not, ◌&&◌, ◌||◌, ◌↔◌,
  List, [], ◌∷◌, arith, ltb, length, take, decimal, starts_with, ◌==◌, Bool-cases, zero, suc, inl,
  inr, if◌then◌else◌,
}
use parcel_explorer.Auth.Service.{RequestContext}
use parcel_explorer.Geo.Service.{Result, ok, err, validation_error, auth_error}
use parcel_explorer.Upload.Rows.{
  xlsx_magic, xls_magic, ends_with, reversed_onto, check_excel_magic_bytes,
}

pub record UploadedFileInput : Type 0 where
  pub filename : Text
  pub content_type : Text
  pub file : List ℕ

pub record UploadCommand : Type 0 where
  pub context : RequestContext
  pub requested_sheet : String
  pub max_upload_size_mb : ℕ
  pub max_upload_rows : ℕ

pub record UploadContext : Type 0 where
  pub request_id : String
  pub actor : String
  pub client_ip : String
  pub requested_sheet : String
  pub max_upload_size_mb : ℕ
  pub max_upload_rows : ℕ
  pub original_filename : Text
  pub filename : Text
  pub content_type : Text

pub data Engine : Type 0 where
  xlrd openpyxl : Engine

pub record UploadFileMeta : Type 0 where
  pub file_size_bytes : ℕ
  pub excel_engine : Engine

-- Python's text methods
pub record TextMethods : Type 0 where
  pub lower : Text → Text
  pub strip : Text → Text

unfoldable pub build_upload_context :
    TextMethods → UploadCommand → UploadedFileInput → UploadContext
build_upload_context m command file_input =
    let original_filename = m.strip file_input.filename in
    record {
      request_id = command.context.request_id;
      actor = command.context.actor;
      client_ip = command.context.client_ip;
      requested_sheet = command.requested_sheet;
      max_upload_size_mb = command.max_upload_size_mb;
      max_upload_rows = command.max_upload_rows;
      original_filename = original_filename;
      filename = m.lower original_filename;
      content_type = m.lower file_input.content_type;
    }

-- content_type and content_type not in ALLOWED_CONTENT_TYPES
abbrev pub is_unsupported : Text → Bool
is_unsupported [] = false
is_unsupported content_type = not (
    text_eq content_type (codes "application/vnd.openxmlformats-officedocument.spreadsheetml.sheet")
    || text_eq content_type (codes "application/vnd.ms-excel")
    || text_eq content_type (codes "application/octet-stream"))

abbrev pub has_excel_extension : Text → Bool
has_excel_extension filename =
    ends_with (codes ".xlsx") filename || ends_with (codes ".xls") filename

abbrev pub max_size_bytes : UploadContext → ℕ
max_size_bytes context = context.max_upload_size_mb * 1024 * 1024

abbrev pub size_message : UploadContext → String
size_message context =
    String.◌++◌ "파일 용량 제한(" (String.◌++◌ (decimal context.max_upload_size_mb) "MB)을 초과했습니다.")

abbrev pub engine_of : Text → Engine
engine_of filename = if ends_with (codes ".xls") filename then xlrd else openpyxl

unfoldable pub validate_upload_request :
    UploadCommand → UploadedFileInput → UploadContext → Result UploadFileMeta
validate_upload_request command file_input context =
    if not command.context.csrf_valid
    then err (auth_error 403 "CSRF 토큰 검증에 실패했습니다.")
    else if not (has_excel_extension context.filename)
    then err (validation_error 400 "엑셀 파일(.xlsx, .xls)만 업로드 가능합니다.")
    else if ltb (max_size_bytes context) (length file_input.file)
    then err (validation_error 400 (size_message context))
    else if not (check_excel_magic_bytes (take 8 file_input.file) context.filename)
    then err (validation_error 400 "파일 형식이 선언된 확장자와 일치하지 않습니다.")
    else if is_unsupported context.content_type
    then err (validation_error 400 "지원하지 않는 파일 형식입니다.")
    else ok (record {
      file_size_bytes = length file_input.file;
      excel_engine = engine_of context.filename;
    })

-- the first bytes that the engine's format has
abbrev pub magic_of : Engine → List ℕ
magic_of xlrd = xls_magic
magic_of openpyxl = xlsx_magic

starts_with-take :
    (n : ℕ) (prefix text : Text)
    → length prefix ≤ n
    → starts_with prefix (take n text) ≡ starts_with prefix text
unfolding starts_with
starts_with-take n [] text h = refl
starts_with-take zero (c ∷ prefix) text h = absurd (omega arith)
starts_with-take (suc n) (c ∷ prefix) [] h = refl
starts_with-take (suc n) (c ∷ prefix) (d ∷ text) h =
    ap (λ b. c == d && b) (starts_with-take n prefix text (omega arith))

-- no text ends with both extensions: the reversed text begins with an x or with an s
one_extension :
    (reversed : Text)
    → starts_with (codes "xslx.") reversed ≡ true
    → starts_with (codes "slx.") reversed ≡ false
unfolding starts_with
one_extension [] h = refl
one_extension (c ∷ reversed) h = ground arith

-- the signature is the one of the engine
check-magic_of :
    (file : List ℕ) (filename : Text)
    → has_excel_extension filename ≡ true
    → check_excel_magic_bytes (take 8 file) filename
      ≡ starts_with (magic_of (engine_of filename)) file
unfolding check_excel_magic_bytes
check-magic_of file filename h = elim (Bool-cases (ends_with (codes ".xlsx") filename)) [
  | inl x ↦
      rw (x, one_extension (reversed_onto filename []) x)
        (starts_with-take 8 xlsx_magic file (omega arith))
  | inr x ↦
      let s : ends_with (codes ".xls") filename ≡ true = ground (arith, h, x) in
      rw (x, s) (starts_with-take 8 xls_magic file (omega arith))
]

-- An upload passes the checks exactly if its token is valid, its name has one of the two extensions, its
-- file is at most as long as allowed and begins with the signature of the format that the chosen engine
-- reads, and its content type is empty or allowed; the engine is chosen by the extension, and the length
-- reported is the file's.
pub validate_upload_request-ok_iff :
    (command : UploadCommand) (file_input : UploadedFileInput) (context : UploadContext)
    (meta : UploadFileMeta)
    → (validate_upload_request command file_input context ≡ ok meta) ↔ (
        (command.context.csrf_valid ≡ true)
        × (has_excel_extension context.filename ≡ true)
        × (length file_input.file ≤ max_size_bytes context)
        × (starts_with (magic_of meta.excel_engine) file_input.file ≡ true)
        × (is_unsupported context.content_type ≡ false)
        × (meta.excel_engine ≡ engine_of context.filename)
        × (meta.file_size_bytes ≡ length file_input.file))
unfolding validate_upload_request
validate_upload_request-ok_iff command file_input context meta = (
  λ e. elim (Bool-cases (has_excel_extension context.filename)) [
    | inl x ↦ ground (arith, check-magic_of file_input.file context.filename x)
    | inr x ↦ absurd (ground arith)
  ],
  λ e. ground (arith, check-magic_of file_input.file context.filename e.1),
)
