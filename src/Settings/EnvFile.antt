-- ===== src/Settings/EnvFile.antt =====
-- The file `.env`: `update_env_file` of app/services/admin_settings_service.py, which writes it, and the
-- parser of app/core/config.py, which reads it where python-dotenv cannot be used. A file is its text.
use parcel_explorer.Prelude.{
  ℕ, Text, Bool, false, ◌||◌, ◌==◌, Option, none, some, List, [], ◌∷◌, ◌++◌, map, CharTests, strip,
  cut_at, has_char, TextDict, find, put, drop_key, if◌then◌else◌,
}

abbrev pub newline : ℕ
newline = b'\n'

abbrev pub carriage_return : ℕ
carriage_return = 13

abbrev pub equals_sign : ℕ
equals_sign = b'='

abbrev pub hash : ℕ
hash = b'#'

abbrev pub quote : ℕ
quote = b'"'

abbrev pub apostrophe : ℕ
apostrophe = 39

-- reading a file as text: each of \r\n and \r is read as \n
unfoldable pub universal_newlines : Text → Text
universal_newlines [] = []
universal_newlines (c ∷ []) = if c == carriage_return then newline ∷ [] else c ∷ []
universal_newlines (c ∷ d ∷ text) =
    let rest = universal_newlines (d ∷ text) in
    let skipped = universal_newlines text in
    if c == carriage_return
    then (if d == newline then newline ∷ skipped else newline ∷ rest)
    else c ∷ rest

abbrev pub onto_first : ℕ → List Text → List Text
onto_first c [] = (c ∷ []) ∷ []
onto_first c (line ∷ lines) = (c ∷ line) ∷ lines

-- text.splitlines()
unfoldable pub splitlines : (ℕ → Bool) → Text → List Text
splitlines is_break [] = []
splitlines is_break (c ∷ text) =
    let rest = splitlines is_break text in if is_break c then [] ∷ rest else onto_first c rest

-- "\n".join(lines) + "\n", of at least one line
abbrev pub join_lines : List Text → Text
join_lines [] = []
join_lines (line ∷ lines) = line ++ newline ∷ join_lines lines

-- the same of no line is the line break alone
unfoldable pub write_text : List Text → Text
write_text [] = newline ∷ []
write_text (line ∷ lines) = join_lines (line ∷ lines)

-- What Python holds of a code point, and the line breaks of `splitlines`.
pub record Characters : Type 0 where
  pub chars : CharTests
  pub is_break : ℕ → Bool

module _ (cs : Characters) where
  -- the stripped line, if it is neither empty nor a comment
  abbrev pub unless_comment : Text → Option Text
  unless_comment [] = none
  unless_comment (c ∷ line) = if c == hash then none else some (c ∷ line)

  abbrev pub cut_entry : Option Text → Option (Text × Text)
  cut_entry none = none
  cut_entry (some line) = cut_at equals_sign line

  -- `key, value = stripped.split("=", 1)`, of a line with an entry
  unfoldable pub entry_of : Text → Option (Text × Text)
  entry_of line = cut_entry (unless_comment (strip cs.chars line))

  unfoldable pub format_env_value : Text → Text
  format_env_value value =
      if has_char b' ' value || has_char hash value then quote ∷ value ++ quote ∷ [] else value

  -- f"{key}={_format_env_value(value)}"
  abbrev pub format_line : Text × Text → Text
  format_line (key, value) = key ++ equals_sign ∷ format_env_value value

  abbrev pub keep_line : Text → List Text × TextDict Text → List Text × TextDict Text
  keep_line line rest = (line ∷ rest.0, rest.1)

  -- The lines that replace the old ones, and what remains of the updates.
  unfoldable pub update_lines : List Text → TextDict Text → List Text × TextDict Text
  update_lines [] remaining = ([], remaining)
  update_lines (line ∷ lines) remaining = elim (entry_of line) [
    | none ↦ keep_line line (update_lines lines remaining)
    | some entry ↦ elim (find entry.0 remaining) [
      | none ↦ keep_line line (update_lines lines remaining)
      | some value ↦
          keep_line (format_line (entry.0, value)) (update_lines lines (drop_key entry.0 remaining))
    ]
  ]

  -- the lines of the new file
  unfoldable pub updated_lines : List Text → TextDict Text → List Text
  updated_lines lines updates =
      (update_lines lines updates).0 ++ map format_line (update_lines lines updates).1

  -- env_path.read_text().splitlines()
  abbrev pub read_lines : Text → List Text
  read_lines file = splitlines cs.is_break (universal_newlines file)

  abbrev pub lines_of : Option Text → List Text
  lines_of none = []
  lines_of (some file) = read_lines file

  -- `none` is a file that does not exist
  unfoldable pub update_env_file : Option Text → TextDict Text → Text
  update_env_file file updates = write_text (updated_lines (lines_of file) updates)

  -- text.strip(c), for one code point
  abbrev pub is_only : ℕ → CharTests
  is_only c = record { is_space = λ d. d == c; is_digit = λ d. false }

  -- `key.strip()`, and `value.strip().strip('"').strip("'")`
  unfoldable pub parse_entry : Text × Text → Text × Text
  parse_entry (key, value) = (
    strip cs.chars key,
    strip (is_only apostrophe) (strip (is_only quote) (strip cs.chars value)),
  )

  -- os.environ.setdefault(key, value)
  abbrev pub set_default : Text → Text → TextDict Text → TextDict Text
  set_default key value environ = elim (find key environ) [
    | none ↦ put key value environ
    | some _ ↦ environ
  ]

  abbrev pub load_entry : Option (Text × Text) → TextDict Text → TextDict Text
  load_entry none environ = environ
  load_entry (some entry) environ =
      let (key, value) = parse_entry entry in set_default key value environ

  unfoldable pub load_lines : List Text → TextDict Text → TextDict Text
  load_lines [] environ = environ
  load_lines (line ∷ lines) environ = load_lines lines (load_entry (entry_of line) environ)

  -- `_load_dotenv_if_present`, where the import of python-dotenv fails
  unfoldable pub load_dotenv_if_present : Option Text → TextDict Text → TextDict Text
  load_dotenv_if_present file environ = load_lines (lines_of file) environ
