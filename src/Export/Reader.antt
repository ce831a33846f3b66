-- ===== src/Export/Reader.antt =====
-- A reader of CSV files by RFC 4180, which knows nothing of the writer: it goes through the text once, and refuses
-- a text that is not well formed.
use parcel_explorer.Prelude.{ℕ, Text, ◌==◌, Option, none, some, List, [], ◌∷◌, if◌then◌else◌}
use parcel_explorer.Export.Csv.{comma, quotation, return, line_feed}

-- Where the reader is: at the start of a record or of another field, inside a field, inside a quoted field, after a
-- quotation mark in a quoted field, and between the two characters of a line end.
pub data Place : Type 0 where
  at_record at_field in_plain in_quoted after_quote in_line_end : Place

-- what a character does to the records that follow it
pub data Action : Type 0 where
  skip add next_field end_record refuse : Action

abbrev pub start_step : ℕ → Place × Action
start_step c =
    if c == quotation
    then (in_quoted, skip)
    else if c == comma
    then (at_field, next_field)
    else if c == return
    then (in_line_end, skip)
    else if c == line_feed
    then (at_record, refuse)
    else (in_plain, add)

abbrev pub plain_step : ℕ → Place × Action
plain_step c =
    if c == quotation
    then (in_plain, refuse)
    else if c == comma
    then (at_field, next_field)
    else if c == return
    then (in_line_end, skip)
    else if c == line_feed
    then (at_record, refuse)
    else (in_plain, add)

abbrev pub closed_step : ℕ → Place × Action
closed_step c =
    if c == quotation
    then (in_quoted, add)
    else if c == comma
    then (at_field, next_field)
    else if c == return
    then (in_line_end, skip)
    else (after_quote, refuse)

abbrev pub step : Place → ℕ → Place × Action
step at_record c = start_step c
step at_field c = start_step c
step in_plain c = plain_step c
step in_quoted c = if c == quotation then (after_quote, skip) else (in_quoted, add)
step after_quote c = closed_step c
step in_line_end c = if c == line_feed then (at_record, end_record) else (at_record, refuse)

-- the records of the whole text, from those of the text after the character
abbrev pub act : Action → ℕ → Option (List (List Text)) → Option (List (List Text))
act skip c records = records
act add c (some ((field ∷ fields) ∷ records)) = some (((c ∷ field) ∷ fields) ∷ records)
act next_field c (some (fields ∷ records)) = some (([] ∷ fields) ∷ records)
act end_record c (some records) = some (([] ∷ []) ∷ records)
act _ c _ = none

abbrev pub at_text_end : Place → Option (List (List Text))
at_text_end at_record = some []
at_text_end in_quoted = none
at_text_end in_line_end = none
at_text_end _ = some (([] ∷ []) ∷ [])

unfoldable pub read_from : Place → Text → Option (List (List Text))
read_from place [] = at_text_end place
read_from place (c ∷ text) = act (step place c).1 c (read_from (step place c).0 text)

unfoldable pub read_csv : Text → Option (List (List Text))
read_csv text = read_from at_record text
