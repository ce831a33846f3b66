-- ===== src/Export/RoundTrip.antt =====
-- The reader gets back the fields that the writer was given.
use parcel_explorer.Prelude.{
  ℕ, ◌≡◌, refl, ap, ◌∙◌, Text, false, ◌==◌, Option, some, List, [], ◌∷◌, ◌++◌, map, arith,
  Bool-cases, inl, inr,
}
use mathlib.Core.List.{append_assoc, append-nil}
use parcel_explorer.Events.Store.{RawQuery}
use parcel_explorer.Export.Csv.{
  comma, quotation, return, line_feed, has_special, doubled, quote_field, line_end, write_fields,
  writerow, write_rows, column_names, cells, render_raw_query_csv,
}
use parcel_explorer.Export.Reader.{
  at_record, at_field, in_plain, in_quoted, after_quote, act, add, next_field, end_record,
  read_from, read_csv,
}

-- the text in front of the first field
abbrev add_all : Text → Option (List (List Text)) → Option (List (List Text))
add_all [] records = records
add_all (c ∷ text) records = act add c (add_all text records)

add_all-some :
    (text field : Text) (fields : List Text) (records : List (List Text))
    → add_all text (some ((field ∷ fields) ∷ records)) ≡ some (((text ++ field) ∷ fields) ∷ records)
add_all-some [] field fields records = refl
add_all-some (c ∷ text) field fields records =
    ap (act add c) (add_all-some text field fields records)

read_from-doubled :
    (text rest : Text)
    → read_from in_quoted (doubled text ++ quotation ∷ rest)
      ≡ add_all text (read_from after_quote rest)
unfolding read_from
read_from-doubled [] rest = refl
read_from-doubled (c ∷ text) rest = elim (Bool-cases (c == quotation)) [
  | inl e ↦ ground (arith, e, read_from-doubled text rest)
  | inr e ↦ ground (arith, e, read_from-doubled text rest)
]

read_from-plain :
    (text rest : Text)
    → has_special text ≡ false
    → read_from in_plain (text ++ rest) ≡ add_all text (read_from in_plain rest)
unfolding read_from
read_from-plain [] rest h = refl
read_from-plain (c ∷ text) rest h = ground (arith, h, read_from-plain text rest)

-- a record and another field start in the same way
read_from-start :
    (c : ℕ) (text : Text) → read_from at_record (c ∷ text) ≡ read_from at_field (c ∷ text)
unfolding read_from
read_from-start c text = refl

-- a quoted or plain field, then what follows it, read from the start of a field
read_from-quote_field :
    (field : Text) (c : ℕ) (rest : Text) (records : Option (List (List Text)))
    → read_from in_plain (c ∷ rest) ≡ records
    → read_from after_quote (c ∷ rest) ≡ records
    → read_from at_field (c ∷ rest) ≡ records
    → read_from at_field (quote_field field ++ c ∷ rest) ≡ add_all field records
unfolding read_from quote_field
read_from-quote_field field c rest records p q f = elim (Bool-cases (has_special field)) [
  | inl e ↦ rw e (
      ap (read_from in_quoted) (append_assoc (doubled field) (quotation ∷ []) (c ∷ rest))
      ∙ (read_from-doubled field (c ∷ rest) ∙ ap (add_all field) q))
  | inr e ↦ rw e (plain field e)
]
  where
    plain :
        (text : Text)
        → has_special text ≡ false
        → read_from at_field (text ++ c ∷ rest) ≡ add_all text records
    plain [] e = f
    plain (d ∷ text) e = ground (arith, e, p, read_from-plain text (c ∷ rest))

read_from-write_fields :
    (field : Text) (fields : List Text) (rest : Text) (records : List (List Text))
    → read_from at_record rest ≡ some records
    → read_from at_field (write_fields field fields ++ rest) ≡ some ((field ∷ fields) ∷ records)
unfolding read_from
read_from-write_fields field [] rest records h =
    ap (read_from at_field) (append_assoc (quote_field field) line_end rest)
    ∙ (read_from-quote_field field return (line_feed ∷ rest) (some (([] ∷ []) ∷ records)) ended
          ended ended
        ∙ (add_all-some field [] [] records
            ∙ ap (λ f. some ((f ∷ []) ∷ records)) (append-nil field)))
  where
    ended : act end_record line_feed (read_from at_record rest) ≡ some (([] ∷ []) ∷ records)
    ended = ap (act end_record line_feed) h
read_from-write_fields field (field' ∷ fields) rest records h =
    ap (read_from at_field)
      (append_assoc (quote_field field) (comma ∷ write_fields field' fields) rest)
    ∙ (read_from-quote_field field comma (write_fields field' fields ++ rest)
          (some (([] ∷ field' ∷ fields) ∷ records))
          (following (read_from-write_fields field' fields rest records h))
          (following (read_from-write_fields field' fields rest records h))
          (following (read_from-write_fields field' fields rest records h))
        ∙ (add_all-some field [] (field' ∷ fields) records
            ∙ ap (λ f. some ((f ∷ field' ∷ fields) ∷ records)) (append-nil field)))
  where
    following :
        read_from at_field (write_fields field' fields ++ rest) ≡ some ((field' ∷ fields) ∷ records)
        → act next_field comma (read_from at_field (write_fields field' fields ++ rest))
          ≡ some (([] ∷ field' ∷ fields) ∷ records)
    following e = ap (act next_field comma) e

start-write_fields :
    (field : Text) (fields : List Text) (rest : Text)
    → read_from at_record (write_fields field fields ++ rest)
      ≡ read_from at_field (write_fields field fields ++ rest)
unfolding read_from quote_field
start-write_fields [] [] rest = refl
start-write_fields [] (field' ∷ fields) rest = refl
start-write_fields (c ∷ field) [] rest = elim (Bool-cases (has_special (c ∷ field))) [
  | inl e ↦ rw e
  | inr e ↦ rw e
]
start-write_fields (c ∷ field) (field' ∷ fields) rest =
    elim (Bool-cases (has_special (c ∷ field))) [ inl e ↦ rw e | inr e ↦ rw e ]

writerow-several :
    (field field' : Text) (fields : List Text)
    → writerow (field ∷ field' ∷ fields) ≡ write_fields field (field' ∷ fields)
unfolding writerow
writerow-several [] field' fields = refl
writerow-several (c ∷ field) field' fields = refl

read_from-writerow :
    (field field' : Text) (fields : List Text) (rest : Text) (records : List (List Text))
    → read_from at_record rest ≡ some records
    → read_from at_record (writerow (field ∷ field' ∷ fields) ++ rest)
      ≡ some ((field ∷ field' ∷ fields) ∷ records)
read_from-writerow field field' fields rest records h =
    ap (λ text. read_from at_record (text ++ rest)) (writerow-several field field' fields)
    ∙ (start-write_fields field (field' ∷ fields) rest
        ∙ read_from-write_fields field (field' ∷ fields) rest records h)

read_from-rows :
    (rows : List RawQuery)
    → read_from at_record (write_rows (map cells rows)) ≡ some (map cells rows)
unfolding read_from
read_from-rows [] = refl
read_from-rows (row ∷ rows) =
    read_from-writerow _ _ _ (write_rows (map cells rows)) (map cells rows) (read_from-rows rows)

-- A reader of CSV files gets from the exported text the column names and then, for each row, its cells, whatever
-- commas, quotation marks and line breaks the recorded texts hold.
pub read_csv-render_raw_query_csv :
    (rows : List RawQuery) (effective_limit : ℕ)
    → read_csv (render_raw_query_csv rows effective_limit).csv_text
      ≡ some (column_names ∷ map cells rows)
unfolding read_csv render_raw_query_csv
read_csv-render_raw_query_csv rows effective_limit =
    read_from-writerow _ _ _ (write_rows (map cells rows)) (map cells rows) (read_from-rows rows)
