-- ===== src/Settings/Files.antt =====
-- The file as a text: what `update_env_file` wrote is what the loader reads, line by line.
use parcel_explorer.Prelude.{
  ℕ, ◌≡◌, refl, sym, ap, ◌∙◌, Text, Bool, true, false, ◌||◌, ◌==◌, Option, none, some, List, [],
  ◌∷◌, ◌++◌, map, arith, has_char, TextDict, find, drop_key, Option-cases, Bool-cases, inl, inr,
  if◌then◌else◌,
}
use parcel_explorer.Settings.EnvFile.{
  newline, carriage_return, equals_sign, quote, Characters, entry_of, format_env_value, format_line,
  update_lines, updated_lines, update_env_file, load_dotenv_if_present, universal_newlines,
  splitlines, onto_first, join_lines, write_text, read_lines, lines_of,
}
use parcel_explorer.Settings.Entries.{HasFormat, IsPlain, any_break}
use parcel_explorer.Settings.RoundTrip.{
  first_of, first_value, AreRegular, ArePlain, find-load_lines, first_value-updated_lines,
  updated_lines-skipped, updated_lines-kept, updated_lines-replaced, IsPlain-find,
  ArePlain-drop_key,
}

module _ (cs : Characters) where
  abbrev AreUnbroken : List Text → Type 0
  AreUnbroken [] = Unit
  AreUnbroken (line ∷ lines) = (any_break cs line ≡ false) × AreUnbroken lines

  any_break-append :
      (text more : Text)
      → any_break cs text ≡ false
      → any_break cs more ≡ false
      → any_break cs (text ++ more) ≡ false
  any_break-append [] more h k = k
  any_break-append (c ∷ text) more h k = ground (arith, h, k, any_break-append text more)

  onto_first-AreUnbroken :
      (c : ℕ) (lines : List Text)
      → cs.is_break c ≡ false
      → AreUnbroken lines
      → AreUnbroken (onto_first c lines)
  onto_first-AreUnbroken c [] h k = (rw h, tt)
  onto_first-AreUnbroken c (line ∷ lines) h k = (rw (h, k.0), k.1)

  splitlines-AreUnbroken : (text : Text) → AreUnbroken (splitlines cs.is_break text)
  unfolding splitlines
  splitlines-AreUnbroken [] = tt
  splitlines-AreUnbroken (c ∷ text) = elim (Bool-cases (cs.is_break c)) [
    | inl e ↦ rw e (refl, splitlines-AreUnbroken text)
    | inr e ↦
        rw e
          (onto_first-AreUnbroken c (splitlines cs.is_break text) e (splitlines-AreUnbroken text))
  ]

  lines_of-AreUnbroken : (file : Option Text) → AreUnbroken (lines_of cs file)
  lines_of-AreUnbroken none = tt
  lines_of-AreUnbroken (some file) = splitlines-AreUnbroken (universal_newlines file)

  AreUnbroken-append :
      (lines more : List Text) → AreUnbroken lines → AreUnbroken more → AreUnbroken (lines ++ more)
  AreUnbroken-append [] more h k = k
  AreUnbroken-append (line ∷ lines) more h k = (h.0, AreUnbroken-append lines more h.1 k)

  -- `splitlines` after one line
  splitlines-line :
      (line : Text) (c : ℕ) (text : Text)
      → any_break cs line ≡ false
      → cs.is_break c ≡ true
      → splitlines cs.is_break (line ++ c ∷ text) ≡ line ∷ splitlines cs.is_break text
  unfolding splitlines
  splitlines-line [] c text h k = rw k
  splitlines-line (d ∷ line) c text h k = elim (Bool-cases (cs.is_break d)) [
    | inl e ↦ absurd (ground (arith, e, h))
    | inr e ↦ rw (e, splitlines-line line c text (ground (arith, e, h)) k)
  ]

module _ (cs : Characters) (f : HasFormat cs) where
  splitlines-join_lines :
      (lines : List Text) → AreUnbroken cs lines → splitlines cs.is_break (join_lines lines) ≡ lines
  unfolding splitlines
  splitlines-join_lines [] h = refl
  splitlines-join_lines (line ∷ lines) h =
      splitlines-line cs line newline (join_lines lines) h.0 f.newline_breaks
      ∙ ap (◌∷◌ line) (splitlines-join_lines lines h.1)

  no_return : (text : Text) → any_break cs text ≡ false → has_char carriage_return text ≡ false
  no_return [] h = refl
  no_return (c ∷ text) h = elim (Bool-cases (carriage_return == c)) [
    | inl e ↦ absurd (ground (arith, f.return_breaks, ap cs.is_break (same e), h))
    | inr e ↦ rw (e, no_return text (rest h))
  ]
    where
      same : (carriage_return == c) ≡ true → carriage_return ≡ c
      same e = ground (arith, e)

      rest : any_break cs (c ∷ text) ≡ false → any_break cs text ≡ false
      rest h = ground (arith, h)

  universal_newlines-id :
      (text : Text) → has_char carriage_return text ≡ false → universal_newlines text ≡ text
  unfolding universal_newlines
  universal_newlines-id [] h = refl
  universal_newlines-id (c ∷ []) h = ground (arith, h)
  universal_newlines-id (c ∷ d ∷ text) h = ground (arith, h, universal_newlines-id (d ∷ text))

  has_char-append :
      (c : ℕ) (text more : Text)
      → has_char c text ≡ false
      → has_char c more ≡ false
      → has_char c (text ++ more) ≡ false
  has_char-append c [] more h k = k
  has_char-append c (d ∷ text) more h k = ground (arith, h, k, has_char-append c text more)

  no_return-join_lines :
      (lines : List Text)
      → AreUnbroken cs lines
      → has_char carriage_return (join_lines lines) ≡ false
  no_return-join_lines [] h = refl
  no_return-join_lines (line ∷ lines) h =
      has_char-append carriage_return line (newline ∷ join_lines lines) (no_return line h.0)
        (no_return-join_lines lines h.1)

  read_lines-join_lines :
      (lines : List Text) → AreUnbroken cs lines → read_lines cs (join_lines lines) ≡ lines
  read_lines-join_lines lines h =
      ap (splitlines cs.is_break)
        (universal_newlines-id (join_lines lines) (no_return-join_lines lines h))
      ∙ splitlines-join_lines lines h

  format-unbroken : (k v : Text) → IsPlain cs (k, v) → any_break cs (format_line cs (k, v)) ≡ false
  unfolding format_env_value
  format-unbroken k v h =
      any_break-append cs k (equals_sign ∷ format_env_value cs v) h.one_line_key
        (rw (f.equals_inside, value))
    where
      quoted : any_break cs (v ++ quote ∷ []) ≡ false
      quoted = any_break-append cs v (quote ∷ []) h.one_line_value (rw f.quote_inside)

      value : any_break cs (format_env_value cs v) ≡ false
      value = ground (arith, f.quote_inside, quoted, h.one_line_value)

  added-AreUnbroken :
      (updates : TextDict Text)
      → ArePlain cs updates
      → AreUnbroken cs (map (format_line cs) updates)
  added-AreUnbroken [] h = tt
  added-AreUnbroken ((k, v) ∷ updates) h = (format-unbroken k v h.0, added-AreUnbroken updates h.1)

  updated_lines-AreUnbroken :
      (lines : List Text) (updates : TextDict Text)
      → AreUnbroken cs lines
      → ArePlain cs updates
      → AreUnbroken cs (updated_lines cs lines updates)
  unfolding updated_lines update_lines
  updated_lines-AreUnbroken [] updates h p = added-AreUnbroken updates p
  updated_lines-AreUnbroken (line ∷ lines) updates h p =
      go (entry_of cs line) refl (updated_lines-AreUnbroken lines updates h.1 p) (λ k.
        updated_lines-AreUnbroken lines (drop_key k updates) h.1
          (ArePlain-drop_key cs f k updates p))
    where
      go :
          (entry : Option (Text × Text))
          → entry_of cs line ≡ entry
          → AreUnbroken cs (updated_lines cs lines updates)
          → ((k : Text) → AreUnbroken cs (updated_lines cs lines (drop_key k updates)))
          → AreUnbroken cs (updated_lines cs (line ∷ lines) updates)
      go none e all one = rw (updated_lines-skipped cs f line lines updates e) (h.0, all)
      go (some entry) e all one = elim (Option-cases (find entry.0 updates)) [
        | inl k ↦ rw (updated_lines-kept cs f line lines updates entry e k) (h.0, all)
        | inr (value, k) ↦ rw (updated_lines-replaced cs f line lines updates entry value e k) (
          format-unbroken entry.0 value (IsPlain-find cs f entry.0 value updates p k),
          one entry.0,
        )
      ]

  -- one line with nothing in it says what no line says
  first_value-write_text :
      (key : Text) (lines : List Text)
      → AreUnbroken cs lines
      → first_value cs key (read_lines cs (write_text lines)) ≡ first_value cs key lines
  unfolding write_text first_value entry_of parcel_explorer.Prelude.strip
  first_value-write_text key [] h =
      ap (first_value cs key) (read_lines-join_lines ([] ∷ []) (refl, tt))
  first_value-write_text key (line ∷ lines) h =
      ap (first_value cs key) (read_lines-join_lines (line ∷ lines) h)

  -- After `update_env_file` the file sets each updated key to its new value and every other key to what
  -- the old file set it to: the loader of config.py that stands in for python-dotenv takes that value for
  -- each key that the environment does not have. The updates are entries of one line with nothing that the
  -- loader strips or cuts, in the old file no key has a space before its equals sign, and the tests of
  -- characters tell equals sign and quotation mark from spaces and line breaks.
  pub load-update_env_file :
      (file : Option Text) (updates environ : TextDict Text) (key : Text)
      → AreRegular cs (lines_of cs file)
      → ArePlain cs updates
      → find key (load_dotenv_if_present cs (some (update_env_file cs file updates)) environ)
        ≡ first_of
            (find key environ)
            (first_of (find key updates) (find key (load_dotenv_if_present cs file [])))
  unfolding load_dotenv_if_present update_env_file find
  load-update_env_file file updates environ key r p =
      rw
        (
          find-load_lines cs key (lines_of cs file) [],
          find-load_lines cs key
              (read_lines cs (write_text (updated_lines cs (lines_of cs file) updates))) environ,
          first_value-write_text key (updated_lines cs (lines_of cs file) updates) (
              updated_lines-AreUnbroken (lines_of cs file) updates (lines_of-AreUnbroken cs file)
                p),
          first_value-updated_lines cs f key (lines_of cs file) updates r p,
        )
        refl
