-- ===== src/Settings/Entries.antt =====
-- A line that `update_env_file` writes is read back as the entry that it was written for.
use parcel_explorer.Prelude.{
  ℕ, ◌≡◌, refl, Text, Bool, true, false, ◌||◌, ◌==◌, some, [], ◌∷◌, ◌++◌, arith, strip, has_char,
  cut_at-append, Bool-cases, inl, inr,
}
use parcel_explorer.Settings.EnvFile.{
  newline, carriage_return, equals_sign, hash, quote, apostrophe, Characters, unless_comment,
  entry_of, format_env_value, format_line, is_only, parse_entry,
}
use parcel_explorer.Settings.Lines.{
  IsStripped, lstrip-append, lstrip-cons, rstrip-cons, rstrip-append, strip-IsStripped,
  strip-around,
}

-- What Python's tests say of the characters that the file format uses.
pub record HasFormat (cs : Characters) : Type 0 where
  pub equals_kept : cs.chars.is_space equals_sign ≡ false
  pub quote_kept : cs.chars.is_space quote ≡ false
  pub equals_inside : cs.is_break equals_sign ≡ false
  pub quote_inside : cs.is_break quote ≡ false
  pub newline_breaks : cs.is_break newline ≡ true
  pub return_breaks : cs.is_break carriage_return ≡ true

-- no line break in the text
abbrev pub any_break : Characters → Text → Bool
any_break cs [] = false
any_break cs (c ∷ text) = cs.is_break c || any_break cs text

-- An entry with nothing that the reader of the file would drop or cut.
pub record IsPlain (cs : Characters) (entry : Text × Text) : Type 0 where
  pub no_comment : unless_comment cs entry.0 ≡ some entry.0
  pub no_equals : has_char equals_sign entry.0 ≡ false
  pub one_line_key : any_break cs entry.0 ≡ false
  pub one_line_value : any_break cs entry.1 ≡ false
  pub key : IsStripped cs.chars entry.0
  pub value : IsStripped cs.chars entry.1
  pub unquoted : IsStripped (is_only cs quote) entry.1
  pub bare : IsStripped (is_only cs apostrophe) entry.1

module _ (cs : Characters) (f : HasFormat cs) where
  format-IsStripped :
      (value : Text) → IsStripped cs.chars value → IsStripped cs.chars (format_env_value cs value)
  unfolding format_env_value
  format-IsStripped value h = elim (Bool-cases (has_char b' ' value || has_char hash value)) [
    | inr e ↦ rw e h
    | inl e ↦ rw e quoted
  ]
    where
      quoted : IsStripped cs.chars (quote ∷ value ++ quote ∷ [])
      quoted = record {
        left = lstrip-cons cs.chars quote (value ++ quote ∷ []) f.quote_kept;
        right =
            rstrip-append cs.chars (quote ∷ value) quote []
              (rstrip-cons cs.chars quote [] f.quote_kept refl);
      }

  -- `strip('"')` takes the quotes off again
  unquote-format :
      (value : Text)
      → IsStripped (is_only cs quote) value
      → strip (is_only cs quote) (format_env_value cs value) ≡ value
  unfolding format_env_value
  unquote-format [] h = strip-IsStripped (is_only cs quote) [] h
  unquote-format (c ∷ value) h =
      elim (Bool-cases (has_char b' ' (c ∷ value) || has_char hash (c ∷ value))) [
        | inr e ↦ rw (e, strip-IsStripped (is_only cs quote) (c ∷ value) h)
        | inl e ↦ rw (e, strip-around (is_only cs quote) quote c value refl h)
      ]

  pub parse_entry-format :
      (key value : Text)
      → IsPlain cs (key, value)
      → parse_entry cs (key, format_env_value cs value) ≡ (key, value)
  unfolding parse_entry
  parse_entry-format key value h = rw (
    strip-IsStripped cs.chars key h.key,
    strip-IsStripped cs.chars (format_env_value cs value) (format-IsStripped value h.value),
    unquote-format value h.unquoted,
    strip-IsStripped (is_only cs apostrophe) value h.bare,
  )

  -- the line as `update_env_file` and the loader see it
  line-IsStripped :
      (c : ℕ) (key value : Text)
      → IsStripped cs.chars (c ∷ key)
      → IsStripped cs.chars value
      → IsStripped cs.chars (format_line cs (c ∷ key, value))
  line-IsStripped c key value h k = record {
    left = lstrip-append cs.chars c key (equals_sign ∷ format_env_value cs value) h.left;
    right = rstrip-append cs.chars (c ∷ key) equals_sign (format_env_value cs value) (
        rstrip-cons cs.chars equals_sign (format_env_value cs value) f.equals_kept
          (format-IsStripped value k).right);
  }

  comment-append :
      (c : ℕ) (key more : Text)
      → unless_comment cs (c ∷ key) ≡ some (c ∷ key)
      → unless_comment cs (c ∷ key ++ more) ≡ some (c ∷ key ++ more)
  comment-append c key more h = elim (Bool-cases (c == hash)) [
    | inl e ↦ absurd (ground (arith, e, h))
    | inr e ↦ rw e
  ]

  pub entry_of-format :
      (key value : Text)
      → IsPlain cs (key, value)
      → entry_of cs (format_line cs (key, value)) ≡ some (key, format_env_value cs value)
  unfolding entry_of
  entry_of-format [] value h = absurd (ground (arith, h.no_comment))
  entry_of-format (c ∷ key) value h = rw (
    strip-IsStripped cs.chars (format_line cs (c ∷ key, value))
        (line-IsStripped c key value h.key h.value),
    comment-append c key (equals_sign ∷ format_env_value cs value) h.no_comment,
    cut_at-append equals_sign (c ∷ key) (format_env_value cs value) h.no_equals,
  )
