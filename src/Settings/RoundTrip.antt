-- ===== src/Settings/RoundTrip.antt =====
-- What the loader of app/core/config.py reads from a file that `update_env_file` wrote.
use parcel_explorer.Prelude.{
  ◌≡◌, refl, sym, ap, ◌∙◌, Text, true, Option, none, some, List, [], ◌∷◌, map, arith, text_eq,
  eq-of-text_eq, TextDict, find, drop_key, find-put, find-drop_key, Option-cases, Bool-cases, inl,
  inr, if◌then◌else◌,
}
use parcel_explorer.Settings.EnvFile.{
  Characters, entry_of, format_line, parse_entry, update_lines, updated_lines, load_entry,
  load_lines, set_default,
}
use parcel_explorer.Settings.Entries.{HasFormat, IsPlain, parse_entry-format, entry_of-format}

abbrev pub first_of : Option Text → Option Text → Option Text
first_of none other = other
first_of (some value) other = some value

module _ (cs : Characters) where
  -- the value of a line that sets `key`
  abbrev value_of : Text → Option (Text × Text) → Option Text
  value_of key none = none
  value_of key (some entry) =
      if text_eq (parse_entry cs entry).0 key then some (parse_entry cs entry).1 else none

  -- The value of the first line that sets `key`.
  unfoldable pub first_value : Text → List Text → Option Text
  first_value key [] = none
  first_value key (line ∷ lines) =
      first_of (value_of key (entry_of cs line)) (first_value key lines)

  -- the key up to the equals sign, as the writer takes it, is the key that the loader strips
  abbrev pub IsRegular : Text → Type 0
  IsRegular line =
      (entry : Text × Text) → entry_of cs line ≡ some entry → (parse_entry cs entry).0 ≡ entry.0

  abbrev pub AreRegular : List Text → Type 0
  AreRegular [] = Unit
  AreRegular (line ∷ lines) = IsRegular line × AreRegular lines

  abbrev pub ArePlain : TextDict Text → Type 0
  ArePlain [] = Unit
  ArePlain (entry ∷ entries) = IsPlain cs entry × ArePlain entries

  find-set_default :
      (key k v : Text) (environ : TextDict Text)
      → find key (set_default cs k v environ)
        ≡ first_of (find key environ) (if text_eq k key then some v else none)
  find-set_default key k v environ = go (find k environ) refl
    where
      go :
          (found : Option Text)
          → find k environ ≡ found
          → find key (set_default cs k v environ)
            ≡ first_of (find key environ) (if text_eq k key then some v else none)
      go none e = ground (arith, e, find-put k key v environ, eq-of-text_eq k key)
      go (some w) e = ground (arith, e, eq-of-text_eq k key)

  first_of_assoc : (a b c : Option Text) → first_of (first_of a b) c ≡ first_of a (first_of b c)
  first_of_assoc none b c = refl
  first_of_assoc (some a) b c = refl

  find-load_entry :
      (key : Text) (entry : Option (Text × Text)) (environ : TextDict Text)
      → find key (load_entry cs entry environ) ≡ first_of (find key environ) (value_of key entry)
  find-load_entry key none environ = ground arith
  find-load_entry key (some entry) environ =
      find-set_default key (parse_entry cs entry).0 (parse_entry cs entry).1 environ

  -- The loader keeps what the environment has, and takes the first line of each other key.
  pub find-load_lines :
      (key : Text) (lines : List Text) (environ : TextDict Text)
      → find key (load_lines cs lines environ) ≡ first_of (find key environ) (first_value key lines)
  unfolding load_lines first_value
  find-load_lines key [] environ = ground arith
  find-load_lines key (line ∷ lines) environ =
      find-load_lines key lines (load_entry cs (entry_of cs line) environ)
      ∙ (ap (λ v. first_of v (first_value key lines))
            (find-load_entry key (entry_of cs line) environ)
          ∙ first_of_assoc (find key environ) (value_of key (entry_of cs line))
              (first_value key lines))

module _ (cs : Characters) (f : HasFormat cs) where
  value_of-format :
      (key k v : Text)
      → IsPlain cs (k, v)
      → value_of cs key (entry_of cs (format_line cs (k, v)))
        ≡ (if text_eq k key then some v else none)
  value_of-format key k v h = rw (entry_of-format cs f k v h, parse_entry-format cs f k v h)

  -- the lines at the end of the file are the remaining updates
  first_value-added :
      (key : Text) (updates : TextDict Text)
      → ArePlain cs updates
      → first_value cs key (map (format_line cs) updates) ≡ find key updates
  unfolding first_value find
  first_value-added key [] h = refl
  first_value-added key ((k, v) ∷ updates) h =
      ground (arith, value_of-format key k v h.0, first_value-added key updates h.1)

  pub ArePlain-drop_key :
      (k : Text) (updates : TextDict Text) → ArePlain cs updates → ArePlain cs (drop_key k updates)
  unfolding drop_key
  ArePlain-drop_key k [] h = tt
  ArePlain-drop_key k ((j, v) ∷ updates) h = elim (Bool-cases (text_eq j k)) [
    | inl e ↦ rw e (ArePlain-drop_key k updates h.1)
    | inr e ↦ rw e (h.0, ArePlain-drop_key k updates h.1)
  ]

  pub IsPlain-find :
      (k v : Text) (updates : TextDict Text)
      → ArePlain cs updates
      → find k updates ≡ some v
      → IsPlain cs (k, v)
  unfolding find
  IsPlain-find k v [] h e = absurd (ground (arith, e))
  IsPlain-find k v ((j, w) ∷ updates) h e = elim (Bool-cases (text_eq j k)) [
    | inl t ↦ rw (sym (eq-of-text_eq j k t), sym (same t)) h.0
    | inr t ↦ IsPlain-find k v updates h.1 (ground (arith, t, e))
  ]
    where
      same : text_eq j k ≡ true → w ≡ v
      same t = ground (arith, t, e)

  pub updated_lines-skipped :
      (line : Text) (lines : List Text) (updates : TextDict Text)
      → entry_of cs line ≡ none
      → updated_lines cs (line ∷ lines) updates ≡ line ∷ updated_lines cs lines updates
  unfolding updated_lines update_lines
  updated_lines-skipped line lines updates e = ground (arith, e)

  pub updated_lines-kept :
      (line : Text) (lines : List Text) (updates : TextDict Text) (entry : Text × Text)
      → entry_of cs line ≡ some entry
      → find entry.0 updates ≡ none
      → updated_lines cs (line ∷ lines) updates ≡ line ∷ updated_lines cs lines updates
  unfolding updated_lines update_lines
  updated_lines-kept line lines updates entry e h = ground (arith, e, h)

  pub updated_lines-replaced :
      (line : Text) (lines : List Text) (updates : TextDict Text) (entry : Text × Text)
      (value : Text)
      → entry_of cs line ≡ some entry
      → find entry.0 updates ≡ some value
      → updated_lines cs (line ∷ lines) updates
        ≡ format_line cs (entry.0, value) ∷ updated_lines cs lines (drop_key entry.0 updates)
  unfolding updated_lines update_lines
  updated_lines-replaced line lines updates entry value e h = ground (arith, e, h)

  pub first_value-updated_lines :
      (key : Text) (lines : List Text) (updates : TextDict Text)
      → AreRegular cs lines
      → ArePlain cs updates
      → first_value cs key (updated_lines cs lines updates)
        ≡ first_of (find key updates) (first_value cs key lines)
  unfolding first_value updated_lines update_lines
  first_value-updated_lines key [] updates r p = first_value-added key updates p ∙ ground arith
  first_value-updated_lines key (line ∷ lines) updates r p =
      go (entry_of cs line) refl (first_value-updated_lines key lines updates r.1 p) (λ k.
        first_value-updated_lines key lines (drop_key k updates) r.1
          (ArePlain-drop_key k updates p))
    where
      go :
          (entry : Option (Text × Text))
          → entry_of cs line ≡ entry
          → first_value cs key (updated_lines cs lines updates)
            ≡ first_of (find key updates) (first_value cs key lines)
          → ((k : Text)
              → first_value cs key (updated_lines cs lines (drop_key k updates))
                ≡ first_of (find key (drop_key k updates)) (first_value cs key lines))
          → first_value cs key (updated_lines cs (line ∷ lines) updates)
            ≡ first_of (find key updates) (first_value cs key (line ∷ lines))
      go none e all one = rw (updated_lines-skipped line lines updates e, e) all
      go (some entry) e all one = elim (Option-cases (find entry.0 updates)) [
        | inl h ↦
            rw (updated_lines-kept line lines updates entry e h)
              (ground (arith, e, h, r.0 entry e, all, eq-of-text_eq entry.0 key))
        | inr (value, h) ↦ rw (updated_lines-replaced line lines updates entry value e h) (
            ground (
              arith,
              e,
              h,
              r.0 entry e,
              one entry.0,
              value_of-format key entry.0 value (IsPlain-find entry.0 value updates p h),
              find-drop_key entry.0 key updates,
              eq-of-text_eq entry.0 key,
            ))
      ]
