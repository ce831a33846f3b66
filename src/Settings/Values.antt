-- ===== src/Settings/Values.antt =====
-- The values that an update of the settings writes: what is cleaned, and what the environment then holds.
use parcel_explorer.Prelude.{
  ◌≡◌, ◌⊎◌, inl, inr, refl, sym, ap, ◌∙◌, Text, Option, none, some, [], ◌∷◌, arith, TextDict, find,
  put, find-put, eq-of-text_eq, HasDistinctTexts,
}
use parcel_explorer.Settings.EnvFile.{load_dotenv_if_present, lines_of}
use parcel_explorer.Settings.RoundTrip.{first_of, find-load_lines}
use parcel_explorer.Settings.Parse.{Python}
use parcel_explorer.Settings.Config.{load_environment}
use parcel_explorer.Settings.Fields.{
  Printer, collect_settings_updates, field_by_key, AdminSettingField,
}
use parcel_explorer.Settings.Update.{
  Cleaned, cleaned, invalid, then_cleaned, normalize_update_value, validate_updates, put_all,
}

-- python-dotenv does not override what the environment has
abbrev pub KeepsEnvironment : Option (Text → TextDict Text → TextDict Text) → Type 0
KeepsEnvironment none = Unit
KeepsEnvironment (some load_dotenv) =
    (file : Text) (environ : TextDict Text) (key value : Text)
    → find key environ ≡ some value
    → find key (load_dotenv file environ) ≡ some value

pub find-put_all :
    (key : Text) (values environ : TextDict Text)
    → HasDistinctTexts values
    → find key (put_all values environ) ≡ first_of (find key values) (find key environ)
unfolding find
find-put_all key [] environ h = refl
find-put_all key ((k, v) ∷ values) environ h =
    find-put_all key values (put k v environ) h.1
    ∙ ground (arith, find-put k key v environ, eq-of-text_eq k key, h.0)

module _ {F N : Type 0} (py : Python F N) (pr : Printer F N) where
  cleaned-injective : (s t : TextDict Text) → cleaned s ≡ cleaned t → s ≡ t
  cleaned-injective s t e = cc e

  validate_updates-step :
      (k v : Text) (updates values : TextDict Text)
      → validate_updates py pr ((k, v) ∷ updates) ≡ cleaned values
      → (validate_updates py pr updates ≡ cleaned values)
        ⊎ ((text : Text) × (texts : TextDict Text) × validate_updates py pr updates ≡ cleaned texts
            × values ≡ (k, text) ∷ texts)
  unfolding validate_updates
  validate_updates-step k v updates values = by_field (field_by_key F N k)
    where
      Step : Cleaned (TextDict Text) → Type 0
      Step rest =
          (rest ≡ cleaned values)
          ⊎ ((text : Text) × (texts : TextDict Text) × rest ≡ cleaned texts
              × values ≡ (k, text) ∷ texts)

      by_value :
          (text : Cleaned Text) (rest : Cleaned (TextDict Text))
          → then_cleaned text (λ t. then_cleaned rest (λ texts. cleaned ((k, t) ∷ texts)))
            ≡ cleaned values
          → Step rest
      by_value (invalid message) rest h = absurd (ground (arith, h))
      by_value (cleaned text) (invalid message) h = absurd (ground (arith, h))
      by_value (cleaned text) (cleaned texts) h =
          inr (text, texts, refl, sym (cleaned-injective ((k, text) ∷ texts) values h))

      by_field :
          (field : Option (AdminSettingField F N))
          → (elim field [
            | none ↦ validate_updates py pr updates
            | some f ↦ then_cleaned (normalize_update_value py pr f v) (λ t.
                then_cleaned (validate_updates py pr updates) (λ texts. cleaned ((k, t) ∷ texts)))
          ])
            ≡ cleaned values
          → Step (validate_updates py pr updates)
      by_field none h = inl h
      by_field (some f) h =
          by_value (normalize_update_value py pr f v) (validate_updates py pr updates) h

  -- a cleaned key is an updated key
  find-validate_updates :
      (key : Text) (updates values : TextDict Text)
      → validate_updates py pr updates ≡ cleaned values
      → find key updates ≡ none
      → find key values ≡ none
  unfolding validate_updates find
  find-validate_updates key [] values h n = ap (find key) (sym (cleaned-injective [] values h))
  find-validate_updates key ((k, v) ∷ updates) values h n =
      elim (validate_updates-step k v updates values h) [
        | inl e ↦ find-validate_updates key updates values e (ground (arith, n))
        | inr (text, texts, e, same) ↦
            rw same (ground (arith, n, find-validate_updates key updates texts e))
      ]

  pub HasDistinctTexts-validate_updates :
      (updates values : TextDict Text)
      → validate_updates py pr updates ≡ cleaned values
      → HasDistinctTexts updates
      → HasDistinctTexts values
  unfolding validate_updates
  HasDistinctTexts-validate_updates [] values h d = rw (sym (cleaned-injective [] values h)) tt
  HasDistinctTexts-validate_updates ((k, v) ∷ updates) values h d =
      elim (validate_updates-step k v updates values h) [
        | inl e ↦ HasDistinctTexts-validate_updates updates values e d.1
        | inr (text, texts, e, same) ↦ rw same (
          find-validate_updates k updates texts e d.0,
          HasDistinctTexts-validate_updates updates texts e d.1,
        )
      ]

  pub collected-HasDistinctTexts :
      (form : TextDict Text) → HasDistinctTexts (collect_settings_updates py pr form)
  unfolding collect_settings_updates find
  collected-HasDistinctTexts form = (
    refl,
    (
      refl,
      (
        refl,
        (
          refl,
          (
            refl,
            (
              refl,
              (refl, (refl, (refl, (refl, (refl, (refl, (refl, (refl, (refl, (refl, tt)))))))))),
            ),
          ),
        ),
      ),
    ),
  )

  pub load_environment-keeps :
      (dotenv : Option (Text → TextDict Text → TextDict Text)) (file : Option Text)
      (environ : TextDict Text) (key value : Text)
      → KeepsEnvironment dotenv
      → find key environ ≡ some value
      → find key (load_environment py dotenv file environ) ≡ some value
  unfolding load_dotenv_if_present
  load_environment-keeps dotenv none environ key value k h = h
  load_environment-keeps (some load_dotenv) (some file) environ key value k h =
      k file environ key value h
  load_environment-keeps none (some file) environ key value k h =
      find-load_lines py.characters key (lines_of py.characters (some file)) environ
      ∙ ground (arith, h)
