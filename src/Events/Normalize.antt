-- ===== src/Events/Normalize.antt =====
-- The normalisers of app/services/map_event_service.py. `F` stands for floats.
use parcel_explorer.Prelude.{
  CharTests, strip, ℕ, String, Text, codes, Bool, not, ◌&&◌, Option, none, some, List, [], ◌∷◌,
  keep, take, if◌then◌else◌,
}
use parcel_explorer.Geo.Service.{ServiceError, validation_error}
use parcel_explorer.Upload.Rows.{Parsed, number, invalid, breaks}

-- What Python does with a JSON value: `str(v)`, `v == ""`, `not v`, `float(v)`; and `json.dumps` of
-- an object that begins with this `eventType`, `none` where it raises `TypeError` or `ValueError`.
pub record Values (V F : Type 0) : Type 0 where
  pub chars : CharTests
  pub str : V → Text
  pub is_empty_text : V → Bool
  pub is_falsy : V → Bool
  pub float : V → Parsed F
  pub dumps : String → List (String × Option V) → Option Text

pub record Floats (F : Type 0) : Type 0 where
  pub lt : F → F → Bool
  pub le : F → F → Bool
  pub of : ℕ → F

-- a value, a `ServiceError`, or any other exception
pub data Outcome (A : Type 0) : Type 0 where
  returned : A → Outcome A
  raised : ServiceError → Outcome A
  crashed : Outcome A

-- texts that are empty become `None`
abbrev pub non_empty : Text → Option Text
non_empty [] = none
non_empty (c ∷ text) = some (c ∷ text)

module _ {F : Type 0} (floats : Floats F) where
  abbrev pub is_between : F → ℕ → ℕ → Bool
  is_between min_area lower upper =
      floats.le (floats.of lower) min_area && floats.lt min_area (floats.of upper)

  abbrev pub bucket_among : F → List (ℕ × ℕ × String) → String
  bucket_among min_area [] = "1000+"
  bucket_among min_area ((lower, upper, label) ∷ buckets) =
      let rest = bucket_among min_area buckets in
      if is_between min_area lower upper then label else rest

  abbrev pub min_area_buckets : List (ℕ × ℕ × String)
  min_area_buckets =
      (0, 100, "0-99")
      ∷ (100, 200, "100-199")
      ∷ (200, 300, "200-299")
      ∷ (300, 500, "300-499")
      ∷ (500, 1000, "500-999")
      ∷ []

  unfoldable pub min_area_bucket_for : F → String
  min_area_bucket_for min_area = bucket_among min_area min_area_buckets

module _ {V F : Type 0} (values : Values V F) where
  unfoldable pub normalize_anon_id : Option V → Option Text
  normalize_anon_id none = none
  normalize_anon_id (some raw) = elim (strip values.chars (values.str raw)) [
    | [] ↦ none
    | c ∷ value ↦ some (take 128 (c ∷ value))
  ]

  unfoldable pub normalize_land_address : Option V → Text
  normalize_land_address none = []
  normalize_land_address (some raw) = take 500 (strip values.chars (values.str raw))

  -- str(raw or "").strip()
  abbrev pub term_text : Option V → Text
  term_text none = strip values.chars []
  term_text (some raw) = strip values.chars (if values.is_falsy raw then [] else values.str raw)

  abbrev pub without_digits : Text → Text
  without_digits text = keep (λ c. not (values.chars.is_digit c)) text

  unfoldable pub normalize_search_term : Option V → Text
  normalize_search_term raw = elim (term_text raw) [
    | [] ↦ []
    | c ∷ text ↦ take 200 (strip values.chars (without_digits (c ∷ text)))
  ]

  unfoldable pub normalize_raw_text : ℕ → Option V → Option Text
  normalize_raw_text max_length none = none
  normalize_raw_text max_length (some raw) = some (take max_length (values.str raw))

  unfoldable pub serialize_raw_payload : String → List (String × Option V) → Text
  serialize_raw_payload event_type payload = elim (values.dumps event_type payload) [
    | none ↦ codes "{}"
    | some text ↦ take 4000 text
  ]

  module _ (floats : Floats F) where
    abbrev pub check_area : Parsed F → Outcome F
    check_area invalid = raised (validation_error 400 "minArea must be a number.")
    check_area breaks = crashed
    check_area (number value) =
        if floats.lt value (floats.of 0)
        then raised (validation_error 400 "minArea must be >= 0.")
        else returned value

    unfoldable pub parse_min_area : Option V → Outcome F
    parse_min_area none = returned (floats.of 0)
    parse_min_area (some raw) =
        if values.is_empty_text raw then returned (floats.of 0) else check_area (values.float raw)
