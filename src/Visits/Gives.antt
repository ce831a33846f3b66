-- ===== src/Visits/Gives.antt =====
-- What the normalisers of app/services/web_stats_normalizers.py promise of a value that they return.
use parcel_explorer.Prelude.{
  ℕ, ◌≤◌, ◌≡◌, ◌≢◌, inl, inr, refl, Text, codes, String, true, false, not, ◌||◌, ltb, Option, none,
  some, List, [], ◌∷◌, ◌++◌, pos, negsuc, take, length, length-take-le, strip, starts_with, arith,
  Bool-cases,
}
use mathlib.Core.Path.{subst}
use parcel_explorer.Geo.Service.{ServiceError}
use parcel_explorer.Events.Normalize.{Outcome, returned, raised, crashed}
use parcel_explorer.Visits.Normalize.{
  WebValues, ◌>>=◌, Integer, integer, not_integer, too_large, is_one_of, web_event_types,
  normalize_event_type, normalize_required_token, token, stripped_text, normalize_optional_string,
  shortened, normalize_optional_int, ranged, or_root, normalize_page_path, normalize_query_string,
  query_of, normalize_referrer_url, referrer_of, referrer_from, is_empty,
}

abbrev pub IsAtMost : ℕ → Option Text → Type 0
IsAtMost n none = Unit
IsAtMost n (some text) = length text ≤ n

abbrev pub IsSize : Option ℕ → Type 0
IsSize none = Unit
IsSize (some n) = n ≤ 20000

abbrev pub IsIdentifier : Text → Type 0
IsIdentifier text = (text ≢ []) × length text ≤ 128

pub record Gives {A : Type 0} (P : A → Type 0) (outcome : Outcome A) : Type 0 where
  pub holds : (a : A) → outcome ≡ returned a → P a

pub returned-injective : {A : Type 0} (a b : A) → returned a ≡ returned b → a ≡ b
returned-injective a b e = cc e

pub returned-Gives : {A : Type 0} {P : A → Type 0} (a : A) → P a → Gives P (returned a)
returned-Gives {P} a h = record { holds = λ b e. subst P (returned-injective a b e) h }

pub raised-Gives : {A : Type 0} {P : A → Type 0} (error : ServiceError) → Gives P (raised error)
raised-Gives error = record { holds = λ a e. absurd (ground (arith, e)) }

pub crashed-Gives : {A : Type 0} {P : A → Type 0} → Gives P crashed
crashed-Gives = record { holds = λ a e. absurd (ground (arith, e)) }

pub Gives-bind :
    {A B : Type 0} {P : A → Type 0} {Q : B → Type 0} (o : Outcome A) {k : A → Outcome B}
    → Gives P o
    → ((a : A) → P a → Gives Q (k a))
    → Gives Q (o >>= k)
Gives-bind (returned a) h f = f a (h.holds a refl)
Gives-bind (raised error) h f = raised-Gives error
Gives-bind crashed h f = crashed-Gives

module _ {V : Type 0} (values : WebValues V) where
  shortened-IsAtMost : (n : ℕ) (text : Text) → IsAtMost n (shortened values n text)
  shortened-IsAtMost n [] = tt
  shortened-IsAtMost n (c ∷ text) = length-take-le n (c ∷ text)

  pub optional_string-IsAtMost :
      (raw : Option V) (n : ℕ) → IsAtMost n (normalize_optional_string values raw n)
  unfolding normalize_optional_string
  optional_string-IsAtMost none n = tt
  optional_string-IsAtMost (some v) n = shortened-IsAtMost n (strip values.chars (values.str v))

  query_of-IsAtMost : (n : ℕ) (text : Text) → IsAtMost n (query_of values n text)
  query_of-IsAtMost n [] = tt
  query_of-IsAtMost n (c ∷ text) = elim (Bool-cases (starts_with (codes "?") (c ∷ text))) [
    | inl e ↦ rw e (length-take-le n text)
    | inr e ↦ rw e (length-take-le n (c ∷ text))
  ]

  pub query_string-IsAtMost :
      (raw : Option V) (n : ℕ) → IsAtMost n (normalize_query_string values raw n)
  unfolding normalize_query_string
  query_string-IsAtMost none n = tt
  query_string-IsAtMost (some v) n = query_of-IsAtMost n (strip values.chars (values.str v))

  pub referrer_url-IsAtMost : (raw : Option V) → IsAtMost 1024 (normalize_referrer_url values raw)
  unfolding normalize_referrer_url
  referrer_url-IsAtMost raw = from (normalize_optional_string values raw 2048)
    where
      of : (url : _) → IsAtMost 1024 (referrer_of values url)
      of none = tt
      of (some url) =
          elim (Bool-cases (
            not (is_one_of url.scheme (codes "http" ∷ codes "https" ∷ []))
            || is_empty values url.netloc)) [
              | inl e ↦ rw e tt
              | inr e ↦ rw e (
                  length-take-le 1024
                    (url.scheme ++ (codes "://" ++ (url.netloc ++ or_root values url.path))))
            ]

      from : (text : Option Text) → IsAtMost 1024 (referrer_from values text)
      from none = tt
      from (some text) = of (values.urlparse text)

  token-Gives : (message : String) (text : Text) → Gives IsIdentifier (token values message text)
  token-Gives message [] = raised-Gives _
  token-Gives message (c ∷ text) =
      returned-Gives (take 128 (c ∷ text)) (λ e. ground (arith, e), length-take-le 128 (c ∷ text))

  pub required_token-Gives :
      (raw : Option V) (message : String)
      → Gives IsIdentifier (normalize_required_token values raw message)
  unfolding normalize_required_token
  required_token-Gives raw message = token-Gives message (stripped_text values raw)

  pub event_type-Gives :
      (raw : Option V)
      → Gives (λ t. is_one_of t web_event_types ≡ true) (normalize_event_type values raw)
  unfolding normalize_event_type
  event_type-Gives raw = elim (Bool-cases (is_one_of (stripped_text values raw) web_event_types)) [
    | inl e ↦ rw e (returned-Gives (stripped_text values raw) e)
    | inr e ↦ rw e (raised-Gives _)
  ]

  ranged-Gives : (n : Integer) → Gives IsSize (ranged values 20000 n)
  ranged-Gives not_integer = raised-Gives _
  ranged-Gives too_large = crashed-Gives
  ranged-Gives (integer (negsuc n)) = returned-Gives none tt
  ranged-Gives (integer (pos n)) = elim (Bool-cases (ltb 20000 n)) [
    | inl e ↦ rw e (returned-Gives none tt)
    | inr e ↦ rw e (returned-Gives (some n) (ground (arith, e)))
  ]

  pub optional_int-Gives : (raw : Option V) → Gives IsSize (normalize_optional_int values raw 20000)
  unfolding normalize_optional_int
  optional_int-Gives none = returned-Gives none tt
  optional_int-Gives (some v) = elim (Bool-cases (values.is_empty_text v)) [
    | inl e ↦ rw e (returned-Gives none tt)
    | inr e ↦ rw e (ranged-Gives (values.int v))
  ]

  pub page_path-Gives :
      (raw : Option V) (allowed : List Text)
      → Gives
          (λ t. (is_one_of t allowed ≡ true) × length t ≤ 256)
          (normalize_page_path values raw allowed)
  unfolding normalize_page_path
  page_path-Gives raw allowed =
      elim (Bool-cases
        (not (starts_with (codes "/") (or_root values (stripped_text values raw))))) [
          | inl e ↦ rw e (raised-Gives _)
          | inr e ↦
              elim (Bool-cases (ltb 256 (length (or_root values (stripped_text values raw))))) [
                | inl f ↦ rw (e, f) (raised-Gives _)
                | inr f ↦
                    elim (Bool-cases
                      (is_one_of (or_root values (stripped_text values raw)) allowed)) [
                        | inr g ↦ rw (e, f, g) (raised-Gives _)
                        | inl g ↦
                            rw (e, f, g)
                              (returned-Gives (or_root values (stripped_text values raw))
                                (g, short f))
                      ]
              ]
        ]
    where
      short :
          ltb 256 (length (or_root values (stripped_text values raw))) ≡ false
          → length (or_root values (stripped_text values raw)) ≤ 256
      short f = ground (arith, f)
