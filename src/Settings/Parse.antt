-- ===== src/Settings/Parse.antt =====
-- The parsers of app/core/config.py. What Python's `int`, `float`, `str.lower` and `ipaddress.ip_network`
-- return is a parameter; a network and a float are values of any type.
use parcel_explorer.Prelude.{
  ℕ, Text, codes, String, Bool, true, false, ◌&&◌, ◌||◌, ◌==◌, leb, Option, none, some, List, [],
  ◌∷◌, ℤ, CharTests, text_eq, TextDict, find, if◌then◌else◌,
}
use parcel_explorer.Settings.EnvFile.{Characters, newline, onto_first}

-- `none` where `int`, `float` or `ip_network` raises `ValueError`
pub record Python (F N : Type 0) : Type 0 where
  pub characters : Characters
  pub lower : Text → Text
  pub to_int : Text → Option ℤ
  pub to_float : Text → Option F
  pub ip_network : Text → Option N

-- `SettingsError` with its message, and the `ValueError` of `int` and `float`.
pub data ConfigError : Type 0 where
  settings_error : Text → ConfigError
  value_error : ConfigError

pub data Loaded {ℓ} (A : Type ℓ) : Type ℓ where
  loaded : A → Loaded A
  failed : ConfigError → Loaded A

infixl 5 ◌>>=◌
-- one evaluation after another
abbrev pub ◌>>=◌ {ℓ κ} : {A : Type ℓ} {B : Type κ} → Loaded A → (A → Loaded B) → Loaded B
loaded a >>= k = k a
failed error >>= k = failed error

abbrev pub or_value_error {ℓ} : {A : Type ℓ} → Option A → Loaded A
or_value_error none = failed value_error
or_value_error (some a) = loaded a

-- value or default, of a text
abbrev pub or_text : Text → Text → Text
or_text [] other = other
or_text (c ∷ text) other = c ∷ text

-- text.split(c)
unfoldable pub split_on : ℕ → Text → List Text
split_on c [] = [] ∷ []
split_on c (d ∷ text) =
    let rest = split_on c text in if d == c then [] ∷ rest else onto_first d rest

abbrev pub is_among : Text → List Text → Bool
is_among text [] = false
is_among text (other ∷ texts) = text_eq other text || is_among text texts

-- the texts that are not yet seen
abbrev pub unseen : List Text → List Text → List Text
unseen seen [] = []
unseen seen (text ∷ texts) =
    let fresh = unseen (text ∷ seen) texts in
    let rest = unseen seen texts in if is_among text seen then rest else text ∷ fresh

-- list(dict.fromkeys(texts))
unfoldable pub fromkeys : List Text → List Text
fromkeys texts = unseen [] texts

abbrev pub all_text : (ℕ → Bool) → Text → Bool
all_text test [] = true
all_text test (c ∷ text) = test c && all_text test text

abbrev pub within : ℕ → ℕ → ℕ → Bool
within low high c = leb low c && leb c high

-- [A-Za-z0-9]
abbrev pub is_alphanumeric : ℕ → Bool
is_alphanumeric c = within b'A' b'Z' c || within b'a' b'z' c || within b'0' b'9' c

-- where `$` matches: at the end, or before a line break that ends the text
abbrev pub at_end : Text → Bool
at_end [] = true
at_end (c ∷ []) = c == newline
at_end (c ∷ d ∷ text) = false

-- one character for each test, then the end
abbrev pub matches : List (ℕ → Bool) → Text → Bool
matches [] text = at_end text
matches (test ∷ tests) [] = false
matches (test ∷ tests) (c ∷ text) = test c && matches tests text

abbrev pub repeated : ℕ → (ℕ → Bool) → List (ℕ → Bool) → List (ℕ → Bool)
repeated Prim.Native.Nat.zero test tests = tests
repeated (Prim.Native.Nat.suc n) test tests = test ∷ repeated n test tests

-- [A-Za-z0-9_.-]
abbrev pub is_cookie_char : ℕ → Bool
is_cookie_char c = is_alphanumeric c || (c == b'_' || c == b'.' || c == b'-')

-- the rest of a match of `is_cookie_char` once or more
abbrev matches_more : Text → Bool
matches_more [] = true
matches_more (c ∷ text) = at_end (c ∷ text) || (is_cookie_char c && matches_more text)

-- SESSION_COOKIE_NAME_RE.match
unfoldable pub is_cookie_name : Text → Bool
is_cookie_name [] = false
is_cookie_name (c ∷ text) = is_cookie_char c && matches_more text

-- BCRYPT_HASH_RE.match
unfoldable pub is_bcrypt_hash : CharTests → Text → Bool
is_bcrypt_hash chars text =
    matches
      ((λ c. c == b'$')
        ∷ (λ c. c == b'2')
        ∷ (λ c. c == b'a' || c == b'b' || c == b'y')
        ∷ (λ c. c == b'$')
        ∷ repeated 2 chars.is_digit
            ((λ c. c == b'$') ∷ repeated 53 (λ c. c == b'.' || c == b'/' || is_alphanumeric c) []))
      text

-- os.getenv(name)
abbrev pub getenv : TextDict Text → String → Option Text
getenv environ name = find (codes name) environ

abbrev pub or_default : Option Text → String → Text
or_default none text = codes text
or_default (some value) text = value

abbrev pub truths : List Text
truths = codes "1" ∷ codes "true" ∷ codes "yes" ∷ codes "on" ∷ []

abbrev pub falsehoods : List Text
falsehoods = codes "0" ∷ codes "false" ∷ codes "no" ∷ codes "off" ∷ []

abbrev pub max_allowed_web_track_paths : ℕ
max_allowed_web_track_paths = 20
