-- ===== src/Settings/Ensures.antt =====
-- What the parsers of app/core/config.py promise of a value that they return.
use parcel_explorer.Prelude.{
  ℕ, String, ◌≤◌, ◌≡◌, ◌≢◌, refl, Text, codes, true, Option, none, some, List, [], ◌∷◌, arith,
  TextDict, lstrip, starts_with, length, ltb, Bool-cases, inl, inr,
}
use mathlib.Core.Path.{subst}
use parcel_explorer.Settings.EnvFile.{is_only}
use parcel_explorer.Settings.Parse.{
  Python, or_value_error, ConfigError, Loaded, loaded, failed, ◌>>=◌, or_text, getenv,
  is_cookie_name, is_bcrypt_hash, fromkeys, split_on, max_allowed_web_track_paths,
}
use parcel_explorer.Settings.Parsers.{
  stripped, networks_of, required, get_required_env, or_loopback, parse_allowed_ips,
  parse_session_cookie_name, parse_session_namespace, extensions_of, parse_allowed_exts, path_onto,
  paths_of, parse_allowed_web_track_paths, validate_admin_hash, given_or, cookie_name,
  session_namespace, some_extension, some_path,
}
use parcel_explorer.Settings.Unique.{
  AreDistinct, AllTexts, AreDistinct-fromkeys, AllTexts-fromkeys, fromkeys-non_empty,
}

loaded-injective {ℓ} : {A : Type ℓ} (a b : A) → loaded a ≡ loaded b → a ≡ b
loaded-injective a b e = cc e

-- what a computation returns, if it returns, is in `P`
pub record Ensures {ℓ κ} {A : Type ℓ} (P : A → Type κ) (e : Loaded A) : Type (ℓ ⊔ κ) where
  pub holds : (a : A) → e ≡ loaded a → P a

pub failed-Ensures {ℓ κ} :
    {A : Type ℓ} {P : A → Type κ} (error : ConfigError) → Ensures P (failed error)
failed-Ensures error = record { holds = λ a e. absurd (ground (arith, e)) }

pub loaded-Ensures {ℓ κ} : {A : Type ℓ} {P : A → Type κ} (a : A) → P a → Ensures P (loaded a)
loaded-Ensures {P} a h = record { holds = λ b e. subst P (loaded-injective a b e) h }

pub Ensures-bind {ℓ κ ι μ} :
    {A : Type ℓ} {B : Type κ} {P : A → Type ι} {Q : B → Type μ} (e : Loaded A) {k : A → Loaded B}
    → Ensures P e
    → ((a : A) → P a → Ensures Q (k a))
    → Ensures Q (e >>= k)
Ensures-bind (loaded a) h f = f a (h.holds a refl)
Ensures-bind (failed error) h f = failed-Ensures error

pub Ensures-skip {ℓ κ μ} :
    {A : Type ℓ} {B : Type κ} {Q : B → Type μ} (e : Loaded A) {k : A → Loaded B}
    → ((a : A) → Ensures Q (k a))
    → Ensures Q (e >>= k)
Ensures-skip (loaded a) f = f a
Ensures-skip (failed error) f = failed-Ensures error

non_empty {ℓ} : {A : Type ℓ} (c : A) (rest : List A) → c ∷ rest ≢ []
non_empty c rest e = ground (arith, e)

pub or_text-non_empty : (text : Text) (c : ℕ) (other : Text) → or_text text (c ∷ other) ≢ []
or_text-non_empty [] c other = non_empty c other
or_text-non_empty (d ∷ text) c other = non_empty d text

-- between 1 and 20 different paths, each of which starts with a slash
pub record ArePaths (paths : List Text) : Type 0 where
  pub some_path : paths ≢ []
  pub few : length paths ≤ max_allowed_web_track_paths
  pub distinct : AreDistinct paths
  pub absolute : AllTexts (λ path. starts_with (codes "/") path ≡ true) paths

-- at least one extension, none of them empty, each once
pub record AreExtensions (extensions : List Text) : Type 0 where
  pub some_extension : extensions ≢ []
  pub distinct : AreDistinct extensions
  pub filled : AllTexts (λ extension. extension ≢ []) extensions

module _ {F N : Type 0} (py : Python F N) where
  pub required-Ensures :
      (name : String) (text : Text) → Ensures (λ t. t ≢ []) (required py name text)
  required-Ensures name [] = failed-Ensures _
  required-Ensures name (c ∷ text) = loaded-Ensures (c ∷ text) (non_empty c text)

  pub get_required_env-Ensures :
      (environ : TextDict Text) (name : String)
      → Ensures (λ t. t ≢ []) (get_required_env py environ name)
  unfolding get_required_env
  get_required_env-Ensures environ name = go (getenv environ name)
    where
      go :
          (given : Option Text)
          → Ensures
              (λ t. t ≢ [])
              (elim given [
                | none ↦ required py name []
                | some value ↦ required py name (stripped py value)
              ])
      go none = failed-Ensures _
      go (some value) = required-Ensures name (stripped py value)

  pub or_loopback-Ensures : (networks : List N) → Ensures (λ ns. ns ≢ []) (or_loopback py networks)
  or_loopback-Ensures [] =
      Ensures-skip (or_value_error (py.ip_network (codes "127.0.0.1/32"))) (λ ipv4.
        Ensures-skip (or_value_error (py.ip_network (codes "::1/128")))
          (λ ipv6. loaded-Ensures (ipv4 ∷ ipv6 ∷ []) (non_empty ipv4 (ipv6 ∷ []))))
  or_loopback-Ensures (network ∷ networks) = loaded-Ensures _ (non_empty network networks)

  pub parse_allowed_ips-Ensures : (raw : Text) → Ensures (λ ns. ns ≢ []) (parse_allowed_ips py raw)
  unfolding parse_allowed_ips
  parse_allowed_ips-Ensures raw =
      Ensures-skip
        (networks_of py (codes "Invalid ALLOWED_IPS entry: ")
          (codes ". Use CIDR or exact IP (e.g. 127.0.0.1/32).") (split_on b',' raw))
        or_loopback-Ensures

  pub validate_admin_hash-Ensures :
      (text : Text)
      → Ensures (λ t. is_bcrypt_hash py.characters.chars t ≡ true) (validate_admin_hash py text)
  unfolding validate_admin_hash
  validate_admin_hash-Ensures text = elim (Bool-cases (is_bcrypt_hash py.characters.chars text)) [
    | inl e ↦ rw e (loaded-Ensures text e)
    | inr e ↦ rw e (failed-Ensures _)
  ]

  pub parse_session_cookie_name-Ensures :
      (given : Option Text)
      → Ensures (λ t. is_cookie_name t ≡ true) (parse_session_cookie_name py given)
  unfolding parse_session_cookie_name
  parse_session_cookie_name-Ensures given = go (stripped py (given_or py given (codes "session")))
    where
      go : (text : Text) → Ensures (λ t. is_cookie_name t ≡ true) (cookie_name py text)
      go [] = failed-Ensures _
      go (c ∷ text) = elim (Bool-cases (is_cookie_name (c ∷ text))) [
        | inl e ↦ rw e (loaded-Ensures (c ∷ text) e)
        | inr e ↦ rw e (failed-Ensures _)
      ]

  pub parse_session_namespace-Ensures :
      (given : Option Text) → Ensures (λ t. t ≢ []) (parse_session_namespace py given)
  unfolding parse_session_namespace
  parse_session_namespace-Ensures given =
      go (stripped py (given_or py given (codes "idle-public-property")))
    where
      go : (text : Text) → Ensures (λ t. t ≢ []) (session_namespace py text)
      go [] = failed-Ensures _
      go (c ∷ text) = loaded-Ensures (c ∷ text) (non_empty c text)

  extensions_of-filled : (entries : List Text) → AllTexts (λ t. t ≢ []) (extensions_of py entries)
  extensions_of-filled [] = tt
  extensions_of-filled (raw_entry ∷ entries) =
      go (lstrip (is_only py.characters b'.') (py.lower (stripped py raw_entry)))
        (extensions_of-filled entries)
    where
      go :
          (entry : Text)
          → AllTexts (λ t. t ≢ []) (extensions_of py entries)
          → AllTexts
              (λ t. t ≢ [])
              (elim entry [
                | [] ↦ extensions_of py entries
                | c ∷ text ↦ (c ∷ text) ∷ extensions_of py entries
              ])
      go [] h = h
      go (c ∷ text) h = (non_empty c text, h)

  pub parse_allowed_exts-Ensures : (raw : Text) → Ensures AreExtensions (parse_allowed_exts py raw)
  unfolding parse_allowed_exts
  parse_allowed_exts-Ensures raw =
      go (extensions_of py (split_on b',' raw)) (extensions_of-filled (split_on b',' raw))
    where
      go :
          (values : List Text)
          → AllTexts (λ t. t ≢ []) values
          → Ensures AreExtensions (some_extension py values)
      go [] h = failed-Ensures _
      go (value ∷ values) h = loaded-Ensures (fromkeys (value ∷ values)) record {
        some_extension = fromkeys-non_empty value values;
        distinct = AreDistinct-fromkeys (value ∷ values);
        filled = AllTexts-fromkeys (λ t. t ≢ []) (value ∷ values) h;
      }

  pub paths_of-Ensures :
      (entries : List Text)
      → Ensures (AllTexts (λ t. starts_with (codes "/") t ≡ true)) (paths_of py entries)
  paths_of-Ensures [] = loaded-Ensures [] tt
  paths_of-Ensures (raw_entry ∷ entries) = go (stripped py raw_entry) (paths_of-Ensures entries)
    where
      go :
          (entry : Text)
          → Ensures (AllTexts (λ t. starts_with (codes "/") t ≡ true)) (paths_of py entries)
          → Ensures
              (AllTexts (λ t. starts_with (codes "/") t ≡ true))
              (path_onto py entry (paths_of py entries))
      go [] h = h
      go (c ∷ entry) h = elim (Bool-cases (starts_with (codes "/") (c ∷ entry))) [
        | inr e ↦ rw e (failed-Ensures _)
        | inl e ↦ rw e (
            Ensures-bind (paths_of py entries) h
              (λ paths k. loaded-Ensures ((c ∷ entry) ∷ paths) (e, k)))
      ]

  pub some_path-Ensures :
      (paths : List Text)
      → AllTexts (λ t. starts_with (codes "/") t ≡ true) paths
      → Ensures ArePaths (some_path py paths)
  unfolding starts_with
  some_path-Ensures [] h = loaded-Ensures (codes "/" ∷ []) record {
    some_path = non_empty (codes "/") [];
    few = omega arith;
    distinct = (refl, tt);
    absolute = (refl, tt);
  }
  some_path-Ensures (value ∷ values) h =
      elim (Bool-cases (ltb max_allowed_web_track_paths (length (fromkeys (value ∷ values))))) [
        | inl e ↦ rw e (failed-Ensures _)
        | inr e ↦ rw e (
            loaded-Ensures (fromkeys (value ∷ values)) record {
              some_path = fromkeys-non_empty value values;
              few = ground (arith, e);
              distinct = AreDistinct-fromkeys (value ∷ values);
              absolute =
                  AllTexts-fromkeys (λ t. starts_with (codes "/") t ≡ true) (value ∷ values) h;
            })
      ]

  pub parse_allowed_web_track_paths-Ensures :
      (raw : Text) → Ensures ArePaths (parse_allowed_web_track_paths py raw)
  unfolding parse_allowed_web_track_paths
  parse_allowed_web_track_paths-Ensures raw =
      Ensures-bind (paths_of py (split_on b',' raw)) (paths_of-Ensures (split_on b',' raw))
        some_path-Ensures
