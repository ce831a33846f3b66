-- ===== src/Settings/Parsers.antt =====
-- One setting from its text: the `_parse_*` functions of app/core/config.py.
use parcel_explorer.Prelude.{
  ℕ, Text, codes, String, Bool, true, false, ltb, Option, none, some, List, [], ◌∷◌, ◌++◌, lstrip,
  strip, starts_with, decimal, TextDict, length, if◌then◌else◌,
}
use parcel_explorer.Settings.EnvFile.{is_only}
use parcel_explorer.Settings.Parse.{
  Python, settings_error, Loaded, loaded, failed, ◌>>=◌, or_value_error, or_text, split_on,
  is_among, fromkeys, is_cookie_name, is_bcrypt_hash, getenv, truths, falsehoods,
  max_allowed_web_track_paths,
}

module _ {F N : Type 0} (py : Python F N) where
  abbrev pub stripped : Text → Text
  stripped text = strip py.characters.chars text

  abbrev pub required : String → Text → Loaded Text
  required name [] =
      failed (settings_error (codes "Required environment variable is missing: " ++ codes name))
  required name (c ∷ text) = loaded (c ∷ text)

  unfoldable pub get_required_env : TextDict Text → String → Loaded Text
  get_required_env environ name = elim (getenv environ name) [
    | none ↦ required name []
    | some value ↦ required name (stripped value)
  ]

  -- the loop of `_parse_allowed_ips` and of `_parse_network_list`, with the start and the end of the message
  abbrev pub networks_of : Text → Text → List Text → Loaded (List N)
  networks_of before after [] = loaded []
  networks_of before after (raw_entry ∷ entries) =
      let rest = networks_of before after entries in
      elim (stripped raw_entry) [
        | [] ↦ rest
        | c ∷ entry ↦ elim (py.ip_network (c ∷ entry)) [
          | none ↦ failed (settings_error (before ++ (c ∷ entry) ++ after))
          | some network ↦ rest >>= (λ networks. loaded (network ∷ networks))
        ]
      ]

  -- the networks of a list without an entry
  abbrev pub or_loopback : List N → Loaded (List N)
  or_loopback [] = or_value_error (py.ip_network (codes "127.0.0.1/32")) >>= (λ ipv4.
      or_value_error (py.ip_network (codes "::1/128")) >>= (λ ipv6. loaded (ipv4 ∷ ipv6 ∷ [])))
  or_loopback (network ∷ networks) = loaded (network ∷ networks)

  unfoldable pub parse_allowed_ips : Text → Loaded (List N)
  parse_allowed_ips raw_ips =
      networks_of (codes "Invalid ALLOWED_IPS entry: ")
        (codes ". Use CIDR or exact IP (e.g. 127.0.0.1/32).") (split_on b',' raw_ips)
      >>= or_loopback

  unfoldable pub parse_network_list : Text → Loaded (List N)
  parse_network_list raw_value =
      networks_of (codes "Invalid network entry: ")
        (codes ". Use CIDR or exact IP (e.g. 10.0.0.0/24).") (split_on b',' raw_value)

  abbrev pub bool_of : String → Text → Loaded Bool
  bool_of name raw_value =
      let normalized = py.lower (stripped raw_value) in
      if is_among normalized truths
      then loaded true
      else if is_among normalized falsehoods
      then loaded false
      else failed (
          settings_error
            (codes "Invalid boolean value for " ++ codes name ++ codes ": " ++ raw_value))

  unfoldable pub parse_bool_env : TextDict Text → String → Bool → Loaded Bool
  parse_bool_env environ name default = elim (getenv environ name) [
    | none ↦ loaded default
    | some raw_value ↦ bool_of name raw_value
  ]

  -- raw_value or default
  abbrev pub given_or : Option Text → Text → Text
  given_or none default = default
  given_or (some value) default = or_text value default

  abbrev pub cookie_name : Text → Loaded Text
  cookie_name [] = failed (settings_error (codes "SESSION_COOKIE_NAME must not be empty."))
  cookie_name (c ∷ value) =
      if is_cookie_name (c ∷ value)
      then loaded (c ∷ value)
      else failed (settings_error (codes "SESSION_COOKIE_NAME contains invalid characters."))

  unfoldable pub parse_session_cookie_name : Option Text → Loaded Text
  parse_session_cookie_name raw_value =
      cookie_name (stripped (given_or raw_value (codes "session")))

  abbrev pub session_namespace : Text → Loaded Text
  session_namespace [] = failed (settings_error (codes "SESSION_NAMESPACE must not be empty."))
  session_namespace (c ∷ value) = loaded (c ∷ value)

  unfoldable pub parse_session_namespace : Option Text → Loaded Text
  parse_session_namespace raw_value =
      session_namespace (stripped (given_or raw_value (codes "idle-public-property")))

  -- the entries that are not empty once they are stripped, in lower case and without leading points
  abbrev pub extensions_of : List Text → List Text
  extensions_of [] = []
  extensions_of (raw_entry ∷ entries) =
      let rest = extensions_of entries in
      elim (lstrip (is_only py.characters b'.') (py.lower (stripped raw_entry))) [
        | [] ↦ rest
        | c ∷ entry ↦ (c ∷ entry) ∷ rest
      ]

  abbrev pub some_extension : List Text → Loaded (List Text)
  some_extension [] =
      failed
        (settings_error (codes "PUBLIC_DOWNLOAD_ALLOWED_EXTS must include at least one extension."))
  some_extension (value ∷ values) = loaded (fromkeys (value ∷ values))

  unfoldable pub parse_allowed_exts : Text → Loaded (List Text)
  parse_allowed_exts raw_value = some_extension (extensions_of (split_on b',' raw_value))

  abbrev pub path_onto : Text → Loaded (List Text) → Loaded (List Text)
  path_onto [] rest = rest
  path_onto (c ∷ entry) rest =
      if starts_with (codes "/") (c ∷ entry)
      then rest >>= (λ paths. loaded ((c ∷ entry) ∷ paths))
      else failed (
          settings_error (
            codes "Invalid ALLOWED_WEB_TRACK_PATHS entry: "
            ++ (c ∷ entry)
            ++ codes ". Path must start with '/'."))

  abbrev pub paths_of : List Text → Loaded (List Text)
  paths_of [] = loaded []
  paths_of (raw_entry ∷ entries) = path_onto (stripped raw_entry) (paths_of entries)

  abbrev too_many : ℕ → Text
  too_many n =
      codes "ALLOWED_WEB_TRACK_PATHS must not exceed "
      ++ codes (decimal max_allowed_web_track_paths)
      ++ codes " entries (got "
      ++ codes (decimal n)
      ++ codes ")."

  abbrev pub some_path : List Text → Loaded (List Text)
  some_path [] = loaded (codes "/" ∷ [])
  some_path (value ∷ values) =
      let deduped = fromkeys (value ∷ values) in
      if ltb max_allowed_web_track_paths (length deduped)
      then failed (settings_error (too_many (length deduped)))
      else loaded deduped

  unfoldable pub parse_allowed_web_track_paths : Text → Loaded (List Text)
  parse_allowed_web_track_paths raw_value = paths_of (split_on b',' raw_value) >>= some_path

  unfoldable pub validate_admin_hash : Text → Loaded Text
  validate_admin_hash hash_value =
      if is_bcrypt_hash py.characters.chars hash_value
      then loaded hash_value
      else failed (settings_error (codes "ADMIN_PW_HASH must be a valid bcrypt hash."))
