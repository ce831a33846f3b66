-- ===== src/Settings/Outcomes.antt =====
-- What the updates of app/services/admin_settings_service.py write, and when.
use parcel_explorer.Prelude.{
  ℕ, ◌≤◌, ◌≡◌, ◌≢◌, ◌⊎◌, inl, inr, refl, sym, ap, ◌∙◌, Text, codes, Bool, true, false, ◌||◌, Option,
  none, some, [], ◌∷◌, arith, TextDict, text_eq, text_eq_refl, eq-of-text_eq, length, ltb,
  Bool-cases,
}
use parcel_explorer.Settings.Parse.{Python}
use parcel_explorer.Settings.Fields.{Printer}
use parcel_explorer.Settings.Update.{
  Cleaned, cleaned, invalid, validate_updates, Bcrypt, SettingsUpdateCommand, PasswordUpdateCommand,
  Store, Applied, applied, refused, raised, is_empty, write_values, apply_settings_update,
  apply_password_update,
}

-- nothing is applied and nothing is written
pub record IsRejected {ℓ} {F N : Type 0} {A : Type ℓ} (store : Store F N)
    (result : Applied A × Store F N) : Type ℓ where
  pub not_applied : (a : A) → result.0 ≢ applied a
  pub unchanged : result.1 ≡ store

refused-IsRejected {ℓ} :
    {F N : Type 0} {A : Type ℓ} (store : Store F N) (status : ℕ) (message : Text)
    → IsRejected {A = A} store (refused status message, store)
refused-IsRejected store status message = record {
  not_applied = λ a e. ground (arith, e);
  unchanged = refl;
}

raised-IsRejected {ℓ} :
    {F N : Type 0} {A : Type ℓ} (store : Store F N) → IsRejected {A = A} store (raised, store)
raised-IsRejected store = record { not_applied = λ a e. ground (arith, e); unchanged = refl }

is_empty-false : (text : Text) → is_empty text ≡ false → text ≢ []
is_empty-false [] h e = ground (arith, h)
is_empty-false (c ∷ text) h e = ground (arith, e)

is_empty-of-≢ : (text : Text) → text ≢ [] → is_empty text ≡ false
is_empty-of-≢ [] h = absurd (h refl)
is_empty-of-≢ (c ∷ text) h = refl

module _ {F N : Type 0} (py : Python F N) (pr : Printer F N) (b : Bcrypt) where
  -- the update of `command` is to be applied
  pub record AcceptsSettings (command : SettingsUpdateCommand) (values : TextDict Text)
      : Type 0 where
    pub csrf : command.context.csrf_valid ≡ true
    pub given : command.settings_password ≢ []
    pub confirmed : b.checkpw command.settings_password command.current_password_hash ≡ some true
    pub valid : validate_updates py pr command.updates ≡ cleaned values

  pub apply_settings_update_cases :
      (command : SettingsUpdateCommand) (store : Store F N)
      → ((values : TextDict Text)
          → AcceptsSettings command values
          → apply_settings_update py pr b command store
            ≡ (applied values, write_values py values store))
        × (((values : TextDict Text) × AcceptsSettings command values)
            ⊎ IsRejected store (apply_settings_update py pr b command store))
  unfolding apply_settings_update
  apply_settings_update_cases command store = (accepted, decided)
    where
      accepted :
          (values : TextDict Text)
          → AcceptsSettings command values
          → apply_settings_update py pr b command store
            ≡ (applied values, write_values py values store)
      accepted values h =
          rw (h.csrf, is_empty-of-≢ command.settings_password h.given, h.confirmed, h.valid)

      judged :
          (found : Cleaned (TextDict Text))
          → validate_updates py pr command.updates ≡ found
          → command.context.csrf_valid ≡ true
          → is_empty command.settings_password ≡ false
          → b.checkpw command.settings_password command.current_password_hash ≡ some true
          → ((values : TextDict Text) × AcceptsSettings command values)
            ⊎ IsRejected store (apply_settings_update py pr b command store)
      judged (cleaned values) v c g p = inl (
        values,
        record {
          csrf = c;
          given = is_empty-false command.settings_password g;
          confirmed = p;
          valid = v;
        },
      )
      judged (invalid message) v c g p =
          inr (rw (c, g, p, v) (refused-IsRejected store 400 message))

      checked :
          (found : Option Bool)
          → b.checkpw command.settings_password command.current_password_hash ≡ found
          → command.context.csrf_valid ≡ true
          → is_empty command.settings_password ≡ false
          → ((values : TextDict Text) × AcceptsSettings command values)
            ⊎ IsRejected store (apply_settings_update py pr b command store)
      checked none p c g = inr (rw (c, g, p) (raised-IsRejected store))
      checked (some false) p c g = inr (rw (c, g, p) (refused-IsRejected store 401 _))
      checked (some true) p c g = judged (validate_updates py pr command.updates) refl c g p

      decided :
          ((values : TextDict Text) × AcceptsSettings command values)
          ⊎ IsRejected store (apply_settings_update py pr b command store)
      decided = elim (Bool-cases command.context.csrf_valid) [
        | inr c ↦ inr (rw c (refused-IsRejected store 403 _))
        | inl c ↦ elim (Bool-cases (is_empty command.settings_password)) [
          | inl g ↦ inr (rw (c, g) (refused-IsRejected store 400 _))
          | inr g ↦
              checked (b.checkpw command.settings_password command.current_password_hash) refl c g
        ]
      ]

  -- the update of the password to `new_hash` is to be applied
  pub record AcceptsPassword (command : PasswordUpdateCommand) (new_hash : Text) : Type 0 where
    pub csrf : command.context.csrf_valid ≡ true
    pub given : command.current_password ≢ []
    pub repeated : command.new_password ≡ command.new_password_confirm
    pub long : 8 ≤ length command.new_password
    pub confirmed : b.checkpw command.current_password command.current_password_hash ≡ some true
    pub hashed : b.hashpw command.new_password ≡ some new_hash

  long-non_empty : (text : Text) → 8 ≤ length text → is_empty text ≡ false
  long-non_empty [] h = absurd (omega (arith, h))
  long-non_empty (c ∷ text) h = refl

  password_is_given : (s t : Text) → (is_empty s || is_empty t) ≡ false → is_empty s ≡ false
  password_is_given s t h = ground (arith, h)

  pub apply_password_update_cases :
      (command : PasswordUpdateCommand) (store : Store F N)
      → ((new_hash : Text)
          → AcceptsPassword command new_hash
          → apply_password_update py pr b command store
            ≡ (applied new_hash, write_values py ((codes "ADMIN_PW_HASH", new_hash) ∷ []) store))
        × (((new_hash : Text) × AcceptsPassword command new_hash)
            ⊎ IsRejected store (apply_password_update py pr b command store))
  unfolding apply_password_update
  apply_password_update_cases command store = (accepted, decided)
    where
      accepted :
          (new_hash : Text)
          → AcceptsPassword command new_hash
          → apply_password_update py pr b command store
            ≡ (applied new_hash, write_values py ((codes "ADMIN_PW_HASH", new_hash) ∷ []) store)
      accepted new_hash h = rw (
        h.csrf,
        is_empty-of-≢ command.current_password h.given,
        long-non_empty command.new_password h.long,
        ap (text_eq command.new_password) (sym h.repeated) ∙ text_eq_refl command.new_password,
        short h.long,
        h.confirmed,
        h.hashed,
      )
        where
          short : 8 ≤ length command.new_password → ltb (length command.new_password) 8 ≡ false
          short h = ground (arith, h)

      judged :
          (found : Option Bool) (hash : Option Text)
          → b.checkpw command.current_password command.current_password_hash ≡ found
          → b.hashpw command.new_password ≡ hash
          → command.context.csrf_valid ≡ true
          → (is_empty command.current_password || is_empty command.new_password) ≡ false
          → text_eq command.new_password command.new_password_confirm ≡ true
          → ltb (length command.new_password) 8 ≡ false
          → ((new_hash : Text) × AcceptsPassword command new_hash)
            ⊎ IsRejected store (apply_password_update py pr b command store)
      judged none hash p h c g r l = inr (rw (c, g, r, l, p) (raised-IsRejected store))
      judged (some false) hash p h c g r l =
          inr (rw (c, g, r, l, p) (refused-IsRejected store 401 _))
      judged (some true) none p h c g r l = inr (rw (c, g, r, l, p, h) (raised-IsRejected store))
      judged (some true) (some new_hash) p h c g r l = inl (
        new_hash,
        record {
          csrf = c;
          given =
              is_empty-false command.current_password
                (password_is_given command.current_password command.new_password g);
          repeated = eq-of-text_eq command.new_password command.new_password_confirm r;
          long = ground (arith, l);
          confirmed = p;
          hashed = h;
        },
      )

      decided :
          ((new_hash : Text) × AcceptsPassword command new_hash)
          ⊎ IsRejected store (apply_password_update py pr b command store)
      decided = elim (Bool-cases command.context.csrf_valid) [
        | inr c ↦ inr (rw c (refused-IsRejected store 403 _))
        | inl c ↦
            elim (Bool-cases (is_empty command.current_password || is_empty command.new_password)) [
              | inl g ↦ inr (rw (c, g) (refused-IsRejected store 400 _))
              | inr g ↦
                  elim (Bool-cases (text_eq command.new_password command.new_password_confirm)) [
                    | inr r ↦ inr (rw (c, g, r) (refused-IsRejected store 400 _))
                    | inl r ↦ elim (Bool-cases (ltb (length command.new_password) 8)) [
                      | inl l ↦ inr (rw (c, g, r, l) (refused-IsRejected store 400 _))
                      | inr l ↦
                          judged (b.checkpw command.current_password command.current_password_hash)
                            (b.hashpw command.new_password) refl refl c g r l
                    ]
                  ]
            ]
      ]
