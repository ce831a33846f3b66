-- ===== src/Settings/Written.antt =====
-- What an update of app/services/admin_settings_service.py that is applied leaves behind.
use parcel_explorer.Prelude.{
  ◌≡◌, ◌≢◌, ◌⊎◌, inl, inr, refl, ap, Text, codes, true, none, some, [], ◌∷◌, TextDict, find,
  HasDistinctTexts,
}
use parcel_explorer.Settings.EnvFile.{update_env_file}
use parcel_explorer.Settings.RoundTrip.{first_of}
use parcel_explorer.Settings.Parse.{Python}
use parcel_explorer.Settings.Fields.{Printer}
use parcel_explorer.Settings.Update.{
  Bcrypt, SettingsUpdateCommand, PasswordUpdateCommand, Store, applied, write_values,
  apply_settings_update, apply_password_update,
}
use parcel_explorer.Settings.Values.{find-put_all, HasDistinctTexts-validate_updates}
use parcel_explorer.Settings.Validity.{
  AreValid, AreKept, validate_updates-Validates, validates-cleaned,
}
use parcel_explorer.Settings.Outcomes.{
  IsRejected, AcceptsSettings, AcceptsPassword, apply_settings_update_cases,
  apply_password_update_cases,
}

-- The file is updated with the values, the environment has them and is else as it was, and no settings are cached.
pub record IsWritten {F N : Type 0} (py : Python F N) (values : TextDict Text) (old new : Store F N)
    : Type 0 where
  pub file : new.env_file ≡ some (update_env_file py.characters old.env_file values)
  pub environ :
      (key : Text) → find key new.environ ≡ first_of (find key values) (find key old.environ)
  pub not_cached : new.cached ≡ none

module _ {F N : Type 0} (py : Python F N) (pr : Printer F N) (b : Bcrypt) where
  write_values-IsWritten :
      (values : TextDict Text) (store : Store F N)
      → HasDistinctTexts values
      → IsWritten py values store (write_values py values store)
  write_values-IsWritten values store d = record {
    file = refl;
    environ = λ key. find-put_all key values store.environ d;
    not_cached = refl;
  }

  -- the token is valid, and the password is given and matches the hash
  pub record IsConfirmed (command : SettingsUpdateCommand) : Type 0 where
    pub csrf : command.context.csrf_valid ≡ true
    pub given : command.settings_password ≢ []
    pub matches : b.checkpw command.settings_password command.current_password_hash ≡ some true

  abbrev pub IsAcceptable : SettingsUpdateCommand → Type 0
  IsAcceptable command = IsConfirmed command × AreValid py pr command.updates

  IsAcceptable-AcceptsSettings :
      (command : SettingsUpdateCommand)
      → IsAcceptable command
      → (values : TextDict Text) × AcceptsSettings py pr b command values
  IsAcceptable-AcceptsSettings command (c, valid) =
      elim (validate_updates-Validates py pr command.updates) [
        | inl (values, e, v, k) ↦
            (values, record { csrf = c.csrf; given = c.given; confirmed = c.matches; valid = e })
        | inr (message, e, bad) ↦ absurd (bad valid)
      ]

  -- An update of the settings, whose keys differ, is applied exactly if its token is valid, the password is given
  -- and matches the hash, and every value of a known key is valid for the kind of its field, without the space around
  -- it. What is then written are the updates of known keys, without that space and a Boolean in small letters: the
  -- file is updated with them, the environment has them and is else as it was, and no settings are cached. Any other
  -- update is rejected, and the file, the environment and the cached settings stay as they were.
  pub apply_settings_update_lem :
      (command : SettingsUpdateCommand) (store : Store F N)
      → HasDistinctTexts command.updates
      → (IsAcceptable command
          × ((values : TextDict Text) × (apply_settings_update py pr b command store).0
                ≡ applied values
              × AreKept py pr command.updates values
              × IsWritten py values store (apply_settings_update py pr b command store).1))
        ⊎ (¬ IsAcceptable command × IsRejected store (apply_settings_update py pr b command store))
  apply_settings_update_lem command store d =
      let cases = apply_settings_update_cases py pr b command store in
      elim cases.1 [
        | inl (values, a) ↦
            let distinct =
              HasDistinctTexts-validate_updates py pr command.updates values a.valid d in
            let (valid, kept) = validates-cleaned py pr command.updates values a.valid in
            inl (
              (record { csrf = a.csrf; given = a.given; matches = a.confirmed }, valid),
              (
                values,
                ap (λ r. r.0) (cases.0 values a),
                kept,
                rw (cases.0 values a) (write_values-IsWritten values store distinct),
              ),
            )
        | inr r ↦ inr (
          (λ h.
              let (values, a) = IsAcceptable-AcceptsSettings command h in
              r.not_applied values (ap (λ r. r.0) (cases.0 values a))),
          r,
        )
      ]

  -- A password update is applied exactly if its token is valid, the current password is given and matches the hash,
  -- and the new one has at least 8 characters, is repeated, and can be hashed. The file is then updated with the hash
  -- of the new password as ADMIN_PW_HASH, the environment has it and is else as it was, and no settings are cached.
  -- Any other update is rejected, and the file, the environment and the cached settings stay as they were.
  pub apply_password_update_lem :
      (command : PasswordUpdateCommand) (store : Store F N)
      → ((new_hash : Text) × AcceptsPassword py pr b command new_hash
          × (apply_password_update py pr b command store).0 ≡ applied new_hash
          × IsWritten py
              ((codes "ADMIN_PW_HASH", new_hash) ∷ [])
              store
              (apply_password_update py pr b command store).1)
        ⊎ (¬ ((new_hash : Text) × AcceptsPassword py pr b command new_hash)
            × IsRejected store (apply_password_update py pr b command store))
  unfolding find
  apply_password_update_lem command store =
      let cases = apply_password_update_cases py pr b command store in
      elim cases.1 [
        | inl (new_hash, a) ↦ inl (
          new_hash,
          a,
          ap (λ r. r.0) (cases.0 new_hash a),
          rw (cases.0 new_hash a)
              (write_values-IsWritten ((codes "ADMIN_PW_HASH", new_hash) ∷ []) store (refl, tt)),
        )
        | inr r ↦
            inr ((λ found. r.not_applied found.0 (ap (λ r. r.0) (cases.0 found.0 found.1))), r)
      ]
