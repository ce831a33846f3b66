-- ===== src/Settings/Validity.antt =====
-- Which values of an update are valid, and that `validate_updates` of app/services/admin_settings_service.py accepts
-- exactly these.
use parcel_explorer.Prelude.{
  ◌≡◌, ◌≢◌, ◌⊎◌, inl, inr, refl, sym, ap, ◌∙◌, Text, codes, true, false, Option, none, some, List,
  [], ◌∷◌, arith, All, TextDict, find, text_eq, eq-of-text_eq, Bool-cases, ◌++◌, if◌then◌else◌,
}
use parcel_explorer.Settings.Parse.{Python, split_on, is_among, all_text}
use parcel_explorer.Settings.Parsers.{stripped}
use parcel_explorer.Settings.Fields.{
  FieldKind, str_kind, int_kind, float_kind, bool_kind, network_list_kind, Printer,
  AdminSettingField, field_by_key,
}
use parcel_explorer.Settings.Update.{
  Cleaned, cleaned, invalid, check_networks, normalize_raw, normalize_update_value,
  validate_updates,
}

module _ {F N : Type 0} (py : Python F N) (pr : Printer F N) where
  -- what is written of a value: no space around it, and a Boolean in small letters
  abbrev pub written : FieldKind → Text → Text
  written str_kind value = stripped py value
  written int_kind value = stripped py value
  written float_kind value = stripped py value
  written bool_kind value = py.lower (stripped py value)
  written network_list_kind value = stripped py value

  -- an entry of a list is blank or a network
  abbrev pub IsEntry : Text → Type 0
  IsEntry item =
      (stripped py item ≡ []) ⊎ ((network : N) × py.ip_network (stripped py item) ≡ some network)

  abbrev pub IsValid : FieldKind → Text → Type 0
  IsValid str_kind text = Unit
  IsValid int_kind text = (text ≢ []) × All (λ c. pr.isdigit c ≡ true) text
  IsValid float_kind text = (number : F) × py.to_float text ≡ some number
  IsValid bool_kind text = (text ≡ codes "true") ⊎ (text ≡ codes "false")
  IsValid network_list_kind text = All IsEntry (split_on b',' text)

  -- a value without a field is dropped
  abbrev pub IsValidFor : Option (AdminSettingField F N) → Text → Type 0
  IsValidFor none value = Unit
  IsValidFor (some field) value = IsValid field.kind (written field.kind value)

  abbrev pub AreValid : TextDict Text → Type 0
  AreValid updates = All (λ update. IsValidFor (field_by_key F N update.0) update.1) updates

  abbrev pub kept : Option (AdminSettingField F N) → Option Text → Option Text
  kept none value = none
  kept (some field) none = none
  kept (some field) (some value) = some (written field.kind value)

  -- the result of a check whose success means `P`
  abbrev Decides : Cleaned Text → Text → Type 0 → Type 0
  Decides result text P =
      ((result ≡ cleaned text) × P) ⊎ ((message : Text) × result ≡ invalid message × ¬ P)

  all_text-All :
      (text : Text)
      → ((all_text pr.isdigit text ≡ true) × All (λ c. pr.isdigit c ≡ true) text)
        ⊎ ((all_text pr.isdigit text ≡ false) × ¬ All (λ c. pr.isdigit c ≡ true) text)
  all_text-All [] = inl (refl, tt)
  all_text-All (c ∷ text) = elim (Bool-cases (pr.isdigit c)) [
    | inr e ↦ inr (rw e refl, λ h. ground (arith, e, h.0))
    | inl e ↦ elim (all_text-All text) [
      | inl (t, h) ↦ inl (rw (e, t) refl, (e, h))
      | inr (t, h) ↦ inr (rw (e, t) refl, λ k. h k.1)
    ]
  ]

  digits-Decides :
      (key text : Text)
      → Decides (normalize_raw py pr key int_kind text) text (IsValid int_kind text)
  digits-Decides key [] = inr (key ++ codes " must be an integer.", refl, λ h. h.0 refl)
  digits-Decides key (c ∷ text) = elim (all_text-All (c ∷ text)) [
    | inl (t, h) ↦ inl (ground (arith, t), ((λ e. ground (arith, e)), h))
    | inr (t, h) ↦ inr (key ++ codes " must be an integer.", ground (arith, t), λ k. h k.1)
  ]

  float-Decides :
      (key text : Text)
      → Decides (normalize_raw py pr key float_kind text) text (IsValid float_kind text)
  float-Decides key text = go (py.to_float text) refl
    where
      go :
          (found : Option F)
          → py.to_float text ≡ found
          → Decides (normalize_raw py pr key float_kind text) text (IsValid float_kind text)
      go none e = inr (
        key ++ codes " must be a float.",
        rw (normalize_raw, e) refl,
        λ h. ground (arith, e, h.1),
      )
      go (some number) e = inl (rw (normalize_raw, e) refl, (number, e))

  bool-Decides :
      (key text : Text)
      → Decides
          (normalize_raw py pr key bool_kind text)
          (py.lower text)
          (IsValid bool_kind (py.lower text))
  bool-Decides key text = go (py.lower text)
    where
      go :
          (small : Text)
          → Decides
              (if is_among small (codes "true" ∷ codes "false" ∷ [])
                then cleaned small
                else invalid (key ++ codes " must be true or false."))
              small
              (IsValid bool_kind small)
      go small = elim (Bool-cases (text_eq (codes "true") small)) [
        | inl t ↦ inl (rw t refl, inl (sym (eq-of-text_eq (codes "true") small t)))
        | inr t ↦ elim (Bool-cases (text_eq (codes "false") small)) [
          | inl f ↦ inl (rw (t, f) refl, inr (sym (eq-of-text_eq (codes "false") small f)))
          | inr f ↦ inr (
            key ++ codes " must be true or false.",
            rw (t, f) refl,
            λ h. elim h [
              | inl e ↦ ground (arith, t, ap (text_eq (codes "true")) e)
              | inr e ↦ ground (arith, f, ap (text_eq (codes "false")) e)
            ],
          )
        ]
      ]

  networks-Decides :
      (key : Text) (items : List Text) (text : Text)
      → Decides (check_networks py pr key items text) text (All IsEntry items)
  networks-Decides key [] text = inl (refl, tt)
  networks-Decides key (item ∷ items) text =
      go (stripped py item) (py.ip_network (stripped py item)) refl refl
        (networks-Decides key items text)
    where
      go :
          (candidate : Text) (found : Option N)
          → stripped py item ≡ candidate
          → py.ip_network candidate ≡ found
          → Decides (check_networks py pr key items text) text (All IsEntry items)
          → Decides (check_networks py pr key (item ∷ items) text) text (All IsEntry (item ∷ items))
      go [] found e f (inl (r, h)) = inl (rw (check_networks, e) r, (inl e, h))
      go [] found e f (inr (message, r, h)) = inr (message, rw (check_networks, e) r, λ k. h k.1)
      go (c ∷ candidate) none e f d = inr (
        codes "Invalid " ++ key ++ codes " entry: " ++ (c ∷ candidate),
        rw (check_networks, e, f) refl,
        λ k. elim k.0 [
          | inl blank ↦ ground (arith, e, blank)
          | inr (network, g) ↦ ground (arith, f, sym (ap py.ip_network e) ∙ g)
        ],
      )
      go (c ∷ candidate) (some network) e f (inl (r, h)) =
          inl (rw (check_networks, e, f) r, (inr (network, ap py.ip_network e ∙ f), h))
      go (c ∷ candidate) (some network) e f (inr (message, r, h)) =
          inr (message, rw (check_networks, e, f) r, λ k. h k.1)

  pub normalize_update_value-Decides :
      (field : AdminSettingField F N) (value : Text)
      → Decides
          (normalize_update_value py pr field value)
          (written field.kind value)
          (IsValid field.kind (written field.kind value))
  unfolding normalize_update_value
  normalize_update_value-Decides field value = go field.kind
    where
      go :
          (kind : FieldKind)
          → Decides
              (normalize_raw py pr (codes field.env_key) kind (stripped py value))
              (written kind value)
              (IsValid kind (written kind value))
      go str_kind = inl (refl, tt)
      go int_kind = digits-Decides (codes field.env_key) (stripped py value)
      go float_kind = float-Decides (codes field.env_key) (stripped py value)
      go bool_kind = bool-Decides (codes field.env_key) (stripped py value)
      go network_list_kind =
          networks-Decides (codes field.env_key) (split_on b',' (stripped py value))
            (stripped py value)

  -- the values hold what is written of each update of a field, and nothing else
  abbrev pub AreKept : TextDict Text → TextDict Text → Type 0
  AreKept updates values =
      (key : Text) → find key values ≡ kept (field_by_key F N key) (find key updates)

  drop-AreKept :
      (k v : Text) (updates values : TextDict Text)
      → field_by_key F N k ≡ none
      → AreKept updates values
      → AreKept ((k, v) ∷ updates) values
  unfolding find
  drop-AreKept k v updates values e h key = elim (Bool-cases (text_eq k key)) [
    | inr t ↦ rw t (h key)
    | inl t ↦
        let no_field = ap (field_by_key F N) (sym (eq-of-text_eq k key t)) ∙ e in
        h key ∙ rw no_field refl
  ]

  keep-AreKept :
      (k v : Text) (field : AdminSettingField F N) (updates values : TextDict Text)
      → field_by_key F N k ≡ some field
      → AreKept updates values
      → AreKept ((k, v) ∷ updates) ((k, written field.kind v) ∷ values)
  unfolding find
  keep-AreKept k v field updates values e h key = elim (Bool-cases (text_eq k key)) [
    | inr t ↦ rw t (h key)
    | inl t ↦
        let the_field = ap (field_by_key F N) (sym (eq-of-text_eq k key t)) ∙ e in
        rw (t, the_field) refl
  ]

  abbrev pub Validates : TextDict Text → Cleaned (TextDict Text) → Type 0
  Validates updates result =
      ((values : TextDict Text) × result ≡ cleaned values
        × AreValid updates
        × AreKept updates values)
      ⊎ ((message : Text) × result ≡ invalid message × ¬ AreValid updates)

  pub validate_updates-Validates :
      (updates : TextDict Text) → Validates updates (validate_updates py pr updates)
  unfolding validate_updates find field_by_key
  validate_updates-Validates [] = inl ([], refl, tt, λ key. empty (field_by_key F N key))
    where
      empty : (field : Option (AdminSettingField F N)) → none ≡ kept field none
      empty none = refl
      empty (some field) = refl
  validate_updates-Validates ((k, v) ∷ updates) =
      go (field_by_key F N k) refl (validate_updates-Validates updates)
    where
      go :
          (found : Option (AdminSettingField F N))
          → field_by_key F N k ≡ found
          → Validates updates (validate_updates py pr updates)
          → Validates ((k, v) ∷ updates) (validate_updates py pr ((k, v) ∷ updates))
      go none e (inl (values, r, h, kept_h)) =
          inl (values, rw e r, (rw e tt, h), drop-AreKept k v updates values e kept_h)
      go none e (inr (message, r, h)) = inr (message, rw e r, λ all. h all.1)
      go (some field) e d = elim (normalize_update_value-Decides field v) [
        | inr (message, n, h) ↦ inr (message, rw (e, n) refl, λ all. h (rw e at all.0))
        | inl (n, h) ↦ elim d [
          | inr (message, r, bad) ↦ inr (message, rw (e, n, r) refl, λ all. bad all.1)
          | inl (values, r, all, kept_h) ↦ inl (
            (k, written field.kind v) ∷ values,
            rw (e, n, r) refl,
            (rw e h, all),
            keep-AreKept k v field updates values e kept_h,
          )
        ]
      ]

  pub validates-cleaned :
      (updates values : TextDict Text)
      → validate_updates py pr updates ≡ cleaned values
      → AreValid updates × AreKept updates values
  validates-cleaned updates values v = elim (validate_updates-Validates updates) [
    | inl (found, e, valid, kept) ↦
        (valid, λ key. ap (find key) (cleaned_eq found (sym v ∙ e)) ∙ kept key)
    | inr (message, e, bad) ↦ absurd (ground (arith, v, e))
  ]
    where
      cleaned_eq : (found : TextDict Text) → cleaned values ≡ cleaned found → values ≡ found
      cleaned_eq found e = cc e
