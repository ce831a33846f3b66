-- ===== src/Prelude/Records.antt =====
-- Python's `dict` with texts taken apart as keys, in insertion order.
use mathlib.Core.Path.{◌≡◌, refl}
use mathlib.Core.List.{List, [], ◌∷◌}
use mathlib.Core.Option.{Option, none, some}
use native.Mathlib.Omega.{arith}
use parcel_explorer.Prelude.Tests.{if◌then◌else◌}
use parcel_explorer.Prelude.Texts.{Text, text_eq, text_eq_refl, eq-of-text_eq}

abbrev pub TextDict {ℓ} : Type ℓ → Type ℓ
TextDict V = List (Text × V)

module _ {ℓ} {V : Type ℓ} where
  -- d.get(k)
  unfoldable pub find : Text → TextDict V → Option V
  find k [] = none
  find k ((j, v) ∷ d) = if text_eq j k then some v else find k d

  -- d[k] = v
  unfoldable pub put : Text → V → TextDict V → TextDict V
  put k v [] = (k, v) ∷ []
  put k v ((j, w) ∷ d) = let rest = put k v d in if text_eq j k then (j, v) ∷ d else (j, w) ∷ rest

  -- d.pop(k)
  unfoldable pub drop_key : Text → TextDict V → TextDict V
  drop_key k [] = []
  drop_key k ((j, v) ∷ d) = let rest = drop_key k d in if text_eq j k then rest else (j, v) ∷ rest

  -- no key occurs twice
  abbrev pub HasDistinctTexts : TextDict V → Type ℓ
  HasDistinctTexts [] = Unit
  HasDistinctTexts ((k, v) ∷ d) = (find k d ≡ none) × HasDistinctTexts d

module _ {ℓ} {V : Type ℓ} where
  pub find-put :
      (k j : Text) (v : V) (d : TextDict V)
      → find j (put k v d) ≡ (if text_eq k j then some v else find j d)
  unfolding find put
  find-put k j v [] = refl
  find-put k j v ((i, w) ∷ d) = ground (
    arith,
    find-put k j v d,
    eq-of-text_eq k j,
    eq-of-text_eq i k,
    eq-of-text_eq i j,
    text_eq_refl i,
    text_eq_refl k,
  )

  pub find-drop_key :
      (k j : Text) (d : TextDict V)
      → find j (drop_key k d) ≡ (if text_eq k j then none else find j d)
  unfolding find drop_key
  find-drop_key k j [] = ground arith
  find-drop_key k j ((i, v) ∷ d) = ground (
    arith,
    find-drop_key k j d,
    eq-of-text_eq k j,
    eq-of-text_eq i k,
    eq-of-text_eq i j,
    text_eq_refl i,
    text_eq_refl k,
  )
