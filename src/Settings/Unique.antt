-- ===== src/Settings/Unique.antt =====
-- `dict.fromkeys`, as app/core/config.py uses it: each text once, in the order of the first occurrences.
use parcel_explorer.Prelude.{
  ◌≡◌, ◌≢◌, refl, Text, false, not, ◌&&◌, List, [], ◌∷◌, arith, text_eq_refl, eq-of-text_eq,
  Bool-cases, inl, inr,
}
use parcel_explorer.Settings.Parse.{is_among, unseen, fromkeys}

abbrev pub AreDistinct : List Text → Type 0
AreDistinct [] = Unit
AreDistinct (text ∷ texts) = (is_among text texts ≡ false) × AreDistinct texts

abbrev pub AllTexts {ℓ} : (Text → Type ℓ) → List Text → Type ℓ
AllTexts P [] = Unit
AllTexts P (text ∷ texts) = P text × AllTexts P texts

is_among-unseen :
    (text : Text) (seen texts : List Text)
    → is_among text (unseen seen texts) ≡ (is_among text texts && not (is_among text seen))
is_among-unseen text seen [] = refl
is_among-unseen text seen (other ∷ texts) = ground (
  arith,
  eq-of-text_eq other text,
  is_among-unseen text seen texts,
  is_among-unseen text (other ∷ seen) texts,
)

AreDistinct-unseen : (seen texts : List Text) → AreDistinct (unseen seen texts)
AreDistinct-unseen seen [] = tt
AreDistinct-unseen seen (text ∷ texts) = elim (Bool-cases (is_among text seen)) [
  | inl e ↦ rw e (AreDistinct-unseen seen texts)
  | inr e ↦ rw e (
    ground (arith, is_among-unseen text (text ∷ seen) texts, text_eq_refl text),
    AreDistinct-unseen (text ∷ seen) texts,
  )
]

AllTexts-unseen {ℓ} :
    (P : Text → Type ℓ) (seen texts : List Text) → AllTexts P texts → AllTexts P (unseen seen texts)
AllTexts-unseen P seen [] h = tt
AllTexts-unseen P seen (text ∷ texts) h = elim (Bool-cases (is_among text seen)) [
  | inl e ↦ rw e (AllTexts-unseen P seen texts h.1)
  | inr e ↦ rw e (h.0, AllTexts-unseen P (text ∷ seen) texts h.1)
]

pub AreDistinct-fromkeys : (texts : List Text) → AreDistinct (fromkeys texts)
unfolding fromkeys
AreDistinct-fromkeys texts = AreDistinct-unseen [] texts

pub AllTexts-fromkeys {ℓ} :
    (P : Text → Type ℓ) (texts : List Text) → AllTexts P texts → AllTexts P (fromkeys texts)
unfolding fromkeys
AllTexts-fromkeys P texts h = AllTexts-unseen P [] texts h

pub is_among-fromkeys :
    (text : Text) (texts : List Text) → is_among text (fromkeys texts) ≡ is_among text texts
unfolding fromkeys
is_among-fromkeys text texts = ground (arith, is_among-unseen text [] texts)

pub fromkeys-non_empty : (text : Text) (texts : List Text) → fromkeys (text ∷ texts) ≢ []
unfolding fromkeys
fromkeys-non_empty text texts e = ground (arith, e)
