-- ===== src/Prelude/Texts.antt =====
-- Texts that the program takes apart: lists of code points.
use Prim.Native.Nat.{ℕ, zero, suc, ◌/◌, ◌%◌}
use Prim.Native.String
use mathlib.Core.Path.{◌≡◌, refl}
use mathlib.Core.Bool.{Bool, true, false, ◌&&◌, ◌||◌}
use native.Mathlib.Omega.{arith}
use parcel_explorer.Prelude.Tests.{ltb, ◌==◌, if◌then◌else◌}
use Prim.Native.Char.{code}
use Prim.Native.String.{String}
use mathlib.Core.List.{List, [], ◌∷◌, ◌++◌}
use mathlib.Core.Option.{Option, none, some}

abbrev pub Text : Type 0
Text = List ℕ

-- the code points of a literal
abbrev pub codes : String → Text
codes String.[] = []
codes (String.◌∷◌ c s) = code c ∷ codes s

abbrev pub text_at : ℕ → List String → String
text_at n [] = ""
text_at zero (text ∷ texts) = text
text_at (suc n) (text ∷ texts) = text_at n texts

abbrev pub digit : ℕ → String
digit n = text_at n ("0" ∷ "1" ∷ "2" ∷ "3" ∷ "4" ∷ "5" ∷ "6" ∷ "7" ∷ "8" ∷ "9" ∷ [])

-- more fuel than digits
abbrev pub decimal_from : ℕ → ℕ → String
decimal_from zero n = ""
decimal_from (suc fuel) n =
    let front = decimal_from fuel (n / 10) in
    if ltb n 10 then digit n else String.◌++◌ front (digit (n % 10))

-- str(n)
unfoldable pub decimal : ℕ → String
decimal n = decimal_from (suc n) n

-- sep.join(texts)
unfoldable pub join : String → List String → String
join sep [] = ""
join sep (text ∷ []) = text
join sep (text ∷ text' ∷ more) = String.◌++◌ text (String.◌++◌ sep (join sep (text' ∷ more)))

unfoldable pub starts_with : Text → Text → Bool
starts_with [] text = true
starts_with (c ∷ prefix) [] = false
starts_with (c ∷ prefix) (d ∷ text) = c == d && starts_with prefix text

abbrev pub text_eq : Text → Text → Bool
text_eq [] [] = true
text_eq (c ∷ s) (d ∷ t) = c == d && text_eq s t
text_eq _ _ = false

pub text_eq_refl : (s : Text) → text_eq s s ≡ true
text_eq_refl [] = refl
text_eq_refl (c ∷ s) = ground (arith, text_eq_refl s)

pub eq-of-text_eq : (s t : Text) → text_eq s t ≡ true → s ≡ t
eq-of-text_eq [] [] h = refl
eq-of-text_eq [] (d ∷ t) h = absurd (ground arith)
eq-of-text_eq (c ∷ s) [] h = absurd (ground arith)
eq-of-text_eq (c ∷ s) (d ∷ t) h = ground (arith, eq-of-text_eq s t)

-- What Python holds of one code point: `strip` drops it, and `\d` matches it.
pub record CharTests : Type 0 where
  pub is_space : ℕ → Bool
  pub is_digit : ℕ → Bool

module _ (chars : CharTests) where
  -- text.lstrip()
  abbrev pub lstrip : Text → Text
  lstrip [] = []
  lstrip (c ∷ text) = let rest = lstrip text in if chars.is_space c then rest else c ∷ text

  -- text.rstrip()
  abbrev pub rstrip : Text → Text
  rstrip [] = []
  rstrip (c ∷ text) = elim (rstrip text) [
    | [] ↦ if chars.is_space c then [] else c ∷ []
    | d ∷ more ↦ c ∷ d ∷ more
  ]

  -- text.strip()
  unfoldable pub strip : Text → Text
  strip text = rstrip (lstrip text)

-- c in text
abbrev pub has_char : ℕ → Text → Bool
has_char c [] = false
has_char c (d ∷ text) = c == d || has_char c text

abbrev pub after_char : ℕ → Option (Text × Text) → Option (Text × Text)
after_char c none = none
after_char c (some (front, back)) = some (c ∷ front, back)

-- text.split(sep, 1): what stands before the first `sep` and what follows it; `none` if there is none
unfoldable pub cut_at : ℕ → Text → Option (Text × Text)
cut_at sep [] = none
cut_at sep (c ∷ text) =
    let rest = cut_at sep text in if c == sep then some ([], text) else after_char c rest

pub cut_at-append :
    (sep : ℕ) (front back : Text)
    → has_char sep front ≡ false
    → cut_at sep (front ++ sep ∷ back) ≡ some (front, back)
unfolding cut_at
cut_at-append sep [] back h = ground arith
cut_at-append sep (c ∷ front) back h = ground (arith, cut_at-append sep front back)
