-- ===== src/Settings/Lines.antt =====
-- A line that `update_env_file` writes is read back as the entry that it was written for.
use parcel_explorer.Prelude.{
  ℕ, ◌≤◌, ◌≡◌, ap, ◌∙◌, Text, true, false, [], ◌∷◌, ◌++◌, arith, CharTests, lstrip, rstrip, strip,
  length, Bool-cases, inl, inr,
}

module _ (chars : CharTests) where
  -- no space at either end
  pub record IsStripped (text : Text) : Type 0 where
    pub left : lstrip chars text ≡ text
    pub right : rstrip chars text ≡ text

  length-lstrip-le : (text : Text) → length (lstrip chars text) ≤ length text
  length-lstrip-le [] = omega arith
  length-lstrip-le (c ∷ text) = ground (arith, length-lstrip-le text)

  first_kept : (c : ℕ) (text : Text) → lstrip chars (c ∷ text) ≡ c ∷ text → chars.is_space c ≡ false
  first_kept c text h = elim (Bool-cases (chars.is_space c)) [
    | inr e ↦ e
    | inl e ↦ absurd (omega (arith, length-lstrip-le text, ap (λ t. length t) (shorter e)))
  ]
    where
      shorter : chars.is_space c ≡ true → lstrip chars text ≡ c ∷ text
      shorter e = ground (arith, e, h)

  pub lstrip-cons :
      (c : ℕ) (text : Text) → chars.is_space c ≡ false → lstrip chars (c ∷ text) ≡ c ∷ text
  lstrip-cons c text h = rw h

  pub lstrip-append :
      (c : ℕ) (text more : Text)
      → lstrip chars (c ∷ text) ≡ c ∷ text
      → lstrip chars (c ∷ text ++ more) ≡ c ∷ text ++ more
  lstrip-append c text more h = lstrip-cons c (text ++ more) (first_kept c text h)

  rstrip-kept :
      (c d : ℕ) (text more : Text)
      → rstrip chars text ≡ d ∷ more
      → rstrip chars (c ∷ text) ≡ c ∷ d ∷ more
  rstrip-kept c d text more h = rw h

  pub rstrip-append :
      (text : Text) (c : ℕ) (more : Text)
      → rstrip chars (c ∷ more) ≡ c ∷ more
      → rstrip chars (text ++ c ∷ more) ≡ text ++ c ∷ more
  rstrip-append [] c more h = h
  rstrip-append (d ∷ []) c more h = rstrip-kept d c (c ∷ more) more h
  rstrip-append (d ∷ e ∷ text) c more h =
      rstrip-kept d e (e ∷ text ++ c ∷ more) (text ++ c ∷ more) (rstrip-append (e ∷ text) c more h)

  pub rstrip-cons :
      (c : ℕ) (text : Text)
      → chars.is_space c ≡ false
      → rstrip chars text ≡ text
      → rstrip chars (c ∷ text) ≡ c ∷ text
  rstrip-cons c [] h k = rw h
  rstrip-cons c (d ∷ text) h k = rstrip-kept c d (d ∷ text) text k

  -- a space at the end goes
  rstrip-space :
      (c : ℕ) (text : Text)
      → chars.is_space c ≡ true
      → rstrip chars (text ++ c ∷ []) ≡ rstrip chars text
  rstrip-space c [] h = rw h
  rstrip-space c (d ∷ text) h = rw (rstrip-space c text h)

  pub strip-IsStripped : (text : Text) → IsStripped text → strip chars text ≡ text
  unfolding strip
  strip-IsStripped text h = ap (rstrip chars) h.left ∙ h.right

  -- `strip` drops what stands around a text with nothing to drop
  pub strip-around :
      (c d : ℕ) (text : Text)
      → chars.is_space c ≡ true
      → IsStripped (d ∷ text)
      → strip chars (c ∷ d ∷ text ++ c ∷ []) ≡ d ∷ text
  unfolding strip
  strip-around c d text h k = ap (rstrip chars) first ∙ (rstrip-space c (d ∷ text) h ∙ k.right)
    where
      first : lstrip chars (c ∷ d ∷ text ++ c ∷ []) ≡ d ∷ text ++ c ∷ []
      first = rw (h, lstrip-append d text (c ∷ []) k.left)
