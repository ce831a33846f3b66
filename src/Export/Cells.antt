-- ===== src/Export/Cells.antt =====
-- No cell of an exported row is read as a formula.
use parcel_explorer.Prelude.{
  Bool, ◌||◌, false, ◌==◌, ℕ, zero, suc, ◌/◌, ◌%◌, ◌≡◌, refl, ap, ◌∙◌, Text, String, codes, decimal,
  decimal_from, digit, text_at, ltb, Option, some, List, [], ◌∷◌, ◌++◌, All, arith, starts_with,
  Bool-cases, inl, inr,
}
use Prim.Native.String
use Prim.Native.String.append
use Prim.Native.Char.{code}
use parcel_explorer.Events.Store.{RawQuery}
use parcel_explorer.Export.Csv.{
  csv_formula_prefixes, starts_with_any, text_of, safe_csv_string, cells,
}

-- a character with which a spreadsheet starts a formula, or takes a text for something else than a text
abbrev pub starts_formula : ℕ → Bool
starts_formula c = c == b'=' || c == b'+' || c == b'-' || c == b'@' || c == 9 || c == b'|'

abbrev pub IsNoFormula : Text → Type 0
IsNoFormula [] = Unit
IsNoFormula (c ∷ text) = starts_formula c ≡ false

IsNoFormula-append :
    (text more : Text) → IsNoFormula text → IsNoFormula more → IsNoFormula (text ++ more)
IsNoFormula-append [] more h k = k
IsNoFormula-append (c ∷ text) more h k = h

unguarded-IsNoFormula :
    (text : Text) → starts_with_any csv_formula_prefixes text ≡ false → IsNoFormula text
unfolding starts_with
unguarded-IsNoFormula [] h = tt
unguarded-IsNoFormula (c ∷ text) h = ground (arith, h)

IsNoFormula-safe_csv_string : (value : Option Text) → IsNoFormula (safe_csv_string value)
unfolding safe_csv_string
IsNoFormula-safe_csv_string value =
    elim (Bool-cases (starts_with_any csv_formula_prefixes (text_of value))) [
      | inl e ↦ rw e refl
      | inr e ↦ rw e (unguarded-IsNoFormula (text_of value) e)
    ]

codes-append : (s t : String) → codes (Prim.Native.String.◌++◌ s t) ≡ codes s ++ codes t
codes-append String.[] t = ap codes (Prim.Native.String.append.nil t)
codes-append (String.◌∷◌ c s) t =
    ap codes (Prim.Native.String.append.cons c s t) ∙ ap (◌∷◌ (code c)) (codes-append s t)

text_at-All :
    (P : String → Type 0) (n : ℕ) (texts : List String) → P "" → All P texts → P (text_at n texts)
text_at-All P n [] p h = p
text_at-All P zero (text ∷ texts) p h = h.0
text_at-All P (suc n) (text ∷ texts) p h = text_at-All P n texts p h.1

IsNoFormula-digit : (n : ℕ) → IsNoFormula (codes (digit n))
unfolding starts_with
IsNoFormula-digit n =
    text_at-All (λ text. IsNoFormula (codes text)) n
      ("0" ∷ "1" ∷ "2" ∷ "3" ∷ "4" ∷ "5" ∷ "6" ∷ "7" ∷ "8" ∷ "9" ∷ []) tt
      (refl, (refl, (refl, (refl, (refl, (refl, (refl, (refl, (refl, (refl, tt))))))))))

IsNoFormula-decimal_from : (fuel n : ℕ) → IsNoFormula (codes (decimal_from fuel n))
unfolding starts_with
IsNoFormula-decimal_from zero n = tt
IsNoFormula-decimal_from (suc fuel) n = elim (Bool-cases (ltb n 10)) [
  | inl e ↦ rw e (IsNoFormula-digit n)
  | inr e ↦
      rw (e, codes-append (decimal_from fuel (n / 10)) (digit (n % 10)))
        (IsNoFormula-append (codes (decimal_from fuel (n / 10))) (codes (digit (n % 10)))
          (IsNoFormula-decimal_from fuel (n / 10)) (IsNoFormula-digit (n % 10)))
]

IsNoFormula-decimal : (n : ℕ) → IsNoFormula (codes (decimal n))
unfolding decimal
IsNoFormula-decimal n = IsNoFormula-decimal_from (suc n) n

-- No cell of the row starts with one of the characters that make a formula of it.
pub cells-AreNoFormulas : (row : RawQuery) → All IsNoFormula (cells row)
cells-AreNoFormulas row = (
  IsNoFormula-decimal row.id,
  (
    IsNoFormula-safe_csv_string (some (codes row.created_at)),
    (
      IsNoFormula-safe_csv_string (some (codes row.event_type)),
      (
        IsNoFormula-safe_csv_string row.anon_id,
        (
          IsNoFormula-safe_csv_string row.raw_region_query,
          (
            IsNoFormula-safe_csv_string row.raw_min_area_input,
            (
              IsNoFormula-safe_csv_string row.raw_max_area_input,
              (
                IsNoFormula-safe_csv_string row.raw_rent_only_input,
                (
                  IsNoFormula-safe_csv_string row.raw_land_id_input,
                  (
                    IsNoFormula-safe_csv_string row.raw_land_address_input,
                    (
                      IsNoFormula-safe_csv_string row.raw_click_source_input,
                      (IsNoFormula-safe_csv_string (some row.raw_payload_json), tt),
                    ),
                  ),
                ),
              ),
            ),
          ),
        ),
      ),
    ),
  ),
)
