-- ===== src/Export/Selected.antt =====
-- Which rows are exported, and in which order.
use parcel_explorer.Prelude.{
  min, ℕ, zero, suc, ◌≡◌, refl, ap, ◌∙◌, true, false, List, [], ◌∷◌, All, All-take, keep-passes,
  keep, take, count, length, length-keep, arith, Bool-cases, inl, inr,
}
use mathlib.Core.Path.{subst}
use mathlib.Core.List.{Perm}
use mathlib.Core.List.Perm
use parcel_explorer.Events.Store.{RawQuery}
use parcel_explorer.Export.Query.{
  ValidatedRawQueryExport, is_selected, comes_first, insert_row, sort_rows, fetch_raw_query_logs,
}

-- each row comes before the next one
abbrev pub AreInOrder : List RawQuery → Type 0
AreInOrder [] = Unit
AreInOrder (row ∷ []) = Unit
AreInOrder (row ∷ other ∷ rows) = (comes_first row other ≡ true) × AreInOrder (other ∷ rows)

comes_first-total :
    (row other : RawQuery) → comes_first row other ≡ false → comes_first other row ≡ true
comes_first-total row other h = ground (arith, h)

insert_row-AreInOrder :
    (row : RawQuery) (rows : List RawQuery) → AreInOrder rows → AreInOrder (insert_row row rows)
insert_row-AreInOrder row [] h = tt
insert_row-AreInOrder row (other ∷ []) h = elim (Bool-cases (comes_first row other)) [
  | inl e ↦ rw e (e, tt)
  | inr e ↦ rw e (comes_first-total row other e, tt)
]
insert_row-AreInOrder row (other ∷ other' ∷ rows) h =
    go (insert_row-AreInOrder row (other' ∷ rows) h.1)
  where
    go :
        AreInOrder (insert_row row (other' ∷ rows))
        → AreInOrder (insert_row row (other ∷ other' ∷ rows))
    go k = elim (Bool-cases (comes_first row other)) [
      | inl e ↦ rw e (e, h)
      | inr e ↦ elim (Bool-cases (comes_first row other')) [
        | inl f ↦ rw (e, f) (comes_first-total row other e, (f, h.1))
        | inr f ↦ rw (e, f) (h.0, next f k)
      ]
    ]
      where
        kept :
            comes_first row other' ≡ false
            → insert_row row (other' ∷ rows) ≡ other' ∷ insert_row row rows
        kept f = rw f

        next :
            comes_first row other' ≡ false
            → AreInOrder (insert_row row (other' ∷ rows))
            → AreInOrder (other' ∷ insert_row row rows)
        next f k = subst AreInOrder (kept f) k

sort_rows-AreInOrder : (rows : List RawQuery) → AreInOrder (sort_rows rows)
unfolding sort_rows
sort_rows-AreInOrder [] = tt
sort_rows-AreInOrder (row ∷ rows) =
    insert_row-AreInOrder row (sort_rows rows) (sort_rows-AreInOrder rows)

insert_row-All :
    (P : RawQuery → Type 0) (row : RawQuery) (rows : List RawQuery)
    → P row
    → All P rows
    → All P (insert_row row rows)
insert_row-All P row [] p h = (p, tt)
insert_row-All P row (other ∷ rows) p h = elim (Bool-cases (comes_first row other)) [
  | inl e ↦ rw e (p, h)
  | inr e ↦ rw e (h.0, insert_row-All P row rows p h.1)
]

sort_rows-All : (P : RawQuery → Type 0) (rows : List RawQuery) → All P rows → All P (sort_rows rows)
unfolding sort_rows
sort_rows-All P [] h = tt
sort_rows-All P (row ∷ rows) h =
    insert_row-All P row (sort_rows rows) h.0 (sort_rows-All P rows h.1)

length-insert_row :
    (row : RawQuery) (rows : List RawQuery) → length (insert_row row rows) ≡ suc (length rows)
length-insert_row row [] = refl
length-insert_row row (other ∷ rows) = ground (arith, length-insert_row row rows)

length-sort_rows : (rows : List RawQuery) → length (sort_rows rows) ≡ length rows
unfolding sort_rows
length-sort_rows [] = refl
length-sort_rows (row ∷ rows) =
    length-insert_row row (sort_rows rows) ∙ ap suc (length-sort_rows rows)

length-take-min : (n : ℕ) (rows : List RawQuery) → length (take n rows) ≡ min n (length rows)
length-take-min zero rows = omega arith
length-take-min (suc n) [] = omega arith
length-take-min (suc n) (row ∷ rows) = omega (arith, length-take-min n rows)

insert_row-Perm : (row : RawQuery) (rows : List RawQuery) → Perm (row ∷ rows) (insert_row row rows)
insert_row-Perm row [] = Perm.refl (row ∷ [])
insert_row-Perm row (other ∷ rows) = elim (Bool-cases (comes_first row other)) [
  | inl e ↦ rw e (Perm.refl (row ∷ other ∷ rows))
  | inr e ↦
      rw e (Perm.trans (Perm.swap other row rows) (Perm.cons other (insert_row-Perm row rows)))
]

sort_rows-Perm : (rows : List RawQuery) → Perm rows (sort_rows rows)
unfolding sort_rows
sort_rows-Perm [] = Perm.refl []
sort_rows-Perm (row ∷ rows) =
    Perm.trans (Perm.cons row (sort_rows-Perm rows)) (insert_row-Perm row (sort_rows rows))

-- The rows of the export are the first ones, as many as the limit, of the selected rows of the table, put in order.
pub record AreExported (v : ValidatedRawQueryExport) (table rows : List RawQuery) : Type 0 where
  pub selected : All (λ row. is_selected v row ≡ true) rows
  pub ordered : List RawQuery
  pub in_order : AreInOrder ordered
  pub permuted : Perm (keep (is_selected v) table) ordered
  pub newest : rows ≡ take v.effective_limit ordered
  pub counted : length rows ≡ min v.effective_limit (count (is_selected v) table)

pub fetch_raw_query_logs-AreExported :
    (v : ValidatedRawQueryExport) (table : List RawQuery)
    → AreExported v table (fetch_raw_query_logs v table)
unfolding fetch_raw_query_logs
fetch_raw_query_logs-AreExported v table = record {
  selected =
      All-take (λ row. is_selected v row ≡ true) v.effective_limit
        (sort_rows (keep (is_selected v) table))
        (sort_rows-All (λ row. is_selected v row ≡ true) (keep (is_selected v) table)
          (keep-passes (is_selected v) table));
  ordered = sort_rows (keep (is_selected v) table);
  in_order = sort_rows-AreInOrder (keep (is_selected v) table);
  permuted = sort_rows-Perm (keep (is_selected v) table);
  newest = refl;
  counted =
      length-take-min v.effective_limit (sort_rows (keep (is_selected v) table))
      ∙ ap (min v.effective_limit)
          (length-sort_rows (keep (is_selected v) table) ∙ length-keep (is_selected v) table);
}
