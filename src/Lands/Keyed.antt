-- ===== src/Lands/Keyed.antt =====
-- The ids of the table: strictly increasing and below the next one.
use parcel_explorer.Prelude.{
  ℕ, ◌<◌, String, ◌≡◌, Bool, List, [], ◌∷◌, ◌++◌, map, arith, keep, All, All-append, All-keep,
  All-map, Bool-cases, inl, inr,
}
use parcel_explorer.Lands.{
  Land, Table, NewLand, stored, delete_all, insert_land, write_geom, update_geom,
}

module _ {F : Type 0} where
  abbrev pub IsIncreasing : List (Land F) → Type 0
  IsIncreasing [] = Unit
  IsIncreasing (land ∷ rows) = All (λ (l : Land F). land.id < l.id) rows × IsIncreasing rows

  pub record IsKeyed (t : Table F) : Type 0 where
    pub increasing : IsIncreasing t.rows
    pub below : All (λ (l : Land F). l.id < t.next_id) t.rows

  pub keep-IsIncreasing :
      (p : Land F → Bool) (rows : List (Land F)) → IsIncreasing rows → IsIncreasing (keep p rows)
  keep-IsIncreasing p [] h = tt
  keep-IsIncreasing p (l ∷ rows) h = elim (Bool-cases (p l)) [
    | inl e ↦ rw e (All-keep _ p rows h.0, keep-IsIncreasing p rows h.1)
    | inr e ↦ rw e (keep-IsIncreasing p rows h.1)
  ]

  append-IsIncreasing :
      (rows : List (Land F)) (l : Land F)
      → IsIncreasing rows
      → All (λ (r : Land F). r.id < l.id) rows
      → IsIncreasing (rows ++ l ∷ [])
  append-IsIncreasing [] l h a = (tt, tt)
  append-IsIncreasing (r ∷ rows) l h a =
      (All-append _ rows (l ∷ []) h.0 (a.0, tt), append-IsIncreasing rows l h.1 a.1)

  pub insert_land-IsKeyed :
      (new : NewLand F) (t : Table F) → IsKeyed t → IsKeyed (insert_land new t)
  unfolding insert_land
  insert_land-IsKeyed new t k = record {
    increasing = append-IsIncreasing t.rows (stored t.next_id new) k.increasing k.below;
    below =
        All-append _ t.rows (stored t.next_id new ∷ [])
          (All-map (λ (l : Land F) (h : l.id < t.next_id). omega arith) t.rows k.below)
          (omega arith, tt);
  }

  pub delete_all-IsKeyed : (t : Table F) → IsKeyed (delete_all t)
  unfolding delete_all
  delete_all-IsKeyed t = record { increasing = tt; below = tt }

  module _ (item_id : ℕ) (geom : String) where
    id-write_geom : (l : Land F) → (write_geom item_id geom l).id ≡ l.id
    id-write_geom l = ground arith

    above-map :
        (n : ℕ) (rows : List (Land F))
        → All (λ (l : Land F). n < l.id) rows
        → All (λ (l : Land F). n < l.id) (map (write_geom item_id geom) rows)
    above-map n [] h = tt
    above-map n (l ∷ rows) h = (rw id-write_geom h.0, above-map n rows h.1)

    below-map :
        (n : ℕ) (rows : List (Land F))
        → All (λ (l : Land F). l.id < n) rows
        → All (λ (l : Land F). l.id < n) (map (write_geom item_id geom) rows)
    below-map n [] h = tt
    below-map n (l ∷ rows) h = (rw id-write_geom h.0, below-map n rows h.1)

    map-IsIncreasing :
        (rows : List (Land F))
        → IsIncreasing rows
        → IsIncreasing (map (write_geom item_id geom) rows)
    map-IsIncreasing [] h = tt
    map-IsIncreasing (l ∷ rows) h =
        (rw id-write_geom (above-map l.id rows h.0), map-IsIncreasing rows h.1)

    pub update_geom-IsKeyed : (t : Table F) → IsKeyed t → IsKeyed (update_geom item_id geom t)
    unfolding update_geom
    update_geom-IsKeyed t k = record {
      increasing = map-IsIncreasing t.rows k.increasing;
      below = below-map t.next_id t.rows k.below;
    }
