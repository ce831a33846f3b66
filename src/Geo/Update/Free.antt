-- ===== src/Geo/Update/Free.antt =====
-- A fetched batch names distinct rows that have no geometry, so that each write fills one row.
use parcel_explorer.Prelude.{
  ℕ, zero, suc, ◌<◌, String, ◌≡◌, refl, ◌∙◌, inl, inr, true, ◌&&◌, some, List, [], ◌∷◌, map, arith,
  ◌==◌, ltb, count, keep, take, All, All-take, Bool-cases,
}
use parcel_explorer.Lands.{Land, Table, is_missing, fetch_missing_geom, write_geom, update_geom}
use parcel_explorer.Lands.Keyed.{IsIncreasing, IsKeyed}
use parcel_explorer.Geo.Update.{
  Answer, geom_batch_size, Progress, Ended, finished, raised, out_of_fuel, process_item,
  process_batch, and_then,
}
use parcel_explorer.Geo.Update.Steps.{process_item_cases}

-- the ids of a batch increase
abbrev pub AreIncreasing : List (ℕ × String) → Type 0
AreIncreasing [] = Unit
AreIncreasing (item ∷ items) =
    All (λ (later : ℕ × String). item.0 < later.0) items × AreIncreasing items

take-AreIncreasing :
    (n : ℕ) (items : List (ℕ × String)) → AreIncreasing items → AreIncreasing (take n items)
take-AreIncreasing zero items h = tt
take-AreIncreasing (suc n) [] h = tt
take-AreIncreasing (suc n) (item ∷ items) h =
    (All-take _ n items h.0, take-AreIncreasing n items h.1)

module _ {F : Type 0} where
  -- exactly one row has the id, and it has no geometry
  pub record IsFree (id : ℕ) (rows : List (Land F)) : Type 0 where
    pub once : count (λ (l : Land F). l.id == id) rows ≡ 1
    pub missing : All (λ (l : Land F). l.id ≡ id → is_missing l ≡ true) rows

  abbrev pub item_of : Land F → ℕ × String
  item_of land = (land.id, land.address)

  abbrev pub missing_after : ℕ → List (Land F) → List (ℕ × String)
  missing_after after_id rows =
      map item_of (keep (λ (l : Land F). is_missing l && ltb after_id l.id) rows)

  none_above :
      (id : ℕ) (rows : List (Land F))
      → All (λ (l : Land F). id < l.id) rows
      → (count (λ (l : Land F). l.id == id) rows ≡ 0)
        × All (λ (l : Land F). l.id ≡ id → is_missing l ≡ true) rows
  none_above id [] h = (refl, tt)
  none_above id (l ∷ rows) h =
      let (none_here, all) = none_above id rows h.1 in
      (ground arith, (λ e. absurd (omega arith), all))

  items-above :
      (id after_id : ℕ) (rows : List (Land F))
      → All (λ (l : Land F). id < l.id) rows
      → All (λ (item : ℕ × String). id < item.0) (missing_after after_id rows)
  items-above id after_id [] h = tt
  items-above id after_id (l ∷ rows) h = elim (Bool-cases (is_missing l && ltb after_id l.id)) [
    | inl e ↦ rw e (h.0, items-above id after_id rows h.1)
    | inr e ↦ rw e (items-above id after_id rows h.1)
  ]

  IsFree-cons :
      (id : ℕ) (l : Land F) (rows : List (Land F))
      → l.id < id
      → IsFree id rows
      → IsFree id (l ∷ rows)
  IsFree-cons id l rows h f = record {
    once = ground (arith, f.once);
    missing = (λ e. absurd (omega arith), f.missing);
  }

  frees-cons :
      (l : Land F) (rows : List (Land F)) (items : List (ℕ × String))
      → All (λ (item : ℕ × String). l.id < item.0) items
      → All (λ (item : ℕ × String). IsFree item.0 rows) items
      → All (λ (item : ℕ × String). IsFree item.0 (l ∷ rows)) items
  frees-cons l rows [] h f = tt
  frees-cons l rows (item ∷ items) h f =
      (IsFree-cons item.0 l rows h.0 f.0, frees-cons l rows items h.1 f.1)

  missing_after-IsFree :
      (after_id : ℕ) (rows : List (Land F))
      → IsIncreasing rows
      → All (λ (item : ℕ × String). IsFree item.0 rows) (missing_after after_id rows)
  missing_after-IsFree after_id [] h = tt
  missing_after-IsFree after_id (l ∷ rows) h =
      let later =
        frees-cons l rows (missing_after after_id rows) (items-above l.id after_id rows h.0)
          (missing_after-IsFree after_id rows h.1) in
      elim (Bool-cases (is_missing l && ltb after_id l.id)) [
        | inl e ↦
            let (none_later, all) = none_above l.id rows h.0 in
            rw e (record { once = ground arith; missing = (λ x. ground arith, all) }, later)
        | inr e ↦ rw e later
      ]

  missing_after-AreIncreasing :
      (after_id : ℕ) (rows : List (Land F))
      → IsIncreasing rows
      → AreIncreasing (missing_after after_id rows)
  missing_after-AreIncreasing after_id [] h = tt
  missing_after-AreIncreasing after_id (l ∷ rows) h =
      let later = missing_after-AreIncreasing after_id rows h.1 in
      elim (Bool-cases (is_missing l && ltb after_id l.id)) [
        | inl e ↦ rw e (items-above l.id after_id rows h.0, later)
        | inr e ↦ rw e later
      ]

  pub fetch_missing_geom-IsFree :
      (after_id : ℕ) (t : Table F)
      → IsKeyed t
      → All
          (λ (item : ℕ × String). IsFree item.0 t.rows)
          (fetch_missing_geom (some geom_batch_size) after_id t)
        × AreIncreasing (fetch_missing_geom (some geom_batch_size) after_id t)
  unfolding fetch_missing_geom
  fetch_missing_geom-IsFree after_id t k = (
    All-take _ geom_batch_size (missing_after after_id t.rows)
        (missing_after-IsFree after_id t.rows k.increasing),
    take-AreIncreasing geom_batch_size (missing_after after_id t.rows)
        (missing_after-AreIncreasing after_id t.rows k.increasing),
  )

  -- a write to one row leaves the others free
  map-once :
      (i j : ℕ) (g : String) (rows : List (Land F))
      → count (λ (l : Land F). l.id == j) (map (write_geom i g) rows)
        ≡ count (λ (l : Land F). l.id == j) rows
  map-once i j g [] = refl
  map-once i j g (l ∷ rows) = ground (arith, map-once i j g rows)

  map-missing :
      (i j : ℕ) (g : String) (rows : List (Land F))
      → i < j
      → All (λ (l : Land F). l.id ≡ j → is_missing l ≡ true) rows
      → All (λ (l : Land F). l.id ≡ j → is_missing l ≡ true) (map (write_geom i g) rows)
  map-missing i j g [] h a = tt
  map-missing i j g (l ∷ rows) h a = (λ e. ground (arith, a.0), map-missing i j g rows h a.1)

  map-IsFree :
      (i j : ℕ) (g : String) (rows : List (Land F))
      → i < j
      → IsFree j rows
      → IsFree j (map (write_geom i g) rows)
  map-IsFree i j g rows h f = record {
    once = map-once i j g rows ∙ f.once;
    missing = map-missing i j g rows h f.missing;
  }

  map-frees :
      (i : ℕ) (g : String) (rows : List (Land F)) (items : List (ℕ × String))
      → All (λ (item : ℕ × String). i < item.0) items
      → All (λ (item : ℕ × String). IsFree item.0 rows) items
      → All (λ (item : ℕ × String). IsFree item.0 (map (write_geom i g) rows)) items
  map-frees i g rows [] h f = tt
  map-frees i g rows (item ∷ items) h f =
      (map-IsFree i item.0 g rows h.0 f.0, map-frees i g rows items h.1 f.1)

module _ {F : Type 0} (client : ℕ → String → Answer) where
  process_item-frees :
      (item : ℕ × String) (items : List (ℕ × String)) (p : Progress F)
      → All (λ (later : ℕ × String). item.0 < later.0) items
      → All (λ (later : ℕ × String). IsFree later.0 p.table.rows) items
      → All (λ (later : ℕ × String). IsFree later.0 (process_item client item p).1.table.rows) items
  unfolding update_geom
  process_item-frees item items p h f = elim (process_item_cases client item p) [
    | inl (same, _) ↦ rw same f
    | inr (g, written, _) ↦ rw written (map-frees item.0 g p.table.rows items h f)
  ]

  module _ (P : Progress F → Type 0) where
    batch_then :
        (r : Ended × Progress F) (items : List (ℕ × String))
        → P r.1
        → P (process_batch client items r.1).1
        → P (and_then client r (λ p'. process_batch client items p')).1
    batch_then (finished, p) items h k = k
    batch_then (raised m, p) items h k = h
    batch_then (out_of_fuel, p) items h k = h

    -- What a call for a free row keeps, a batch of free rows keeps.
    pub process_free_batch_inv :
        ((item : ℕ × String) (p : Progress F)
          → P p
          → IsFree item.0 p.table.rows
          → P (process_item client item p).1)
        → (items : List (ℕ × String)) (p : Progress F) → AreIncreasing items
        → All (λ (item : ℕ × String). IsFree item.0 p.table.rows) items
        → P p
        → P (process_batch client items p).1
    unfolding process_batch
    process_free_batch_inv step [] p o f h = h
    process_free_batch_inv step (item ∷ items) p o f h =
        batch_then (process_item client item p) items (step item p h f.0) (
          process_free_batch_inv step items (process_item client item p).1 o.1
            (process_item-frees item items p o.0 f.1) (step item p h f.0))
