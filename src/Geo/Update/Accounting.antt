-- ===== src/Geo/Update/Accounting.antt =====
-- The counts that `update_geoms` returns, and what it does to the rows.
use parcel_explorer.Prelude.{
  ℕ, ◌+◌, String, ◌≡◌, refl, ◌⊎◌, inl, inr, true, none, some, List, [], ◌∷◌, map, arith, ◌==◌,
  count, All, Bool-cases,
}
use parcel_explorer.Lands.{
  Land, Table, is_missing, fetch_missing_geom, write_geom, update_geom, count_missing_geom,
}
use parcel_explorer.Lands.Keyed.{IsKeyed, update_geom-IsKeyed}
use parcel_explorer.Geo.Update.{
  Answer, geom_batch_size, Progress, process_item, attempts, update_geoms,
}
use parcel_explorer.Geo.Update.Steps.{process_item_cases, KeptByBatches, attempts_inv}
use parcel_explorer.Geo.Update.Free.{IsFree, fetch_missing_geom-IsFree, process_free_batch_inv}

module _ {F : Type 0} where
  -- the row is as it was, or it had no geometry and now has one
  abbrev pub IsFilledFrom : Land F → Land F → Type 0
  IsFilledFrom old new =
      (new ≡ old) ⊎ ((old.geom ≡ none) × ((g : String) × (new ≡ record old { geom = some g })))

  abbrev pub AreFilledFrom : List (Land F) → List (Land F) → Type 0
  AreFilledFrom [] [] = Unit
  AreFilledFrom (old ∷ olds) (new ∷ news) = IsFilledFrom old new × AreFilledFrom olds news
  AreFilledFrom _ _ = ⊥

  AreFilledFrom-refl : (rows : List (Land F)) → AreFilledFrom rows rows
  AreFilledFrom-refl [] = tt
  AreFilledFrom-refl (l ∷ rows) = (inl refl, AreFilledFrom-refl rows)

  fill_missing :
      (g : String) (old new : Land F)
      → is_missing new ≡ true
      → IsFilledFrom old new
      → IsFilledFrom old (record new { geom = some g })
  fill_missing g old new m (inl same) = inr (ground arith, (g, ground arith))
  fill_missing g old new m (inr (_, (h, filled))) = absurd (ground arith)

  fill_one :
      (id : ℕ) (g : String) (old new : Land F)
      → (new.id ≡ id → is_missing new ≡ true)
      → IsFilledFrom old new
      → IsFilledFrom old (write_geom id g new)
  fill_one id g old new m f = elim (Bool-cases (new.id == id)) [
    | inl here ↦ rw here (fill_missing g old new (m (ground arith)) f)
    | inr other ↦ rw other f
  ]

  fill_rows :
      (id : ℕ) (g : String) (olds news : List (Land F))
      → All (λ (l : Land F). l.id ≡ id → is_missing l ≡ true) news
      → AreFilledFrom olds news
      → AreFilledFrom olds (map (write_geom id g) news)
  fill_rows id g [] [] m f = tt
  fill_rows id g [] (new ∷ news) m f = absurd f
  fill_rows id g (old ∷ olds) [] m f = absurd f
  fill_rows id g (old ∷ olds) (new ∷ news) m f =
      (fill_one id g old new m.0 f.0, fill_rows id g olds news m.1 f.1)

  count-missing-write :
      (id : ℕ) (g : String) (rows : List (Land F))
      → All (λ (l : Land F). l.id ≡ id → is_missing l ≡ true) rows
      → count is_missing (map (write_geom id g) rows) + count (λ (l : Land F). l.id == id) rows
        ≡ count is_missing rows
  count-missing-write id g [] h = refl
  count-missing-write id g (l ∷ rows) h = ground (arith, h.0, count-missing-write id g rows h.1)

  -- what the loops keep, from the table `t` on
  record IsCounted (t : Table F) (p : Progress F) : Type 0 where
    keyed : IsKeyed p.table
    next_id : p.table.next_id ≡ t.next_id
    filled : AreFilledFrom t.rows p.table.rows
    counted : p.updated + count is_missing p.table.rows ≡ count is_missing t.rows

module _ {F : Type 0} (client : ℕ → String → Answer) (t : Table F) where
  process_item-IsCounted :
      (item : ℕ × String) (p : Progress F)
      → IsCounted t p
      → IsFree item.0 p.table.rows
      → IsCounted t (process_item client item p).1
  unfolding update_geom
  process_item-IsCounted item p c f = elim (process_item_cases client item p) [
    | inl (same, n) ↦ record {
      keyed = rw same c.keyed;
      next_id = rw same c.next_id;
      filled = rw same c.filled;
      counted = rw (same, n) c.counted;
    }
    | inr (g, written, n) ↦ record {
      keyed = rw written (update_geom-IsKeyed item.0 g p.table c.keyed);
      next_id = rw written c.next_id;
      filled = rw written (fill_rows item.0 g t.rows p.table.rows f.missing c.filled);
      counted =
          rw (written, n)
            (omega (arith, c.counted, f.once, count-missing-write item.0 g p.table.rows f.missing));
    }
  ]

  IsCounted-KeptByBatches : KeptByBatches client (IsCounted t)
  IsCounted-KeptByBatches after_id p c =
      let (free, increasing) = fetch_missing_geom-IsFree after_id p.table c.keyed in
      process_free_batch_inv client (IsCounted t) process_item-IsCounted
        (fetch_missing_geom (some geom_batch_size) after_id p.table) p increasing free c

  -- Whatever the client answers, and however the run ends: each row is as it was or had no geometry and
  -- got one, no row comes or goes, and the number of updates counted and of rows still without a
  -- geometry add up to the rows that had none before.
  pub update_geoms-counts :
      (max_retries : ℕ)
      → IsKeyed t
      → AreFilledFrom t.rows (update_geoms client max_retries t).table.rows
        × ((update_geoms client max_retries t).updated_count
              + (update_geoms client max_retries t).failed_count
            ≡ count_missing_geom t)
        × ((update_geoms client max_retries t).failed_count
            ≡ count_missing_geom (update_geoms client max_retries t).table)
        × IsKeyed (update_geoms client max_retries t).table
  unfolding update_geoms count_missing_geom
  update_geoms-counts max_retries k =
      let start : Progress F = record { table = t; updated = 0; calls = 0 } in
      let c : IsCounted t (attempts client max_retries start).1 =
        attempts_inv client (IsCounted t) IsCounted-KeptByBatches max_retries start (record {
          keyed = k;
          next_id = refl;
          filled = AreFilledFrom-refl t.rows;
          counted = omega arith;
        }) in
      (c.filled, c.counted, refl, c.keyed)
