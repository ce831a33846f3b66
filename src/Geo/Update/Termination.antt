-- ===== src/Geo/Update/Termination.antt =====
-- The loops of `update_geoms` end by their own tests: the fuel is never used up.
use parcel_explorer.Prelude.{
  ℕ, zero, suc, ◌-◌, ◌<◌, String, ◌≡◌, refl, ◌≢◌, ◌&&◌, some, List, [], ◌∷◌, map, arith, ltb, keep,
  All, All-take, inl, inr,
}
use parcel_explorer.Lands.{Land, Table, is_missing, fetch_missing_geom, update_geom}
use parcel_explorer.Lands.Keyed.{IsKeyed, update_geom-IsKeyed}
use parcel_explorer.Geo.Update.Steps.{
  process_item_cases, process_batch_inv, KeptByBatches, pass_inv,
}
use parcel_explorer.Geo.Update.{
  Answer, geom_batch_size, Progress, Ended, finished, raised, out_of_fuel, last_id, process_answer,
  process_item, process_batch, and_then, pass_batch, unless_complete, pass, one_pass, attempts,
  update_geoms,
}

-- items of a batch lie behind `after_id` and below the next id
abbrev pub LieBetween : ℕ → ℕ → List (ℕ × String) → Type 0
LieBetween after_id next_id items =
    All (λ (item : ℕ × String). (after_id < item.0) × (item.0 < next_id)) items

module _ {F : Type 0} where
  between-map :
      (after_id next_id : ℕ) (rows : List (Land F))
      → All (λ (l : Land F). l.id < next_id) rows
      → LieBetween after_id next_id (
          map
            (λ (land : Land F). (land.id, land.address))
            (keep (λ land. is_missing land && ltb after_id land.id) rows))
  between-map after_id next_id [] h = tt
  between-map after_id next_id (l ∷ rows) h = ground (arith, between-map after_id next_id rows h.1)

  pub fetch_missing_geom-between :
      (after_id : ℕ) (t : Table F)
      → IsKeyed t
      → LieBetween after_id t.next_id (fetch_missing_geom (some geom_batch_size) after_id t)
  unfolding fetch_missing_geom
  fetch_missing_geom-between after_id t k =
      All-take _ geom_batch_size _ (between-map after_id t.next_id t.rows k.below)

last_id-between :
    (after_id next_id : ℕ) (item : ℕ × String) (items : List (ℕ × String))
    → LieBetween after_id next_id (item ∷ items)
    → (after_id < last_id after_id (item ∷ items)) × (last_id after_id (item ∷ items) < next_id)
unfolding last_id
last_id-between after_id next_id item [] h = h.0
last_id-between after_id next_id item (item' ∷ items) h =
    last_id-between after_id next_id item' items h.1

-- a keyed table with this next id
abbrev pub HasNextId : {F : Type 0} → ℕ → Progress F → Type 0
HasNextId next_id p = IsKeyed p.table × (p.table.next_id ≡ next_id)

module _ {F : Type 0} (client : ℕ → String → Answer) where
  process_item-HasNextId :
      (next_id : ℕ) (item : ℕ × String) (p : Progress F)
      → HasNextId next_id p
      → HasNextId next_id (process_item client item p).1
  unfolding update_geom
  process_item-HasNextId next_id item p h = elim (process_item_cases client item p) [
    | inl (same, _) ↦ rw same h
    | inr (g, written, _) ↦ rw written (update_geom-IsKeyed item.0 g p.table h.0, h.1)
  ]

  batch-HasNextId :
      (next_id : ℕ) (items : List (ℕ × String)) (p : Progress F)
      → HasNextId next_id p
      → HasNextId next_id (process_batch client items p).1
  batch-HasNextId next_id =
      process_batch_inv client (HasNextId next_id) (process_item-HasNextId next_id)

  process_answer_fuel :
      (id : ℕ) (a : Answer) (p : Progress F) → (process_answer client id a p).0 ≢ out_of_fuel
  unfolding process_answer
  process_answer_fuel id a p = ground arith

  and_then_fuel :
      (r : Ended × Progress F) (next : Progress F → Ended × Progress F)
      → r.0 ≢ out_of_fuel
      → (next r.1).0 ≢ out_of_fuel
      → (and_then client r next).0 ≢ out_of_fuel
  and_then_fuel (finished, p) next h k = k
  and_then_fuel (raised m, p) next h k = h
  and_then_fuel (out_of_fuel, p) next h k = h

  process_batch_fuel :
      (items : List (ℕ × String)) (p : Progress F) → (process_batch client items p).0 ≢ out_of_fuel
  unfolding process_batch process_item
  process_batch_fuel [] p = λ e. cc
  process_batch_fuel (item ∷ items) p =
      and_then_fuel (process_item client item p) (λ p'. process_batch client items p')
        (process_answer_fuel item.0 (client p.calls item.1) p)
        (process_batch_fuel items (process_item client item p).1)

  pass_batch_fuel :
      (fuel after_id next_id : ℕ) (batch : List (ℕ × String)) (p : Progress F)
      → next_id - after_id < suc fuel
      → LieBetween after_id next_id batch
      → HasNextId next_id p
      → ((id : ℕ) (p' : Progress F)
          → HasNextId next_id p'
          → next_id - id < fuel
          → (pass client fuel id p').0 ≢ out_of_fuel)
      → (pass_batch client (λ id p'. pass client fuel id p') after_id batch p).0 ≢ out_of_fuel
  pass_batch_fuel fuel after_id next_id [] p h b k next = λ e. cc
  pass_batch_fuel fuel after_id next_id (item ∷ items) p h b k next =
      let bounds = last_id-between after_id next_id item items b in
      and_then_fuel (process_batch client (item ∷ items) p)
        (pass client fuel (last_id after_id (item ∷ items))) (process_batch_fuel (item ∷ items) p)
        (next (last_id after_id (item ∷ items)) (process_batch client (item ∷ items) p).1
          (batch-HasNextId next_id (item ∷ items) p k) (omega arith))

  pass_fuel :
      (fuel after_id next_id : ℕ) (p : Progress F)
      → HasNextId next_id p
      → next_id - after_id < fuel
      → (pass client fuel after_id p).0 ≢ out_of_fuel
  unfolding pass
  pass_fuel zero after_id next_id p k h = absurd (omega arith)
  pass_fuel (suc fuel) after_id next_id p k h =
      pass_batch_fuel fuel after_id next_id
        (fetch_missing_geom (some geom_batch_size) after_id p.table) p h
        (rw (← k.1) (fetch_missing_geom-between after_id p.table k.0)) k
        (λ id p' k' h'. pass_fuel fuel id next_id p' k' h')

  HasNextId-KeptByBatches : (next_id : ℕ) → KeptByBatches {F = F} client (HasNextId next_id)
  HasNextId-KeptByBatches next_id after_id p h =
      batch-HasNextId next_id (fetch_missing_geom (some geom_batch_size) after_id p.table) p h

  unless_complete_fuel :
      (next : Progress F → Ended × Progress F) (p : Progress F)
      → (next p).0 ≢ out_of_fuel
      → (unless_complete client next p).0 ≢ out_of_fuel
  unless_complete_fuel next p h = ground arith

  attempts_fuel :
      (left next_id : ℕ) (p : Progress F)
      → HasNextId next_id p
      → (attempts client left p).0 ≢ out_of_fuel
  unfolding attempts one_pass
  attempts_fuel zero next_id p k = λ e. cc
  attempts_fuel (suc left) next_id p k =
      let passed =
        pass_inv client (HasNextId next_id) (HasNextId-KeptByBatches next_id) (suc p.table.next_id)
          0 p k in
      and_then_fuel (one_pass client p) _
        (pass_fuel (suc p.table.next_id) 0 next_id p k (omega (arith, k.1)))
        (unless_complete_fuel (λ p''. attempts client left p'') _
          (attempts_fuel left next_id _ passed))

  -- On a table with increasing ids below the next one, the loops of `update_geoms` end by their own tests
  -- or by an exception of the client, whatever it answers: the fuel that the model gives is enough.
  pub update_geoms-ends :
      (max_retries : ℕ) (t : Table F)
      → IsKeyed t
      → (update_geoms client max_retries t).ended ≢ out_of_fuel
  unfolding update_geoms
  update_geoms-ends max_retries t k =
      attempts_fuel max_retries t.next_id (record { table = t; updated = 0; calls = 0 }) (k, refl)
