-- ===== src/Geo/Update/Steps.antt =====
-- The invariant rules of the loops of `update_geoms`, and the cases of one call.
use parcel_explorer.Prelude.{
  ℕ, zero, suc, String, ◌≡◌, refl, ◌⊎◌, inl, inr, some, List, [], ◌∷◌, arith, str_eq, Bool-cases,
}
use parcel_explorer.Lands.{fetch_missing_geom, update_geom, count_missing_geom}
use parcel_explorer.Geo.Update.{
  Answer, geometry, no_geometry, raises, geom_batch_size, Progress, Ended, finished, raised,
  out_of_fuel, last_id, process_answer, process_item, process_batch, and_then, pass_batch,
  unless_complete, pass, one_pass, attempts,
}

module _ {F : Type 0} (client : ℕ → String → Answer) where
  process_answer_cases :
      (item_id : ℕ) (a : Answer) (p : Progress F)
      → (((process_answer client item_id a p).1.table ≡ p.table)
          × ((process_answer client item_id a p).1.updated ≡ p.updated))
        ⊎ ((g : String) × ((process_answer client item_id a p).1.table
              ≡ update_geom item_id g p.table)
            × ((process_answer client item_id a p).1.updated ≡ suc p.updated))
  unfolding process_answer
  process_answer_cases item_id (raises m) p = inl (refl, refl)
  process_answer_cases item_id no_geometry p = inl (refl, refl)
  process_answer_cases item_id (geometry g) p = elim (Bool-cases (str_eq g "")) [
    | inl e ↦ inl (rw e, rw e)
    | inr e ↦ inr (g, rw e, rw e (omega arith))
  ]

  -- a call leaves the table, or writes one geometry and counts it
  pub process_item_cases :
      (item : ℕ × String) (p : Progress F)
      → (((process_item client item p).1.table ≡ p.table)
          × ((process_item client item p).1.updated ≡ p.updated))
        ⊎ ((g : String) × ((process_item client item p).1.table ≡ update_geom item.0 g p.table)
            × ((process_item client item p).1.updated ≡ suc p.updated))
  unfolding process_item
  process_item_cases item p = process_answer_cases item.0 (client p.calls item.1) p

  module _ (P : Progress F → Type 0) where
    and_then_inv :
        (r : Ended × Progress F) (next : Progress F → Ended × Progress F)
        → P r.1
        → ((p : Progress F) → P p → P (next p).1)
        → P (and_then client r next).1
    and_then_inv (finished, p) next h k = k p h
    and_then_inv (raised m, p) next h k = h
    and_then_inv (out_of_fuel, p) next h k = h

    pub process_batch_inv :
        ((item : ℕ × String) (p : Progress F) → P p → P (process_item client item p).1)
        → (items : List (ℕ × String)) (p : Progress F) → P p
        → P (process_batch client items p).1
    unfolding process_batch
    process_batch_inv step [] p h = h
    process_batch_inv step (item ∷ items) p h =
        and_then_inv (process_item client item p) _ (step item p h) (process_batch_inv step items)

    -- `P` is kept by the batches that the loop fetches
    abbrev pub KeptByBatches : Type 0
    KeptByBatches =
        (after_id : ℕ) (p : Progress F)
        → P p
        → P (process_batch client (fetch_missing_geom (some geom_batch_size) after_id p.table) p).1

    batch_inv :
        (fuel after_id : ℕ) (batch : List (ℕ × String)) (p : Progress F)
        → P p
        → P (process_batch client batch p).1
        → ((id : ℕ) (p' : Progress F) → P p' → P (pass client fuel id p').1)
        → P (pass_batch client (λ id p'. pass client fuel id p') after_id batch p).1
    batch_inv fuel after_id [] p h h' next = h
    batch_inv fuel after_id (item ∷ items) p h h' next =
        and_then_inv (process_batch client (item ∷ items) p) _ h'
          (next (last_id after_id (item ∷ items)))

    unless_complete_inv :
        (next : Progress F → Ended × Progress F) (p : Progress F)
        → P p
        → P (next p).1
        → P (unless_complete client next p).1
    unless_complete_inv next p h k = go (count_missing_geom p.table)
      where
        go :
            (n : ℕ)
            → P (elim n as (λ _. Ended × Progress F) [ zero ↦ (finished, p) | suc _ ↦ next p ]).1
        go zero = h
        go (suc n) = k

    pub pass_inv :
        KeptByBatches
        → (fuel after_id : ℕ) (p : Progress F) → P p
        → P (pass client fuel after_id p).1
    unfolding pass
    pass_inv keep zero after_id p h = h
    pass_inv keep (suc fuel) after_id p h =
        batch_inv fuel after_id (fetch_missing_geom (some geom_batch_size) after_id p.table) p h
          (keep after_id p h) (pass_inv keep fuel)

    pub attempts_inv :
        KeptByBatches → (left : ℕ) (p : Progress F) → P p → P (attempts client left p).1
    unfolding attempts one_pass
    attempts_inv keep zero p h = h
    attempts_inv keep (suc left) p h =
        and_then_inv (one_pass client p) _ (pass_inv keep (suc p.table.next_id) 0 p h) (λ p' h'.
          unless_complete_inv (λ p''. attempts client left p'') p' h'
            (attempts_inv keep left p' h'))
