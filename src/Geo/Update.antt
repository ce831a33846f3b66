-- ===== src/Geo/Update.antt =====
-- `update_geoms` of app/services/geo_service.py: passes over the parcels with no boundary, in batches.
-- `client` stands for `VWorldClient.get_parcel_geometry`: what the n-th call answers for an address.
-- The waits between calls are not modelled, nor are writes of other requests between two commits.
pub mod Steps
pub mod Free
pub mod Accounting
pub mod Termination
use parcel_explorer.Prelude.{
  ℕ, zero, suc, ◌+◌, String, Text, Bool, true, false, Option, none, some, List, [], ◌∷◌, ◌==◌,
  str_eq, if◌then◌else◌,
}
use parcel_explorer.Lands.{Table, fetch_missing_geom, update_geom, count_missing_geom}

pub data Answer : Type 0 where
  geometry : String → Answer
  no_geometry : Answer
  raises : Text → Answer

-- GEOM_BATCH_SIZE
abbrev pub geom_batch_size : ℕ
geom_batch_size = 50

-- the table, `updated_count`, and the calls made so far
pub record Progress (F : Type 0) : Type 0 where
  pub table : Table F
  pub updated : ℕ
  pub calls : ℕ

-- how a loop ended: by its own test, by an exception, or for want of fuel
pub data Ended : Type 0 where
  finished : Ended
  raised : Text → Ended
  out_of_fuel : Ended

-- the `after_id` that a batch leaves
unfoldable pub last_id : ℕ → List (ℕ × String) → ℕ
last_id after_id [] = after_id
last_id after_id (item ∷ items) = last_id item.0 items

-- The table, and the counts that are returned if the run finished; an exception returns neither.
pub record Updated (F : Type 0) : Type 0 where
  pub ended : Ended
  pub table : Table F
  pub updated_count : ℕ
  pub failed_count : ℕ

module _ {F : Type 0} (client : ℕ → String → Answer) where
  abbrev pub called : Progress F → Progress F
  called p = record p { calls = p.calls + 1 }

  -- `if geom_data`: an empty text is no geometry
  unfoldable pub process_answer : ℕ → Answer → Progress F → Ended × Progress F
  process_answer item_id (raises message) p = (raised message, called p)
  process_answer item_id no_geometry p = (finished, called p)
  process_answer item_id (geometry g) p = if str_eq g "" then (finished, called p) else (
    finished,
    record (called p) { table = update_geom item_id g p.table; updated = p.updated + 1 },
  )

  unfoldable pub process_item : ℕ × String → Progress F → Ended × Progress F
  unfolding process_answer
  process_item item p = process_answer item.0 (client p.calls item.1) p

  abbrev pub and_then : Ended × Progress F → (Progress F → Ended × Progress F) → Ended × Progress F
  and_then (finished, p) next = next p
  and_then (raised message, p) next = (raised message, p)
  and_then (out_of_fuel, p) next = (out_of_fuel, p)

  unfoldable pub process_batch : List (ℕ × String) → Progress F → Ended × Progress F
  process_batch [] p = (finished, p)
  process_batch (item ∷ items) p = and_then (process_item item p) (λ p'. process_batch items p')

  -- the body of the `while` loop on a fetched batch: `break`, or the batch and the next round
  abbrev pub pass_batch :
      (ℕ → Progress F → Ended × Progress F)
      → ℕ
      → List (ℕ × String)
      → Progress F
      → Ended × Progress F
  pass_batch next after_id [] p = (finished, p)
  pass_batch next after_id (item ∷ items) p =
      and_then (process_batch (item ∷ items) p) (next (last_id after_id (item ∷ items)))

  unfoldable pub pass : ℕ → ℕ → Progress F → Ended × Progress F
  pass zero after_id p = (out_of_fuel, p)
  pass (suc fuel) after_id p =
      pass_batch (λ id p'. pass fuel id p') after_id
        (fetch_missing_geom (some geom_batch_size) after_id p.table) p

  -- A pass ends after at most one batch for each id.
  unfoldable pub one_pass : Progress F → Ended × Progress F
  one_pass p = pass (suc p.table.next_id) 0 p

  -- if count_missing_geom(conn) == 0: break
  abbrev pub unless_complete : (Progress F → Ended × Progress F) → Progress F → Ended × Progress F
  unless_complete next p = elim (count_missing_geom p.table) [
    | zero ↦ (finished, p)
    | suc _ ↦ next p
  ]

  -- for attempt in range(1, max_retries + 1)
  unfoldable pub attempts : ℕ → Progress F → Ended × Progress F
  attempts zero p = (finished, p)
  attempts (suc left) p =
      and_then (one_pass p) (λ p'. unless_complete (λ p''. attempts left p'') p')

  unfoldable pub update_geoms : ℕ → Table F → Updated F
  update_geoms max_retries t =
      let (ended, p) = attempts max_retries (record { table = t; updated = 0; calls = 0 }) in
      record {
        ended = ended;
        table = p.table;
        updated_count = p.updated;
        failed_count = count_missing_geom p.table;
      }
