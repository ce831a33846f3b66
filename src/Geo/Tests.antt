-- ===== src/Geo/Tests.antt =====
-- A run over a small table, its job, and the theorems about them there.
use parcel_explorer.Prelude.{
  ℕ, ◌+◌, max, String, codes, ◌≡◌, ◌≢◌, ◌⊎◌, refl, true, false, ◌&&◌, none, some, [], ◌∷◌, arith,
  ltb, ◌==◌, if◌then◌else◌,
}
use parcel_explorer.Lands.{Table, Land, fetch_missing_geom, update_geom, count_missing_geom}
use parcel_explorer.Lands.Keyed.{IsKeyed}
use parcel_explorer.Geo.Update.{
  Answer, geometry, no_geometry, raises, out_of_fuel, last_id, process_answer, process_item,
  process_batch, pass, one_pass, attempts, update_geoms,
}
use parcel_explorer.Geo.Update.Accounting.{AreFilledFrom, update_geoms-counts}
use parcel_explorer.Geo.Update.Termination.{update_geoms-ends}
use parcel_explorer.Geo.Jobs.{
  Job, failed, new_job, set_running, mark_geom_job_running, mark_geom_job_failed, fetch_geom_job,
}
use parcel_explorer.Geo.Service.{
  Database, ok, GeomRefreshStartResult, recover_interrupted_geom_jobs, run_geom_update_job,
  start_geom_refresh_job, get_geom_refresh_job_status,
}
use parcel_explorer.Geo.Active.{
  active_count, IsConcluded, start_geom_refresh_job-active_count, recover-active_count,
  run_geom_update_job-concludes,
}

abbrev parcel : ℕ → String → Land ℕ
parcel id address = record {
  id = id;
  address = address;
  land_type = "답";
  area = 120;
  adm_property = "a";
  gen_property = "g";
  contact = "c";
  geom = none;
}

abbrev two : Table ℕ
two = record { rows = parcel 1 "A" ∷ parcel 3 "B" ∷ []; next_id = 4 }

two-IsKeyed : IsKeyed two
two-IsKeyed = record {
  increasing = ((omega arith, tt), (tt, tt));
  below = (omega arith, (omega arith, tt));
}

-- the first call finds nothing, every later one a polygon
abbrev late : ℕ → String → Answer
late n address = if n == 0 then no_geometry else geometry "polygon"

abbrev broken : ℕ → String → Answer
broken n address = if n == 0 then geometry "polygon" else raises (codes "lost")

-- the second attempt fills what the first one left
late_run :
    ((update_geoms late 1 two).updated_count ≡ 1)
    × ((update_geoms late 1 two).failed_count ≡ 1)
    × ((update_geoms late 2 two).updated_count ≡ 2)
    × ((update_geoms late 2 two).failed_count ≡ 0)
unfolding update_geoms attempts one_pass pass process_batch process_item process_answer last_id
    fetch_missing_geom update_geom count_missing_geom
late_run = (refl, refl, refl, refl)

update_geoms-counts_example :
    AreFilledFrom two.rows (update_geoms broken 2 two).table.rows
    × ((update_geoms broken 2 two).updated_count + (update_geoms broken 2 two).failed_count
        ≡ count_missing_geom two)
    × ((update_geoms broken 2 two).failed_count
        ≡ count_missing_geom (update_geoms broken 2 two).table)
    × IsKeyed (update_geoms broken 2 two).table
update_geoms-counts_example = update_geoms-counts broken two 2 two-IsKeyed

update_geoms-ends_example : (update_geoms late 5 two).ended ≢ out_of_fuel
update_geoms-ends_example = update_geoms-ends late 5 two two-IsKeyed

abbrev job : Job
job = new_job "t0" 1

abbrev busy : Database ℕ
busy = record { lands = two; jobs = record { rows = set_running "t1" job ∷ []; next_id = 2 } }

abbrev idle : Database ℕ
idle = record { lands = two; jobs = record { rows = job ∷ []; next_id = 2 } }

-- the first row was filled, and the job says 0
broken_run :
    (fetch_geom_job 1 (run_geom_update_job broken "t1" "t2" 1 2 idle).1.jobs
      ≡ some (record {
        id = 1;
        status = failed;
        attempts = 1;
        updated_count = 0;
        failed_count = 0;
        error_message = some (codes "lost");
        created_at = "t0";
        updated_at = "t2";
      }))
    × (count_missing_geom (run_geom_update_job broken "t1" "t2" 1 2 idle).1.lands ≡ 1)
unfolding run_geom_update_job mark_geom_job_running mark_geom_job_failed fetch_geom_job update_geoms
    attempts one_pass pass process_batch process_item process_answer last_id fetch_missing_geom
    update_geom count_missing_geom
broken_run = (refl, refl)

busy_status : get_geom_refresh_job_status 1 busy ≡ ok (set_running "t1" job)
unfolding get_geom_refresh_job_status fetch_geom_job
busy_status = refl

start_geom_refresh_job-active_count_example :
    ((true ≡ true)
      × ((r : GeomRefreshStartResult) × ((start_geom_refresh_job "t3" true busy).0 ≡ ok r)
          × (r.started ≡ (active_count busy.jobs == 0))
          × (active_count (start_geom_refresh_job "t3" true busy).1.jobs
              ≡ max 1 (active_count busy.jobs))))
    ⊎ ((true ≡ false) × ((start_geom_refresh_job "t3" true busy).1 ≡ busy))
start_geom_refresh_job-active_count_example = start_geom_refresh_job-active_count "t3" true busy

recover-active_count_example :
    (active_count (recover_interrupted_geom_jobs "t3" busy).1.jobs
      ≡ (if ltb 0 (active_count busy.jobs) && ltb 0 (count_missing_geom busy.lands) then 1 else 0))
    × ((recover_interrupted_geom_jobs "t3" busy).0 ≡ (
        if ltb 0 (active_count busy.jobs) && ltb 0 (count_missing_geom busy.lands)
        then some 2
        else none))
    × ((recover_interrupted_geom_jobs "t3" busy).1.lands ≡ two)
recover-active_count_example = recover-active_count "t3" busy

job_there : fetch_geom_job 1 idle.jobs ≡ some job
unfolding fetch_geom_job
job_there = refl

run_geom_update_job-concludes_example :
    (new : Job) × (fetch_geom_job 1 (run_geom_update_job late "t1" "t2" 1 2 idle).1.jobs ≡ some new)
    × IsConcluded (count_missing_geom two) job (run_geom_update_job late "t1" "t2" 1 2 idle).0 new
run_geom_update_job-concludes_example =
    run_geom_update_job-concludes "t2" late "t1" 1 2 idle job two-IsKeyed job_there
