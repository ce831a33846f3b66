-- ===== src/Geo/Active.antt =====
-- How many jobs are active, and how a run leaves its job.
use parcel_explorer.Prelude.{
  ℕ, ◌+◌, ◌≤◌, max, String, ◌≡◌, refl, ◌≢◌, ◌⊎◌, inl, inr, Bool, true, false, ◌&&◌, none, some,
  List, [], ◌∷◌, map, arith, ltb, ◌==◌, count, keep, take, get_last?, count-append, Bool-cases,
  if◌then◌else◌,
}
use mathlib.Core.Option
use parcel_explorer.Lands.{Table, count_missing_geom}
use parcel_explorer.Lands.Keyed.{IsKeyed}
use parcel_explorer.Geo.Update.{Answer, Ended, finished, raised, out_of_fuel, update_geoms}
use parcel_explorer.Geo.Update.Termination.{update_geoms-ends}
use parcel_explorer.Geo.Update.Accounting.{update_geoms-counts}
use parcel_explorer.Geo.Jobs.{
  Job, Jobs, done, failed, is_active, new_job, first_with_id, set_running, set_done, set_failed,
  interrupt, create_geom_update_job, mark_geom_job_running, mark_geom_job_done,
  mark_geom_job_failed, fetch_geom_job, fetch_latest_active_geom_job,
  mark_stale_geom_jobs_interrupted,
}
use parcel_explorer.Geo.Service.{
  Database, ok, GeomRefreshStartResult, RunResult, counts, raised_again, unfinished, start_result,
  enqueue_geom_update_job, recover_interrupted_geom_jobs, run_geom_update_job, conclude_run,
  start_geom_refresh_job,
}

abbrev pub active_count : Jobs → ℕ
active_count t = count is_active t.rows

last_active_cases :
    (rows : List Job)
    → ((get_last? (keep is_active rows) ≡ none) × (count is_active rows ≡ 0))
      ⊎ ((job : Job) × (get_last? (keep is_active rows) ≡ some job) × (1 ≤ count is_active rows))
last_active_cases [] = inl (refl, refl)
last_active_cases (job ∷ rows) = elim (Bool-cases (is_active job)) [
  | inl e ↦ elim (last_active_cases rows) [
    | inl (n, c) ↦ inr (job, ground (arith, keep_none rows c), ground arith)
    | inr (last, l, c) ↦
        inr (last, ground (arith, last_cons job (keep is_active rows)), ground arith)
  ]
  | inr e ↦ elim (last_active_cases rows) [
    | inl (n, c) ↦ inl (rw e n, ground arith)
    | inr (last, l, c) ↦ inr (last, rw e l, ground arith)
  ]
]
  where
    keep_none : (rows : List Job) → count is_active rows ≡ 0 → keep is_active rows ≡ []
    keep_none [] h = refl
    keep_none (job ∷ rows) h = ground (arith, keep_none rows)

    last_cons : (job : Job) (rows : List Job) → rows ≢ [] → get_last? (job ∷ rows) ≡ get_last? rows
    last_cons job [] h = absurd (h refl)
    last_cons job (k ∷ rows) h = refl

module _ {F : Type 0} where
  -- With a valid token the refresh answers with a job, started exactly if none was active, and leaves
  -- one active job where there was none and the same number otherwise; with an invalid one it changes
  -- nothing.
  pub start_geom_refresh_job-active_count :
      (now : String) (csrf_valid : Bool) (db : Database F)
      → ((csrf_valid ≡ true)
          × ((r : GeomRefreshStartResult) × ((start_geom_refresh_job now csrf_valid db).0 ≡ ok r)
              × (r.started ≡ (active_count db.jobs == 0))
              × (active_count (start_geom_refresh_job now csrf_valid db).1.jobs
                  ≡ max 1 (active_count db.jobs))))
        ⊎ ((csrf_valid ≡ false) × ((start_geom_refresh_job now csrf_valid db).1 ≡ db))
  unfolding start_geom_refresh_job enqueue_geom_update_job create_geom_update_job
      fetch_latest_active_geom_job
  start_geom_refresh_job-active_count now false db = inr (refl, refl)
  start_geom_refresh_job-active_count now true db = elim (last_active_cases db.jobs.rows) [
    | inl (n, c) ↦ inl (
      refl,
      (
        start_result db.jobs.next_id true "경계선 정보 수집 작업을 시작했습니다.",
        rw n,
        ground arith,
        rw n (
            ground (arith, count-append is_active db.jobs.rows (new_job now db.jobs.next_id ∷ []))),
      ),
    )
    | inr (job, l, c) ↦ inl (
      refl,
      (
        start_result job.id false "이미 실행 중인 경계선 수집 작업이 있습니다.",
        rw l,
        ground arith,
        rw l (ground arith),
      ),
    )
  ]

count-interrupt : (now : String) (rows : List Job) → count is_active (map (interrupt now) rows) ≡ 0
count-interrupt now [] = refl
count-interrupt now (job ∷ rows) = ground (arith, count-interrupt now rows)

module _ {F : Type 0} where
  -- After a restart no job of the run before is active: there is one active job, the new one, exactly if
  -- a job was cut off and a parcel has no geometry, and none otherwise; the parcels are not touched.
  pub recover-active_count :
      (now : String) (db : Database F)
      → (active_count (recover_interrupted_geom_jobs now db).1.jobs
          ≡ (if ltb 0 (active_count db.jobs) && ltb 0 (count_missing_geom db.lands) then 1 else 0))
        × ((recover_interrupted_geom_jobs now db).0 ≡ (
            if ltb 0 (active_count db.jobs) && ltb 0 (count_missing_geom db.lands)
            then some db.jobs.next_id
            else none))
        × ((recover_interrupted_geom_jobs now db).1.lands ≡ db.lands)
  unfolding recover_interrupted_geom_jobs mark_stale_geom_jobs_interrupted create_geom_update_job
  recover-active_count now db = ground (
    arith,
    count-interrupt now db.jobs.rows,
    count-append is_active (map (interrupt now) db.jobs.rows) (new_job now db.jobs.next_id ∷ []),
  )

first_with_id-update :
    (j k : ℕ) (f : Job → Job) (rows : List Job)
    → ((job : Job) → (f job).id ≡ job.id)
    → first_with_id j (map (λ (job : Job). if job.id == k then f job else job) rows)
      ≡ (if j == k then Option.map f (first_with_id j rows) else first_with_id j rows)
first_with_id-update j k f [] h = ground arith
first_with_id-update j k f (job ∷ rows) h = ground (arith, h job, first_with_id-update j k f rows h)

-- what a run leaves of its job: done with the counts of all parcels that lacked a geometry, or failed
abbrev pub IsConcluded : ℕ → Job → RunResult → Job → Type 0
IsConcluded missing old (counts updated left) new =
    (new.status ≡ done)
    × (new.updated_count ≡ updated)
    × (new.failed_count ≡ left)
    × (updated + left ≡ missing)
    × (new.error_message ≡ none)
    × (new.attempts ≡ old.attempts + 1)
IsConcluded missing old (raised_again message) new =
    (new.status ≡ failed)
    × (new.updated_count ≡ 0)
    × (new.failed_count ≡ 0)
    × (new.error_message ≡ some (take 2000 message))
    × (new.attempts ≡ old.attempts + 1)
IsConcluded missing old unfinished new = ⊥

-- an update of the job itself shows in the table
first_with_id-updated :
    (job_id : ℕ) (f : Job → Job) (rows : List Job) (job : Job)
    → ((j : Job) → (f j).id ≡ j.id)
    → first_with_id job_id rows ≡ some job
    → first_with_id job_id (map (λ (j : Job). if j.id == job_id then f j else j) rows)
      ≡ some (f job)
first_with_id-updated job_id f rows job h found =
    ground (arith, first_with_id-update job_id job_id f rows h)

module _ {F : Type 0} (ended_at : String) where
  conclude_ended-job :
      (job_id : ℕ) (job marked : Job) (missing updated left : ℕ) (table : Table F) (ended : Ended)
      (jobs : Jobs)
      → first_with_id job_id jobs.rows ≡ some marked
      → marked.attempts ≡ job.attempts + 1
      → ended ≢ out_of_fuel
      → updated + left ≡ missing
      → (new : Job) × (fetch_geom_job job_id
            (conclude_run ended_at job_id
              (record {
                ended = ended;
                table = table;
                updated_count = updated;
                failed_count = left;
              })
              jobs).1.jobs
          ≡ some new)
        × IsConcluded missing job
            (conclude_run ended_at job_id
              (record {
                ended = ended;
                table = table;
                updated_count = updated;
                failed_count = left;
              })
              jobs).0
            new
  unfolding mark_geom_job_done mark_geom_job_failed fetch_geom_job
  conclude_ended-job job_id job marked missing updated left table finished jobs found a ends
        counted =
      (
        set_done ended_at updated left marked,
        first_with_id-updated job_id (set_done ended_at updated left) jobs.rows marked (λ j. refl)
            found,
        (refl, refl, refl, counted, refl, a),
      )
  conclude_ended-job job_id job marked missing updated left table (raised message) jobs found a ends
        counted =
      (
        set_failed ended_at 0 0 (take 2000 message) marked,
        first_with_id-updated job_id (set_failed ended_at 0 0 (take 2000 message)) jobs.rows marked
            (λ j. refl) found,
        (refl, refl, refl, refl, a),
      )
  conclude_ended-job job_id job marked missing updated left table out_of_fuel jobs found a ends
        counted =
      absurd (ends refl)

  -- On parcels with increasing ids below the next one, a run of an existing job, whatever the client answers, leaves the job concluded and returns
  -- accordingly: either the job is done, without an error message, and records the returned counts, which
  -- add up to the parcels that had no geometry, or the run raises an error and the job has failed with
  -- counts 0 and the error's first 2000 characters; in both cases with one attempt more.
  pub run_geom_update_job-concludes :
      (client : ℕ → String → Answer) (started_at : String) (job_id max_retries : ℕ)
      (db : Database F) (job : Job)
      → IsKeyed db.lands
      → fetch_geom_job job_id db.jobs ≡ some job
      → (new : Job) × (fetch_geom_job job_id
            (run_geom_update_job client started_at ended_at job_id max_retries db).1.jobs
          ≡ some new)
        × IsConcluded
            (count_missing_geom db.lands)
            job
            (run_geom_update_job client started_at ended_at job_id max_retries db).0
            new
  unfolding run_geom_update_job mark_geom_job_running fetch_geom_job
  run_geom_update_job-concludes client started_at job_id max_retries db job keyed found =
      let u = update_geoms client max_retries db.lands in
      conclude_ended-job job_id job (set_running started_at job) (count_missing_geom db.lands)
        u.updated_count u.failed_count u.table u.ended
        (mark_geom_job_running started_at job_id db.jobs)
        (first_with_id-updated job_id (set_running started_at) db.jobs.rows job (λ j. refl) found)
        refl (update_geoms-ends client max_retries db.lands keyed)
        (update_geoms-counts client db.lands max_retries keyed).1
