-- ===== src/Geo/Service.antt =====
-- The jobs of app/services/geo_service.py. Each `with db_connection()` block that commits is one step; the
-- log lines and the latencies are not modelled.
use parcel_explorer.Prelude.{
  ℕ, zero, suc, String, Text, Bool, true, false, not, Option, none, some, take, ltb, if◌then◌else◌,
}
use parcel_explorer.Lands.{Table, count_missing_geom}
use parcel_explorer.Geo.Update.{Answer, finished, raised, out_of_fuel, Updated, update_geoms}
use parcel_explorer.Geo.Jobs.{
  Job, Jobs, create_geom_update_job, mark_geom_job_running, mark_geom_job_done,
  mark_geom_job_failed, fetch_geom_job, fetch_latest_active_geom_job,
  mark_stale_geom_jobs_interrupted,
}

-- the two tables that the jobs read and write
pub record Database (F : Type 0) : Type 0 where
  pub lands : Table F
  pub jobs : Jobs

-- service_errors.py: the errors that the services raise, with their status codes
pub data ServiceError : Type 0 where
  validation_error auth_error not_found_error : ℕ → String → ServiceError

pub data Result (A : Type 0) : Type 0 where
  ok : A → Result A
  err : ServiceError → Result A

pub record GeomRefreshStartResult : Type 0 where
  pub success : Bool
  pub job_id : ℕ
  pub started : Bool
  pub message : String

-- what `run_geom_update_job` returns, or the exception that it raises again
pub data RunResult : Type 0 where
  counts : ℕ → ℕ → RunResult
  raised_again : Text → RunResult
  unfinished : RunResult

-- on what the stale jobs and the missing geometries are; the last commit is the caller's
abbrev pub recover_with : String → ℕ → ℕ → Jobs → Option ℕ × Jobs
recover_with now zero missing_count jobs = (none, jobs)
recover_with now (suc _) missing_count jobs =
    let (new_id, jobs') = create_geom_update_job now jobs in
    if ltb 0 missing_count then (some new_id, jobs') else (none, jobs)

abbrev pub start_result : ℕ → Bool → String → GeomRefreshStartResult
start_result job_id started message = record {
  success = true;
  job_id = job_id;
  started = started;
  message = message;
}

module _ {F : Type 0} where
  unfoldable pub enqueue_geom_update_job : String → Database F → ℕ × Database F
  enqueue_geom_update_job now db =
      let (job_id, jobs) = create_geom_update_job now db.jobs in (job_id, record db { jobs = jobs })

  unfoldable pub recover_interrupted_geom_jobs : String → Database F → Option ℕ × Database F
  recover_interrupted_geom_jobs now db =
      let (stale_count, jobs) = mark_stale_geom_jobs_interrupted now db.jobs in
      let (new_job_id, jobs') = recover_with now stale_count (count_missing_geom db.lands) jobs in
      (new_job_id, record db { jobs = jobs' })

  -- On an exception both counts still have their first value, 0.
  abbrev pub conclude_run : String → ℕ → Updated F → Jobs → RunResult × Database F
  conclude_run now job_id u jobs = elim u.ended [
    | finished ↦ (
      counts u.updated_count u.failed_count,
      record {
        lands = u.table;
        jobs = mark_geom_job_done now job_id u.updated_count u.failed_count jobs;
      },
    )
    | raised message ↦ (
      raised_again message,
      record {
        lands = u.table;
        jobs = mark_geom_job_failed now job_id 0 0 (take 2000 message) jobs;
      },
    )
    | out_of_fuel ↦ (unfinished, record { lands = u.table; jobs = jobs })
  ]

  unfoldable pub run_geom_update_job :
      (ℕ → String → Answer) → String → String → ℕ → ℕ → Database F → RunResult × Database F
  run_geom_update_job client started_at ended_at job_id max_retries db =
      conclude_run ended_at job_id (update_geoms client max_retries db.lands)
        (mark_geom_job_running started_at job_id db.jobs)

  unfoldable pub start_geom_refresh_job :
      String → Bool → Database F → Result GeomRefreshStartResult × Database F
  start_geom_refresh_job now csrf_valid db =
      if not csrf_valid
      then (err (auth_error 403 "CSRF 토큰 검증에 실패했습니다."), db)
      else elim (fetch_latest_active_geom_job db.jobs) [
        | some active_job ↦ (ok (start_result active_job.id false "이미 실행 중인 경계선 수집 작업이 있습니다."), db)
        | none ↦
            let (job_id, db') = enqueue_geom_update_job now db in
            (ok (start_result job_id true "경계선 정보 수집 작업을 시작했습니다."), db')
      ]

  unfoldable pub get_geom_refresh_job_status : ℕ → Database F → Result Job
  get_geom_refresh_job_status job_id db = elim (fetch_geom_job job_id db.jobs) [
    | none ↦ err (not_found_error 404 "작업을 찾을 수 없습니다.")
    | some job ↦ ok job
  ]
