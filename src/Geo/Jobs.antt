-- ===== src/Geo/Jobs.antt =====
-- app/repositories/job_repository.py: the table `geom_update_jobs`. Rows are kept in the order of `id`;
-- `next_id` is the id that AUTOINCREMENT gives next. `now` is what CURRENT_TIMESTAMP reads.
use parcel_explorer.Prelude.{
  ℕ, ◌+◌, String, Text, codes, Bool, true, false, Option, none, some, List, [], ◌∷◌, ◌++◌, map,
  ◌==◌, count, keep, get_last?, if◌then◌else◌,
}

-- the texts that the column `status` holds
pub data Status : Type 0 where
  pending running done failed : Status

pub record Job : Type 0 where
  pub id : ℕ
  pub status : Status
  pub attempts : ℕ
  pub updated_count : ℕ
  pub failed_count : ℕ
  pub error_message : Option Text
  pub created_at : String
  pub updated_at : String

pub record Jobs : Type 0 where
  pub rows : List Job
  pub next_id : ℕ

-- status IN ('pending', 'running')
abbrev pub is_active : Job → Bool
is_active job = elim job.status [ pending ↦ true | running ↦ true | done ↦ false | failed ↦ false ]

-- UPDATE ... WHERE id = ?
abbrev pub update_where_id : ℕ → (Job → Job) → Jobs → Jobs
update_where_id job_id f t = record t {
  rows = map (λ (job : Job). if job.id == job_id then f job else job) t.rows;
}

abbrev pub new_job : String → ℕ → Job
new_job now id = record {
  id = id;
  status = pending;
  attempts = 0;
  updated_count = 0;
  failed_count = 0;
  error_message = none;
  created_at = now;
  updated_at = now;
}

unfoldable pub create_geom_update_job : String → Jobs → ℕ × Jobs
create_geom_update_job now t =
    (t.next_id, record { rows = t.rows ++ new_job now t.next_id ∷ []; next_id = t.next_id + 1 })

abbrev pub set_running : String → Job → Job
set_running now job = record job { status = running; attempts = job.attempts + 1; updated_at = now }

unfoldable pub mark_geom_job_running : String → ℕ → Jobs → Jobs
mark_geom_job_running now job_id t = update_where_id job_id (set_running now) t

abbrev pub set_done : String → ℕ → ℕ → Job → Job
set_done now updated_count failed_count job = record job {
  status = done;
  updated_count = updated_count;
  failed_count = failed_count;
  error_message = none;
  updated_at = now;
}

unfoldable pub mark_geom_job_done : String → ℕ → ℕ → ℕ → Jobs → Jobs
mark_geom_job_done now job_id updated_count failed_count t =
    update_where_id job_id (set_done now updated_count failed_count) t

abbrev pub set_failed : String → ℕ → ℕ → Text → Job → Job
set_failed now updated_count failed_count message job = record job {
  status = failed;
  updated_count = updated_count;
  failed_count = failed_count;
  error_message = some message;
  updated_at = now;
}

unfoldable pub mark_geom_job_failed : String → ℕ → ℕ → ℕ → Text → Jobs → Jobs
mark_geom_job_failed now job_id updated_count failed_count message t =
    update_where_id job_id (set_failed now updated_count failed_count message) t

-- WHERE id = ?, and fetchone
abbrev pub first_with_id : ℕ → List Job → Option Job
first_with_id job_id [] = none
first_with_id job_id (job ∷ rows) = if job.id == job_id then some job else first_with_id job_id rows

unfoldable pub fetch_geom_job : ℕ → Jobs → Option Job
fetch_geom_job job_id t = first_with_id job_id t.rows

-- ORDER BY id DESC LIMIT 1
unfoldable pub fetch_latest_active_geom_job : Jobs → Option Job
fetch_latest_active_geom_job t = get_last? (keep is_active t.rows)

abbrev pub interrupted_message : Text
interrupted_message = codes "서버 재시작으로 인해 중단됨"

abbrev pub interrupt : String → Job → Job
interrupt now job =
    if is_active job
    then record job { status = failed; error_message = some interrupted_message; updated_at = now }
    else job

-- the number of rows that the UPDATE changed, and the table
unfoldable pub mark_stale_geom_jobs_interrupted : String → Jobs → ℕ × Jobs
mark_stale_geom_jobs_interrupted now t =
    (count is_active t.rows, record t { rows = map (interrupt now) t.rows })
