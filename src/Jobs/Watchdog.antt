-- ===== src/Jobs/Watchdog.antt =====
-- modules/jobs/services/stale-watchdog.service.ts: jobs in `PROCESSING` that nobody has written for
-- too long are failed, and their pipeline with them. Times are milliseconds.
pub mod Sweep
use music_video_generator.Prelude.{
  ℕ, ◌*◌, ◌/◌, ◌-◌, max, Bool, true, false, ◌&&◌, Option, none, some, List, [], ◌∷◌, Text, codes,
  ◌==◌, ltb, keep, take, count_where, if◌then◌else◌,
}
use music_video_generator.Schema.{
  Job, JobStatus, Project, ProjectStatus, Message, stale_timeout, stale_step, stale_cancelled,
  is_processing, is_active, is_pipeline_type,
}
use music_video_generator.Backend.{Backend}
use music_video_generator.Env.{Environment, parse_positive_int_env, parse_boolean_env}
use music_video_generator.Pipeline.Store.{in_pipeline, set_project_status}

-- `staleWatchdogTimer` with its interval, and `staleWatchdogRunning`.
pub record Watchdog : Type 0 where
  pub timer : Option ℕ
  pub running : Bool

-- A row of the answer to `findMany`, with its `updatedAt`.
pub record Row : Type 0 where
  pub job : Job
  pub updated_at : ℕ

-- `startStaleWatchdog`; the flag tells that a cycle is started at once. `testing` stands for
-- `NODE_ENV === 'test'`.
unfoldable pub start_stale_watchdog : Environment → Bool → Watchdog → Watchdog × Bool
unfolding parse_positive_int_env parse_boolean_env
start_stale_watchdog env testing w =
    if parse_boolean_env env (codes "JOB_STALE_WATCHDOG_ENABLED") (if testing then false else true)
    then (
      record w {
        timer = some (parse_positive_int_env env (codes "JOB_STALE_WATCHDOG_INTERVAL_MS") 60000);
      },
      true,
    )
    else (w, false)

unfoldable pub stop_stale_watchdog : Watchdog → Watchdog
stop_stale_watchdog w = record w { timer = none }

-- `rows` are the table's rows in the order of `updatedAt`.
unfoldable pub find_stale_processing_jobs : Environment → ℕ → List Row → List Row
unfolding parse_positive_int_env
find_stale_processing_jobs env now rows =
    let timeout = parse_positive_int_env env (codes "JOB_STALE_TIMEOUT_MS") (15 * 60000) in
    let batch = parse_positive_int_env env (codes "JOB_STALE_WATCHDOG_BATCH_SIZE") 20 in
    take batch (keep (λ r. is_processing r.job.status && ltb r.updated_at (now - timeout)) rows)

abbrev pub stale_age : ℕ → Row → ℕ
stale_age now r = max 1 ((now - r.updated_at) / 1000)

abbrev pub is_stale_job : Job → Job → Bool
is_stale_job j k = k.id == j.id && is_processing k.status

abbrev pub time_out : ℕ → Job → Job
time_out age j = record j {
  status = JobStatus.failed;
  error_message = some (stale_timeout age);
  current_step = some stale_step;
}

abbrev pub unfinished : ℕ → Job → Bool
unfinished pid j = in_pipeline pid j && is_active j.status

abbrev pub give_up : Job → Job
give_up j = record j { status = JobStatus.cancelled; error_message = some stale_cancelled }

abbrev pub is_open : ProjectStatus → Bool
is_open ProjectStatus.draft = true
is_open ProjectStatus.processing = true
is_open _ = false

abbrev pub open_project : ℕ → Project → Bool
open_project pid p = p.id == pid && is_open p.status

module _ (b : Backend) where
  -- The transaction of `failStaleProcessingJob`: its result tells whether the row was still
  -- processing.
  unfoldable pub fail_stale_processing_job : ℕ → Row → b.State → Bool × b.State
  fail_stale_processing_job now r s =
      if count_where (is_stale_job r.job) (b.view s).jobs == 0
      then (false, b.job_update_many (is_stale_job r.job) (time_out (stale_age now r)) s)
      else (let s₁ = b.job_update_many (is_stale_job r.job) (time_out (stale_age now r)) s in
          if is_pipeline_type r.job.type
          then (
            true,
            b.project_update_many (open_project r.job.project_id)
                (set_project_status ProjectStatus.failed)
                (b.job_update_many (unfinished r.job.project_id) give_up s₁),
          )
          else (true, s₁))

  -- The loop of `runStaleWatchdogCycle`.
  unfoldable pub fail_all : ℕ → List Row → b.State → b.State
  unfolding fail_stale_processing_job
  fail_all now [] s = s
  fail_all now (r ∷ rs) s = fail_all now rs (fail_stale_processing_job now r s).1

  -- A cycle does nothing while another one runs; it leaves the flag off.
  unfoldable pub run_stale_watchdog_cycle :
      Environment → ℕ → List Row → Watchdog → b.State → Watchdog × b.State
  unfolding fail_all find_stale_processing_jobs
  run_stale_watchdog_cycle env now rows w s =
      if w.running
      then (w, s)
      else (record w { running = false }, fail_all now (find_stale_processing_jobs env now rows) s)
