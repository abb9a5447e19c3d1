-- ===== src/Jobs/DeadLetter.antt =====
-- modules/jobs/services/dead-letter.service.ts, dead-letter-query.service.ts and
-- dead-letter-replay.service.ts: jobs that failed for good, and their replay by the owner.
pub mod Replay
use music_video_generator.Prelude.{
  ℕ, ◌-◌, min, max, Bool, true, false, Option, none, some, List, [], ◌∷◌, ◌==◌, find, any, keep,
  length,
}
use music_video_generator.Schema.{
  Job, JobStatus, pending, processing, completed, failed, cancelled, Message, replay_requested,
  is_active,
}
use music_video_generator.Outcome.{
  Outcome, ok, err, job_not_found, dead_letter_not_found, dead_letter_without_project,
  dead_letter_without_job, ◌>>=◌, ◌>>◌, and_then, return,
}
use music_video_generator.Backend.{Backend, DeadLetter}
use music_video_generator.Pipeline.Store.{find_job, job_update}
use music_video_generator.Jobs.Crud.{owns, assert_project_ownership}

-- The range that `listJobs` asks the queue for: from 0 to the result.
unfoldable pub list_end : ℕ → ℕ
list_end limit = max 1 (min limit 100) - 1

pub data ReplayResult : Type 0 where
  already_active : ℕ → JobStatus → ReplayResult
  replayed : ℕ → Job → ReplayResult

-- The `data` of the replay's update.
abbrev pub reset_job : Job → Job
reset_job j = record j {
  status = JobStatus.pending;
  progress = 0;
  current_step = some replay_requested;
  error_message = none;
  worker_id = none;
}

module _ (b : Backend) where
  -- The items of `listForUser`, given the queue's answer: those whose project the user owns.
  unfoldable pub list_for_user : List DeadLetter → ℕ → b.State → List DeadLetter
  list_for_user found user s =
      keep (λ d. elim d.project_id [ none ↦ false | some pid ↦ owns b pid user s ]) found

  abbrev require {ℓ} : {A : Type ℓ} → Option A → Outcome A → b.State → Outcome A × b.State
  require none e s = (e, s)
  require (some a) e s = (ok a, s)

  -- `updateJobData`: an entry that is gone is ignored.
  unfoldable pub update_job_data : ℕ → ℕ → b.State → Outcome (Unit {0}) × b.State
  update_job_data id job_id s = (
    ok tt,
    b.dead_letter_update (λ d. d.id == id) (λ d. record d { replayed_job_id = some job_id }) s,
  )

  module _ (dispatch_job : Job → b.State → Outcome (Unit {0}) × b.State) where
    -- The part of `replayForUser` below the lookup of the original job.
    abbrev pub replay_job : ℕ → Job → b.State → Outcome ReplayResult × b.State
    unfolding job_update update_job_data
    replay_job id j s = elim (is_active j.status) [
      | true ↦ (ok (already_active j.id j.status), s)
      | false ↦
          (do
            again ← job_update b j.id reset_job
            dispatch_job again
            update_job_data id j.id
            return (replayed id again))
            s
    ]

    unfoldable pub replay_for_user : ℕ → ℕ → b.State → Outcome ReplayResult × b.State
    unfolding assert_project_ownership replay_job
    replay_for_user id user s =
        (do
          d ←
              require (find (λ d. d.id == id) (b.view s).dead_letters)
                (err (dead_letter_not_found id))
          pid ← require d.project_id (err dead_letter_without_project)
          assert_project_ownership b pid user
          job_id ← require d.job_id (err dead_letter_without_job)
          j ← require (find_job b job_id s) (err (job_not_found job_id))
          replay_job id j)
          s
