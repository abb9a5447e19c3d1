-- ===== src/Jobs/State.antt =====
-- modules/jobs/services/job-state.service.ts: the life of a job's row. The time stamp of the
-- project's quality entry and the stage's metrics are given (Pipeline.Quality).
pub mod Failure
use music_video_generator.Prelude.{
  ℕ, Bool, true, false, not, ◌&&◌, Option, none, some, ◌==◌, Text, if◌then◌else◌,
}
use music_video_generator.Json.{Json}
use music_video_generator.Schema.{
  Job, JobType, JobStatus, Message, given, ProjectStatus, is_active, is_pipeline_type,
}
use music_video_generator.Outcome.{
  Outcome, ok, err, job_not_found, ◌>>=◌, ◌>>◌, and_then, return, transaction, when,
}
use music_video_generator.Backend.{Backend}
use music_video_generator.Pipeline.Reasons.{extract_degraded_reasons, extract_degraded_reason_codes}
use music_video_generator.Pipeline.Quality.{append_degraded_meta, append_stage_metrics}
use music_video_generator.Pipeline.Store.{
  in_pipeline, find_job, job_update, project_update, set_status, set_project_status,
}
use music_video_generator.Jobs.Crud.{UpdateJob, no_update, apply_update}

-- What a completion is given: the time and the metrics of a stage's output.
pub record Stamp : Type 0 where
  pub now : Text
  pub metrics : JobType → Json → Option Json

abbrev pub fail_job : Message → Job → Job
fail_job m j = record j { status = JobStatus.failed; error_message = some m }

-- The other unfinished jobs of the pipeline.
abbrev pub siblings : Job → Job → Bool
siblings j k = in_pipeline j.project_id k && not (k.id == j.id) && is_active k.status

module _ (b : Backend) where
  unfoldable pub update : ℕ → UpdateJob → b.State → Outcome Job × b.State
  unfolding job_update apply_update
  update id u s = elim (find_job b id s) [
    | none ↦ (err (job_not_found id), s)
    | some j ↦ job_update b id (apply_update u) s
  ]

  unfoldable pub mark_as_processing : ℕ → ℕ → b.State → Outcome Job × b.State
  unfolding update
  mark_as_processing id worker =
      update id (record no_update { status = some JobStatus.processing; worker_id = some worker })

  unfoldable pub mark_as_completed : Stamp → ℕ → Json → b.State → Outcome Job × b.State
  unfolding update append_degraded_meta append_stage_metrics
  mark_as_completed stamp id output = do
    j ← update id (record no_update {
      status = some JobStatus.completed;
      progress = some 100;
      output_data = some output;
    })
    when (is_pipeline_type j.type) (do
      append_degraded_meta b stamp.now j.project_id (extract_degraded_reasons (some output) j.type)
          (extract_degraded_reason_codes (some output) j.type)
      append_stage_metrics b stamp.now j.project_id j.type (stamp.metrics j.type output))
    return j

  unfoldable pub mark_as_failed : ℕ → Text → b.State → Outcome Job × b.State
  unfolding job_update project_update
  mark_as_failed id error = transaction (do
    j ← job_update b id (fail_job (given error))
    when (is_pipeline_type j.type) (λ s.
        project_update b j.project_id (set_project_status ProjectStatus.failed)
          (b.job_update_many (siblings j) (set_status JobStatus.cancelled) s))
    return j)

  unfoldable pub update_progress : ℕ → ℕ → Option Message → b.State → Outcome Job × b.State
  unfolding update
  update_progress id progress step =
      update id (record no_update { progress = some progress; current_step = step })
