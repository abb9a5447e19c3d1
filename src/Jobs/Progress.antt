-- ===== src/Jobs/Progress.antt =====
-- modules/jobs/services/pipeline-status.service.ts: what a client sees of a project's pipeline.
pub mod Bounds
use music_video_generator.Prelude.{
  ℕ, ◌+◌, ◌*◌, ◌/◌, min, Bool, true, false, Option, none, some, List, [], ◌∷◌, ◌==◌, keep, find,
  map, length, Text,
}
use music_video_generator.Schema.{
  Job, JobType, JobStatus, pending, processing, completed, failed, cancelled, ProjectStatus,
  Message, is_processing, is_pipeline_type,
}
use music_video_generator.Outcome.{Outcome, ok, err, project_not_found}
use music_video_generator.Backend.{Backend}
use music_video_generator.Pipeline.Reasons.{
  ProjectPipelineStatus, summarize_pipeline_quality, derive_project_pipeline_status,
}
use music_video_generator.Pipeline.Store.{find_project, project_jobs}

pub record JobView : Type 0 where
  pub type : JobType
  pub status : JobStatus
  pub progress : ℕ
  pub current_step : Option Message
  pub error_message : Option Message

pub record PipelineStatus : Type 0 where
  pub project_id : ℕ
  pub project_status : ProjectStatus
  pub pipeline_status : ProjectPipelineStatus
  pub degraded : Bool
  pub degraded_reasons : List Text
  pub degraded_reason_codes : List Text
  pub jobs : List JobView
  pub current_job : Option JobType
  pub overall_progress : ℕ

unfoldable pub to_job_status_view : Job → JobView
to_job_status_view j = record {
  type = j.type;
  status = j.status;
  progress = j.progress;
  current_step = j.current_step;
  error_message = j.error_message;
}

-- What a job adds to the sum, by its status.
unfoldable pub job_share : JobStatus → ℕ → ℕ
job_share JobStatus.completed progress = 100
job_share JobStatus.processing progress = min 100 progress
job_share _ progress = 0

unfoldable pub progress_sum : List Job → ℕ
unfolding job_share
progress_sum [] = 0
progress_sum (j ∷ js) = job_share j.status j.progress + progress_sum js

-- `Math.round` of a quotient of naturals: halves go up.
unfoldable pub round_quotient : ℕ → ℕ → ℕ
round_quotient a n = (2 * a + n) / (2 * n)

unfoldable pub calculate_overall_progress : List Job → ℕ
unfolding progress_sum round_quotient
calculate_overall_progress [] = 0
calculate_overall_progress (j ∷ js) = round_quotient (progress_sum (j ∷ js)) (length (j ∷ js))

abbrev type_of : Option Job → Option JobType
type_of none = none
type_of (some j) = some j.type

module _ (b : Backend) where
  unfoldable pub get_pipeline_status : ℕ → b.State → Outcome PipelineStatus
  unfolding calculate_overall_progress to_job_status_view summarize_pipeline_quality
      derive_project_pipeline_status
  get_pipeline_status pid s = elim (find_project b pid s) [
    | none ↦ err (project_not_found pid)
    | some p ↦
        let jobs = project_jobs b pid s in
        let pipeline = keep (λ j. is_pipeline_type j.type) jobs in
        let quality = summarize_pipeline_quality pipeline in
        ok (record {
          project_id = pid;
          project_status = p.status;
          pipeline_status = derive_project_pipeline_status p.status quality;
          degraded = quality.degraded;
          degraded_reasons = quality.degraded_reasons;
          degraded_reason_codes = quality.degraded_reason_codes;
          jobs = map to_job_status_view jobs;
          current_job = type_of (find (λ j. is_processing j.status) jobs);
          overall_progress = calculate_overall_progress pipeline;
        })
  ]
