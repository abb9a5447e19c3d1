-- ===== src/Pipeline/Store.antt =====
-- The database calls of the pipeline's services, over the operations of the client.
pub mod Effects
use music_video_generator.Prelude.{
  ℕ, Bool, true, false, ◌&&◌, Option, none, some, List, [], ◌∷◌, ◌==◌, keep, find, any,
}
use music_video_generator.Json.{Json}
use music_video_generator.Schema.{
  Job, JobStatus, Project, ProjectStatus, SourceMode, is_pipeline_type,
}
use music_video_generator.Outcome.{Outcome, ok, err, record_not_found}
use music_video_generator.Backend.{Backend}

-- `{ projectId, type: { in: PIPELINE_JOB_TYPES } }`.
abbrev pub in_pipeline : ℕ → Job → Bool
in_pipeline pid j = j.project_id == pid && is_pipeline_type j.type

module _ (b : Backend) where
  -- `project.findUnique({ where: { id } })`.
  abbrev pub find_project : ℕ → b.State → Option Project
  find_project pid s = find (λ p. p.id == pid) (b.view s).projects

  -- `job.findUnique({ where: { id } })`.
  abbrev pub find_job : ℕ → b.State → Option Job
  find_job id s = find (λ j. j.id == id) (b.view s).jobs

  -- `job.findMany({ where: { projectId }, orderBy: { createdAt: 'asc' } })`.
  abbrev pub project_jobs : ℕ → b.State → List Job
  project_jobs pid s = keep (λ j. j.project_id == pid) (b.view s).jobs

  abbrev pub pipeline_jobs : ℕ → b.State → List Job
  pipeline_jobs pid s = keep (in_pipeline pid) (b.view s).jobs

  -- `job.update({ where: { id }, data })` throws where no row has the id.
  unfoldable pub job_update : ℕ → (Job → Job) → b.State → Outcome Job × b.State
  job_update id f s = elim (find_job id s) [
    | none ↦ (err record_not_found, s)
    | some j ↦ (ok (f j), b.job_update_many (λ k. k.id == id) f s)
  ]

  unfoldable pub project_update : ℕ → (Project → Project) → b.State → Outcome (Unit {0}) × b.State
  project_update pid f s = elim (find_project pid s) [
    | none ↦ (err record_not_found, s)
    | some p ↦ (ok tt, b.project_update_many (λ q. q.id == pid) f s)
  ]

-- The `data` of the updates.
abbrev pub set_status : JobStatus → Job → Job
set_status st j = record j { status = st }

abbrev pub set_project_status : ProjectStatus → Project → Project
set_project_status st p = record p { status = st }

abbrev pub set_source_mode : SourceMode → Project → Project
set_source_mode m p = record p { source_mode = some m }

abbrev pub set_analysis_result : Json → Project → Project
set_analysis_result a p = record p { analysis_result = some a }
