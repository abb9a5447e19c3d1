-- ===== src/Pipeline/Lifecycle.antt =====
-- modules/jobs/services/pipeline-lifecycle.service.ts and pipeline-cancellation.service.ts: start,
-- advance and cancel the pipeline of a project. `dispatchJob` is given as in the source.
pub mod Cancel
pub mod Start
pub mod Advance
use music_video_generator.Prelude.{
  ℕ, Bool, true, false, not, ◌&&◌, Option, none, some, List, [], ◌∷◌, Text, ◌==◌, find, any,
  if◌then◌else◌,
}
use music_video_generator.Schema.{
  Job, JobStatus, Project, ProjectStatus, SourceMode, is_pending, is_processing, is_active,
}
use music_video_generator.Outcome.{
  Outcome, ok, err, Failure, project_not_found, ◌>>=◌, ◌>>◌, and_then, return, throw, transaction,
  when,
}
use music_video_generator.Backend.{Backend}
use music_video_generator.Pipeline.Source.{
  ProviderEnv, resolve_project_source_mode, build_pipeline_definition, ensure_provider_preflight,
  ensure_project_preflight,
}
use music_video_generator.Pipeline.Store.{
  find_project, project_jobs, project_update, set_status, set_project_status, set_source_mode,
}
use music_video_generator.Pipeline.Transition.{
  Decision, dispatch, wait, complete, resolve_advance_decision,
}
use music_video_generator.Pipeline.Reconciliation.{
  StartMode, created, reused, StartResult, reconcile,
}
use music_video_generator.Pipeline.Quality.{clear_meta}

abbrev pub source_rank : SourceMode → ℕ
source_rank SourceMode.youtube = 0
source_rank SourceMode.audio = 1
source_rank SourceMode.lyrics = 2
source_rank SourceMode.unknown = 3

-- `project.sourceMode === mode`.
abbrev pub has_source_mode : Option SourceMode → SourceMode → Bool
has_source_mode none m = false
has_source_mode (some n) m = source_rank n == source_rank m

module _ (b : Backend) where
  -- A pure check, in the chain of a request.
  abbrev pub check : Outcome (Unit {0}) → b.State → Outcome (Unit {0}) × b.State
  check r s = (r, s)

  abbrev found_project : ℕ → Option Project → b.State → Outcome Project × b.State
  found_project pid none s = (err (project_not_found pid), s)
  found_project pid (some p) s = (ok p, s)

  -- The body of the transaction of `startPipeline`.
  unfoldable pub start_in_transaction :
      ProviderEnv → Text → ℕ → b.State → Outcome StartResult × b.State
  unfolding reconcile project_update ensure_provider_preflight ensure_project_preflight
      resolve_project_source_mode build_pipeline_definition
  start_in_transaction env cid pid = do
    p ← λ s. found_project pid (find_project b pid s) s
    check (ensure_provider_preflight env)
    check (ensure_project_preflight p)
    when (not (has_source_mode p.source_mode (resolve_project_source_mode p)))
        (project_update b pid (set_source_mode (resolve_project_source_mode p)))
    reconcile b cid p (build_pipeline_definition p)

  module _ (dispatch_job : Job → b.State → Outcome (Unit {0}) × b.State) where
    -- `dispatchJob(jobs[0])`: every definition has a stage, so the empty case does not arise.
    abbrev dispatch_first : List Job → b.State → Outcome (Unit {0}) × b.State
    dispatch_first [] s = (ok tt, s)
    dispatch_first (j ∷ jobs) s = dispatch_job j s

    abbrev resume : Bool → Option Job → b.State → Outcome (Unit {0}) × b.State
    resume false (some j) s = dispatch_job j s
    resume _ _ s = (ok tt, s)

    abbrev after_start : ℕ → StartMode → List Job → b.State → Outcome (Unit {0}) × b.State
    unfolding clear_meta
    after_start pid created jobs s = (do clear_meta b pid; dispatch_first jobs) s
    after_start pid reused jobs s =
        resume (any (λ j. is_processing j.status) jobs) (find (λ j. is_pending j.status) jobs) s

    unfoldable pub start_pipeline : ProviderEnv → Text → ℕ → b.State → Outcome (List Job) × b.State
    unfolding start_in_transaction after_start
    start_pipeline env cid pid = do
      r ← transaction (start_in_transaction env cid pid)
      after_start pid r.mode r.jobs
      return r.jobs

    unfoldable pub act : ℕ → Outcome Decision → b.State → Outcome (Option Job) × b.State
    unfolding project_update
    act pid (err e) s = (err e, s)
    act pid (ok (dispatch j)) s = (do dispatch_job j; return (some j)) s
    act pid (ok wait) s = (ok none, s)
    act pid (ok complete) s =
        (do project_update b pid (set_project_status ProjectStatus.completed); return none) s

    unfoldable pub advance_pipeline : ℕ → b.State → Outcome (Option Job) × b.State
    unfolding act resolve_advance_decision
    advance_pipeline pid s = act pid (resolve_advance_decision pid (project_jobs b pid s)) s

  -- The array form of `$transaction` runs its two writes in one transaction.
  unfoldable pub cancel_pipeline : ℕ → b.State → Outcome (Unit {0}) × b.State
  unfolding project_update
  cancel_pipeline pid s = elim (find_project b pid s) [
    | none ↦ (err (project_not_found pid), s)
    | some p ↦
        transaction
          (λ s₀. project_update b pid (set_project_status ProjectStatus.cancelled) (
            b.job_update_many (λ j. j.project_id == pid && is_active j.status)
              (set_status JobStatus.cancelled) s₀))
          s
  ]
