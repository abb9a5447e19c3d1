-- ===== src/Examples/PipelineRuns.antt =====
-- Starts, advances and cancellations of a project from lyrics.
use music_video_generator.Prelude.{
  true, false, Option, none, some, List, [], ◌∷◌, ◌≡◌, ◌⊎◌, refl, ◌≤◌, any, keep, not, find, ◌==◌,
  count_where, codes,
}
use music_video_generator.Schema.{
  Job, JobStatus, JobType, ProjectStatus, analyze_lyrics, generate_images, render_video, finalize,
  is_active, same_type, is_pipeline_type,
}
use music_video_generator.Outcome.{ok}
use music_video_generator.Backend.{Tables}
use music_video_generator.Pipeline.Reasons.{extract_degraded_reasons, extract_degraded_reason_codes}
use music_video_generator.Jobs.Crud.{apply_update}
use music_video_generator.Jobs.State.{Stamp, update, mark_as_completed}
use music_video_generator.Jobs.Dispatch.{dispatch}
use music_video_generator.Jobs.Coordinator.{on_finalize, coordinate}
use music_video_generator.Jobs.Coordinator.Active.{active_count}
use music_video_generator.Pipeline.Source.{
  build_pipeline_definition, resolve_project_source_mode, ensure_provider_preflight,
  ensure_project_preflight,
}
use music_video_generator.Pipeline.Store.{
  pipeline_jobs, project_jobs, project_update, find_project, set_project_status,
}
use music_video_generator.Pipeline.Reconciliation.{
  StartResult, reused, reconcile, cancel_duplicate, cancel_duplicate_active_stages, duplicate_ids,
}
use music_video_generator.Pipeline.Reconciliation.Duplicates.{active_stage}
use music_video_generator.Pipeline.Reconciliation.Restart.{
  reconcile-one_active, reconcile-jobs, reconcile-restart,
}
use music_video_generator.Pipeline.Lifecycle.{
  start_in_transaction, start_pipeline, advance_pipeline, cancel_pipeline,
}
use music_video_generator.Pipeline.Source.Stages.{
  build_pipeline_definition-order, skipped_stages, drop,
}
use music_video_generator.Pipeline.Source.{present, full_pipeline_order}
use music_video_generator.Pipeline.Transition.{resolve_advance_decision}
use music_video_generator.Pipeline.Transition.Decisions.{
  IsDone, FirstPending, resolve_advance_decision-FirstPending,
}
use music_video_generator.Pipeline.Lifecycle.Cancel.{active_of, cancel_pipeline-cancels}
use music_video_generator.Pipeline.Lifecycle.Start.{start_pipeline-one_active}
use music_video_generator.Pipeline.Lifecycle.Advance.{
  advance_pipeline-completes, advance_pipeline-IsDone,
}
use music_video_generator.Examples.World.{
  bare_environment, providers, memory, job_of, lyrics_project, tables_of, doubled, all_done,
}

abbrev kept_jobs : List Job
kept_jobs =
    job_of 1 analyze_lyrics JobStatus.completed
    ∷ job_of 2 generate_images JobStatus.processing
    ∷ cancel_duplicate (job_of 3 generate_images JobStatus.pending)
    ∷ job_of 4 render_video JobStatus.pending
    ∷ []

abbrev kept_result : StartResult
kept_result = record { jobs = kept_jobs; mode = reused }

abbrev before_start : Tables
before_start = tables_of doubled ProjectStatus.failed

abbrev after_reuse : Tables
after_reuse = tables_of kept_jobs ProjectStatus.processing

-- A start over the doubled stage cancels the later of its jobs and sets the project going again.
doubled-reused :
    reconcile memory []
      (lyrics_project ProjectStatus.failed)
      (build_pipeline_definition (lyrics_project ProjectStatus.failed))
      before_start
    ≡ (ok kept_result, after_reuse)
unfolding reconcile cancel_duplicate_active_stages duplicate_ids project_update same_type
    is_pipeline_type
doubled-reused = refl

one_active_example : count_where (active_stage 1 generate_images) kept_jobs ≤ 1
one_active_example =
    reconcile-one_active memory [] (lyrics_project ProjectStatus.failed) before_start after_reuse
      kept_result doubled-reused generate_images

reconcile-jobs_example :
    (kept_jobs ≡ pipeline_jobs memory 1 after_reuse)
    × (any (λ j. is_active j.status) kept_jobs ≡ true)
reconcile-jobs_example =
    reconcile-jobs memory [] (lyrics_project ProjectStatus.failed) before_start after_reuse
      kept_result doubled-reused

reconcile-restart_example :
    reconcile memory []
      (lyrics_project ProjectStatus.processing)
      (build_pipeline_definition (lyrics_project ProjectStatus.processing))
      after_reuse
    ≡ (ok kept_result, after_reuse)
reconcile-restart_example =
    reconcile-restart memory [] (lyrics_project ProjectStatus.failed) before_start after_reuse
      kept_result doubled-reused [] (lyrics_project ProjectStatus.processing)
      (build_pipeline_definition (lyrics_project ProjectStatus.processing)) refl refl

-- The stages of a project from lyrics.
pipeline_order_example :
    (build_pipeline_definition (lyrics_project ProjectStatus.draft)).order
    ≡ drop
        (skipped_stages (present none) (present none) (present (some (b'a' ∷ []))))
        full_pipeline_order
pipeline_order_example = build_pipeline_definition-order (lyrics_project ProjectStatus.draft)

abbrev idle : List Job
idle = job_of 1 analyze_lyrics JobStatus.completed ∷ job_of 2 generate_images JobStatus.pending ∷ []

advance_first_example : FirstPending idle (job_of 2 generate_images JobStatus.pending)
unfolding resolve_advance_decision is_pipeline_type same_type
advance_first_example =
    resolve_advance_decision-FirstPending 1 idle (job_of 2 generate_images JobStatus.pending) refl

cancel_example :
    let s = tables_of doubled ProjectStatus.processing in
    let after = (cancel_pipeline memory 1 s).1 in
    ((cancel_pipeline memory 1 s).0 ≡ ok tt)
    × (any (active_of 1) after.jobs ≡ false)
    × (find (λ q. q.id == 1) after.projects
        ≡ some
            (set_project_status ProjectStatus.cancelled (lyrics_project ProjectStatus.processing)))
    × (keep (λ j. not (j.project_id == 1)) after.jobs ≡ keep (λ j. not (j.project_id == 1)) s.jobs)
    × (after.tasks ≡ s.tasks)
cancel_example =
    cancel_pipeline-cancels memory 1 (tables_of doubled ProjectStatus.processing)
      (lyrics_project ProjectStatus.processing) refl

-- The dispatch of the coordinator, with fuel for one finalization.
abbrev stamp : Stamp
stamp = record { now = []; metrics = λ t o. none }

-- A pipeline of which only the finalization is left, which a start completes.
abbrev last_pending : Tables
last_pending =
    tables_of (job_of 1 render_video JobStatus.completed ∷ job_of 2 finalize JobStatus.pending ∷ [])
      ProjectStatus.failed

abbrev last_jobs : List Job
last_jobs = last_pending.jobs

abbrev after_last : Tables
unfolding start_pipeline coordinate
after_last =
    (start_pipeline memory (coordinate memory bare_environment (codes "n") stamp 3) providers [] 1
      last_pending).1

start_one_active_example :
    (s₁ : Tables) × (r : StartResult) × (start_in_transaction memory providers [] 1 last_pending
      ≡ (ok r, s₁))
    × (last_jobs ≡ pipeline_jobs memory 1 s₁)
    × (any (λ j. is_active j.status) last_jobs ≡ true)
    × ((t : JobType) → (active_count memory 1 t s₁ ≤ 1) × (active_count memory 1 t after_last ≤ 1))
unfolding start_pipeline start_in_transaction reconcile cancel_duplicate_active_stages duplicate_ids
    project_update same_type is_pipeline_type ensure_provider_preflight ensure_project_preflight
    resolve_project_source_mode coordinate dispatch on_finalize mark_as_completed update
    apply_update advance_pipeline resolve_advance_decision after_last extract_degraded_reasons
    extract_degraded_reason_codes
start_one_active_example =
    start_pipeline-one_active memory bare_environment (codes "n") stamp 3 providers [] 1
      last_pending after_last last_jobs refl

advance_completes_example :
    let s = tables_of all_done ProjectStatus.processing in
    let after =
      advance_pipeline memory (coordinate memory bare_environment (codes "n") stamp 3) 1 s in
    (after.0 ≡ ok none)
    × (find_project memory 1 after.1
        ≡ some
            (set_project_status ProjectStatus.completed (lyrics_project ProjectStatus.processing)))
    × (after.1.jobs ≡ all_done)
    × (after.1.tasks ≡ [])
unfolding is_pipeline_type same_type
advance_completes_example =
    advance_pipeline-completes memory (coordinate memory bare_environment (codes "n") stamp 3) 1
      (tables_of all_done ProjectStatus.processing) (lyrics_project ProjectStatus.processing) refl
      (refl, refl)

abbrev finished : Tables
finished = tables_of all_done ProjectStatus.completed

advance-IsDone_example :
    ((◌≡◌ {A = Option Job} none none)
      × ((finished.projects ≡ lyrics_project ProjectStatus.processing ∷ [])
          ⊎ IsDone (project_jobs memory 1 (tables_of all_done ProjectStatus.processing))))
    ⊎ ((j : Job) × (◌≡◌ {A = Option Job} none (some j))
        × FirstPending (project_jobs memory 1 (tables_of all_done ProjectStatus.processing)) j
        × (coordinate memory bare_environment
              (codes "n")
              stamp
              3
              j
              (tables_of all_done ProjectStatus.processing)
            ≡ (ok tt, finished)))
unfolding advance_pipeline resolve_advance_decision project_update is_pipeline_type same_type
advance-IsDone_example =
    advance_pipeline-IsDone memory (coordinate memory bare_environment (codes "n") stamp 3) 1
      (tables_of all_done ProjectStatus.processing) none finished refl
