-- ===== src/Pipeline/Lifecycle/Cancel.antt =====
-- What a cancellation leaves.
use music_video_generator.Prelude.{
  ℕ, Bool, false, not, ◌&&◌, some, ◌≡◌, refl, arith, ◌==◌, any, keep, find, update_where,
  any-update_where, keep-update_where, find-update_where,
}
use music_video_generator.Schema.{Job, JobStatus, Project, ProjectStatus, is_active}
use music_video_generator.Outcome.{ok}
use music_video_generator.Backend.{Backend}
use music_video_generator.Pipeline.Store.{find_project, set_status, set_project_status}
use music_video_generator.Pipeline.Store.Effects.{project_update_found}
use music_video_generator.Pipeline.Lifecycle.{cancel_pipeline}

abbrev pub active_of : ℕ → Job → Bool
active_of pid j = j.project_id == pid && is_active j.status

module _ (b : Backend) (pid : ℕ) (s : b.State) where
  -- The tables after the cancellation of a project that exists.
  cancel_pipeline_view :
      (p : Project)
      → find_project b pid s ≡ some p
      → ((cancel_pipeline b pid s).0 ≡ ok tt)
        × (b.view (cancel_pipeline b pid s).1 ≡ record (b.view s) {
          jobs = update_where (active_of pid) (set_status JobStatus.cancelled) (b.view s).jobs;
          projects =
              update_where
                (λ q. q.id == pid)
                (set_project_status ProjectStatus.cancelled)
                (b.view s).projects;
        })
  unfolding cancel_pipeline
  cancel_pipeline_view p e =
      let s₁ = b.job_update_many (active_of pid) (set_status JobStatus.cancelled) s in
      let v = b.job_update_many_lem (active_of pid) (set_status JobStatus.cancelled) s in
      let found : find_project b pid s₁ ≡ some p = rw v e in
      let u = project_update_found b pid (set_project_status ProjectStatus.cancelled) s₁ p found in
      rw (cancel_pipeline, e, u) (refl, rw (b.project_update_many_lem, v) refl)

  -- Cancelling the pipeline of an existing project succeeds: no job of the project is left pending or
  -- processing, the project is cancelled, and the jobs of other projects and the queues are as before.
  pub cancel_pipeline-cancels :
      (p : Project)
      → find_project b pid s ≡ some p
      → let after = b.view (cancel_pipeline b pid s).1 in
        ((cancel_pipeline b pid s).0 ≡ ok tt)
        × (any (active_of pid) after.jobs ≡ false)
        × (find (λ q. q.id == pid) after.projects
            ≡ some (set_project_status ProjectStatus.cancelled p))
        × (keep (λ j. not (j.project_id == pid)) after.jobs
            ≡ keep (λ j. not (j.project_id == pid)) (b.view s).jobs)
        × (after.tasks ≡ (b.view s).tasks)
  cancel_pipeline-cancels p e =
      let (done, v) = cancel_pipeline_view p e in
      let jobs = (b.view s).jobs in
      rw v (
        done,
        any-update_where (active_of pid) (set_status JobStatus.cancelled) (active_of pid) (λ j h. h)
            (λ j h. ground arith) jobs,
        find-update_where (λ q. q.id == pid) (set_project_status ProjectStatus.cancelled)
            (λ q. refl) (b.view s).projects p e,
        keep-update_where (active_of pid) (set_status JobStatus.cancelled)
            (λ j. not (j.project_id == pid)) (λ j h. ground arith) (λ j h. ground arith) jobs,
        refl,
      )
