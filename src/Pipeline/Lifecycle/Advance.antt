-- ===== src/Pipeline/Lifecycle/Advance.antt =====
-- When an advance of the pipeline completes the project.
use music_video_generator.Prelude.{
  ℕ, Option, none, some, ◌≡◌, refl, sym, ap, ◌∙◌, ◌⊎◌, inl, inr, ◌==◌, find-update_where,
}
use music_video_generator.Schema.{Job, Project, ProjectStatus}
use music_video_generator.Outcome.{
  Outcome, ok, err, and_then-eq-ok, err_ne_ok, ok_injective, return,
}
use music_video_generator.Backend.{Backend}
use music_video_generator.Pipeline.Store.{find_project, project_jobs, set_project_status}
use music_video_generator.Pipeline.Store.Effects.{project_update_found}
use music_video_generator.Pipeline.Transition.{
  Decision, dispatch, wait, complete, resolve_advance_decision,
}
use music_video_generator.Pipeline.Transition.Decisions.{
  IsDone, FirstPending, resolve_advance_decision-eq-complete, resolve_advance_decision-FirstPending,
}
use music_video_generator.Pipeline.Lifecycle.{act, advance_pipeline}

module _ (b : Backend) (dispatch_job : Job → b.State → Outcome (Unit {0}) × b.State) (pid : ℕ)
    (s : b.State) where
  -- A project whose pipeline has a job, and only completed ones, is completed by an advance, which
  -- dispatches nothing.
  pub advance_pipeline-completes :
      (p : Project)
      → find_project b pid s ≡ some p
      → IsDone (project_jobs b pid s)
      → ((advance_pipeline b dispatch_job pid s).0 ≡ ok none)
        × (find_project b pid (advance_pipeline b dispatch_job pid s).1
            ≡ some (set_project_status ProjectStatus.completed p))
        × ((b.view (advance_pipeline b dispatch_job pid s).1).jobs ≡ (b.view s).jobs)
        × ((b.view (advance_pipeline b dispatch_job pid s).1).tasks ≡ (b.view s).tasks)
  unfolding advance_pipeline
  advance_pipeline-completes p e d =
      let c = (resolve_advance_decision-eq-complete pid (project_jobs b pid s)).1 d in
      let u = project_update_found b pid (set_project_status ProjectStatus.completed) s p e in
      rw (advance_pipeline, c, u, b.project_update_many_lem)
        (
          refl,
          find-update_where (λ q. q.id == pid) (set_project_status ProjectStatus.completed)
              (λ q. refl) (b.view s).projects p e,
          refl,
          refl,
        )

  act_cases :
      (o : Outcome Decision) (r : Option Job) (s' : b.State)
      → act b dispatch_job pid o s ≡ (ok r, s')
      → ((r ≡ none) × (((b.view s').projects ≡ (b.view s).projects) ⊎ (o ≡ ok complete)))
        ⊎ ((j : Job) × (r ≡ some j) × (o ≡ ok (dispatch j)) × (dispatch_job j s ≡ (ok tt, s')))
  unfolding act
  act_cases (err e) r s' h = absurd (err_ne_ok (ap (λ q. q.0) h))
  act_cases (ok (dispatch j)) r s' h =
      let (u, s₁, e, h₁) = and_then-eq-ok (λ _. return (some j)) _ h in
      inr (
        j,
        sym (ok_injective (ap (λ q. q.0) h₁)),
        refl,
        e ∙ ap (λ w. (ok tt, w)) (ap (λ q. q.1) h₁),
      )
  act_cases (ok wait) r s' h =
      inl (sym (ok_injective (ap (λ q. q.0) h)), inl (ap (λ q. (b.view q.1).projects) (sym h)))
  act_cases (ok complete) r s' h =
      let (u, s₁, e, h₁) = and_then-eq-ok (λ _. return none) _ h in
      inl (sym (ok_injective (ap (λ q. q.0) h₁)), inr refl)

  -- An advance that succeeds and returns no job leaves the projects as they are, or the pipeline has a
  -- job and all of its jobs are completed; one that returns a job has dispatched it, and nothing more,
  -- and it is the first pending job of the pipeline. Any dispatcher is allowed.
  pub advance_pipeline-IsDone :
      (r : Option Job) (s' : b.State)
      → advance_pipeline b dispatch_job pid s ≡ (ok r, s')
      → ((r ≡ none)
          × (((b.view s').projects ≡ (b.view s).projects) ⊎ IsDone (project_jobs b pid s)))
        ⊎ ((j : Job) × (r ≡ some j)
            × FirstPending (project_jobs b pid s) j
            × (dispatch_job j s ≡ (ok tt, s')))
  unfolding advance_pipeline
  advance_pipeline-IsDone r s' h =
      let jobs = project_jobs b pid s in
      elim (act_cases (resolve_advance_decision pid jobs) r s' h) [
        | inl (n, inl same) ↦ inl (n, inl same)
        | inl (n, inr c) ↦ inl (n, inr ((resolve_advance_decision-eq-complete pid jobs).0 c))
        | inr (j, e, d, done) ↦ inr (j, e, resolve_advance_decision-FirstPending pid jobs j d, done)
      ]
