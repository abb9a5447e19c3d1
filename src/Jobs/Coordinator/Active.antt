-- ===== src/Jobs/Coordinator/Active.antt =====
-- The active jobs under the coordinator: a dispatch through it starts none.
use music_video_generator.Prelude.{
  ℕ, zero, suc, ◌≤◌, false, none, some, List, [], ◌∷◌, Text, ◌≡◌, refl, sym, ap, ◌∙◌, arith, ◌==◌,
  update_where, count_where, Option-cases, inl, inr,
}
use music_video_generator.Json.{Json}
use music_video_generator.Schema.{Job, JobType, ProjectStatus, is_active}
use music_video_generator.Outcome.{
  Outcome, ok, err, and_then, ◌>>=◌, and_then-eq-ok, err_ne_ok, return,
}
use music_video_generator.Backend.{Backend, Task}
use music_video_generator.Env.{Environment}
use music_video_generator.Pipeline.Store.{project_jobs, set_project_status}
use music_video_generator.Pipeline.Store.Effects.{project_update_jobs}
use music_video_generator.Pipeline.Reconciliation.Duplicates.{active_stage}
use music_video_generator.Pipeline.Transition.{Decision, wait, complete, resolve_advance_decision}
use music_video_generator.Pipeline.Lifecycle.{act, advance_pipeline}
use music_video_generator.Jobs.State.{Stamp, mark_as_completed}
use music_video_generator.Jobs.Dispatch.{queue_of, task_of, add, dispatch}
use music_video_generator.Jobs.Coordinator.{finalized, on_finalize, coordinate}
use music_video_generator.Jobs.Coordinator.Fuel.{completed_jobs}

-- A rewrite to rows that are not active makes none active.
count_active-update_where :
    (pid : ℕ) (t : JobType) (i : ℕ) (f : Job → Job) (xs : List Job)
    → ((k : Job) → is_active (f k).status ≡ false)
    → count_where (active_stage pid t) (update_where (λ k. k.id == i) f xs)
      ≤ count_where (active_stage pid t) xs
count_active-update_where pid t i f [] h = omega arith
count_active-update_where pid t i f (x ∷ xs) h =
    ground (arith, h x, count_active-update_where pid t i f xs h)

module _ (b : Backend) where
  -- The active jobs of a stage in the pipeline of a project.
  abbrev pub active_count : ℕ → JobType → b.State → ℕ
  active_count pid t s = count_where (active_stage pid t) (b.view s).jobs

  -- A request that succeeds leaves no stage with more active jobs than before.
  abbrev pub StartsNone : {A : Type 0} → Outcome A × b.State → b.State → Type 0
  StartsNone {A} r s =
      (a : A) (s' : b.State)
      → r ≡ (ok a, s')
      → (pid : ℕ) (t : JobType) → active_count pid t s' ≤ active_count pid t s

  pub same_jobs-StartsNone :
      {A : Type 0} (r : Outcome A × b.State) (s : b.State)
      → (b.view r.1).jobs ≡ (b.view s).jobs
      → StartsNone r s
  same_jobs-StartsNone r s h a s' e pid t =
      let same : (b.view s').jobs ≡ (b.view s).jobs = ap (λ q. (b.view q.1).jobs) (sym e) ∙ h in
      rw (same) (omega arith)

  pub and_then-StartsNone :
      {A B : Type 0} (k : A → b.State → Outcome B × b.State) (r : Outcome A × b.State) (s : b.State)
      → StartsNone r s
      → ((a : A) (w : b.State) → StartsNone (k a w) w)
      → StartsNone (and_then k r) s
  and_then-StartsNone k r s h g c s' e pid t =
      let (a, w, e₁, e₂) = and_then-eq-ok k r e in
      omega (arith, h a w e₁ pid t, g a w c s' e₂ pid t)

  completion-StartsNone :
      (stamp : Stamp) (id : ℕ) (out : Json) (s : b.State)
      → StartsNone (mark_as_completed b stamp id out s) s
  completion-StartsNone stamp id out s j s' e pid t =
      let (f, jobs, ended) = completed_jobs b stamp id out s j s' e in
      rw (jobs) (count_active-update_where pid t id f (b.view s).jobs (λ k. rw (ended k) refl))

  module _ (again : Job → b.State → Outcome (Unit {0}) × b.State)
      (none_started : (j : Job) (s : b.State) → StartsNone (again j s) s) where
    act-StartsNone :
        (pid : ℕ) (o : Outcome Decision) (s : b.State) → StartsNone (act b again pid o s) s
    unfolding act
    act-StartsNone pid (err e) s = λ a s' h. absurd (err_ne_ok (ap (λ q. q.0) h))
    act-StartsNone pid (ok (Decision.dispatch j)) s =
        and_then-StartsNone (λ _. return (some j)) (again j s) s (none_started j s)
          (λ a w. same_jobs-StartsNone (return (some j) w) w refl)
    act-StartsNone pid (ok wait) s = same_jobs-StartsNone _ s refl
    act-StartsNone pid (ok complete) s =
        and_then-StartsNone (λ _. return none) _ s
          (same_jobs-StartsNone _ s
            (project_update_jobs b pid (set_project_status ProjectStatus.completed) s))
          (λ a w. same_jobs-StartsNone (return none w) w refl)

  add-StartsNone : (t : Task) (s : b.State) → StartsNone (add b t s) s
  add-StartsNone t s = elim (Option-cases (b.queue_add t s)) [
    | inl n ↦ rw (add, n) (same_jobs-StartsNone _ s refl)
    | inr (w, n) ↦
        rw (add, n) (same_jobs-StartsNone _ s (ap (λ v. v.jobs) (b.queue_add_lem t s w n)))
  ]

  module _ (env : Environment) (fresh : Text) (stamp : Stamp) where
    on_finalize-StartsNone :
        (again : Job → b.State → Outcome (Unit {0}) × b.State)
        (none_started : (j : Job) (s : b.State) → StartsNone (again j s) s) (j : Job) (s : b.State)
        → StartsNone (on_finalize b env fresh stamp again j s) s
    unfolding on_finalize advance_pipeline
    on_finalize-StartsNone again none_started j s =
        and_then-StartsNone (λ done. advance_pipeline b again j.project_id >>= (λ next. return tt))
          (mark_as_completed b stamp j.id finalized s) s
          (completion-StartsNone stamp j.id finalized s)
          (λ done w.
            and_then-StartsNone (λ next. return tt) (advance_pipeline b again j.project_id w) w
              (act-StartsNone again none_started j.project_id
                (resolve_advance_decision j.project_id (project_jobs b j.project_id w)) w)
              (λ next w'. same_jobs-StartsNone (return tt w') w' refl))

    -- A dispatch through the coordinator starts no job, whatever finalizations it completes.
    pub coordinate-StartsNone :
        (fuel : ℕ) (j : Job) (s : b.State) → StartsNone (coordinate b env fresh stamp fuel j s) s
    unfolding coordinate dispatch
    coordinate-StartsNone zero j s = λ a s' h. absurd (err_ne_ok (ap (λ q. q.0) h))
    coordinate-StartsNone (suc fuel) j s = elim (Option-cases (queue_of j.type)) [
      | inr (q, e) ↦ rw (coordinate, dispatch, e) (add-StartsNone (task_of env fresh q j) s)
      | inl e ↦
          rw (coordinate, dispatch, e)
            (on_finalize-StartsNone (coordinate b env fresh stamp fuel) (coordinate-StartsNone fuel)
              j s)
    ]
