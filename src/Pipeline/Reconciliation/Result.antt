-- ===== src/Pipeline/Reconciliation/Result.antt =====
-- What a reconciliation leaves in the tables and returns.
use music_video_generator.Prelude.{
  ℕ, Bool, true, false, not, some, List, [], ◌∷◌, ◌++◌, map, ◌≡◌, refl, ap, ◌∙◌, any, keep,
  update_where, All, Bool-cases, inl, inr, ◌⊎◌, Text,
}
use mathlib.Core.List.{append-nil, append_assoc}
use music_video_generator.Json.{Json}
use music_video_generator.Schema.{Job, JobType, JobStatus, Project, ProjectStatus, is_active}
use music_video_generator.Outcome.{ok, and_then-eq-ok, ok_injective, return, when}
use music_video_generator.Backend.{Backend, NewJob}
use music_video_generator.Pipeline.Source.{PipelineDefinition}
use music_video_generator.Pipeline.Store.{
  in_pipeline, pipeline_jobs, project_update, set_project_status,
}
use music_video_generator.Pipeline.Store.Effects.{project_update_view}
use music_video_generator.Pipeline.Reconciliation.{
  StartResult, created, reused, duplicate_ids, cancel_duplicate, in_ids, fresh_input, is_running,
  classify_synthetic_run, cancel_duplicate_active_stages, create_jobs, create_fresh_pipeline,
  reconcile,
}
use music_video_generator.Pipeline.Reconciliation.Duplicates.{update_where-none}

-- A job as it is created: pending, of this project.
abbrev pub IsFresh : ℕ → Job → Type 0
IsFresh pid j = (j.project_id ≡ pid) × (j.status ≡ JobStatus.pending)

-- The jobs of the table once the duplicates are cancelled.
abbrev pub cancelled_jobs : ℕ → List Job → List Job
cancelled_jobs pid jobs =
    update_where (in_ids (duplicate_ids [] (keep (in_pipeline pid) jobs))) cancel_duplicate jobs

module _ (b : Backend) where
  pub create_jobs_view :
      (pid : ℕ) (input : Json) (ts : List JobType) (s : b.State)
      → b.view (create_jobs b pid input ts s).1
        ≡ record (b.view s) { jobs = (b.view s).jobs ++ (create_jobs b pid input ts s).0 }
  unfolding create_jobs
  create_jobs_view pid input [] s = rw append-nil refl
  create_jobs_view pid input (t ∷ ts) s =
      rw (create_jobs_view pid input ts, b.job_create_lem, append_assoc) refl

  pub create_jobs_types :
      (pid : ℕ) (input : Json) (ts : List JobType) (s : b.State)
      → (map (λ j. j.type) (create_jobs b pid input ts s).0 ≡ ts)
        × All (IsFresh pid) (create_jobs b pid input ts s).0
  unfolding create_jobs
  create_jobs_types pid input [] s = (refl, tt)
  create_jobs_types pid input (t ∷ ts) s =
      let n : NewJob = record { project_id = pid; type = t; input_data = some input } in
      let ih = create_jobs_types pid input ts (b.job_create n s) in
      (ap (λ l. t ∷ l) ih.0, ((refl, refl), ih.1))

  -- The first half: the canonical jobs are the rows of the table with the duplicates cancelled.
  pub cancel_duplicate_active_stages_lem :
      (pid : ℕ) (s : b.State)
      → (s' : b.State) × (cancel_duplicate_active_stages b pid (pipeline_jobs b pid s) s
          ≡ (ok (keep (in_pipeline pid) (cancelled_jobs pid (b.view s).jobs)), s'))
        × (b.view s' ≡ record (b.view s) { jobs = cancelled_jobs pid (b.view s).jobs })
  unfolding cancel_duplicate_active_stages
  cancel_duplicate_active_stages_lem pid s = go (duplicate_ids [] (pipeline_jobs b pid s)) refl
    where
      go :
          (ids : List ℕ)
          → duplicate_ids [] (pipeline_jobs b pid s) ≡ ids
          → (s' : b.State) × (cancel_duplicate_active_stages b pid (pipeline_jobs b pid s) s
              ≡ (ok (keep (in_pipeline pid) (cancelled_jobs pid (b.view s).jobs)), s'))
            × (b.view s' ≡ record (b.view s) { jobs = cancelled_jobs pid (b.view s).jobs })
      go [] e = (
        s,
        rw (cancel_duplicate_active_stages, e, update_where-none) refl,
        rw (e, update_where-none) refl,
      )
      go (i ∷ ids) e = (
        b.job_update_many (in_ids (i ∷ ids)) cancel_duplicate s,
        rw (cancel_duplicate_active_stages, e, b.job_update_many_lem) refl,
        rw (e, b.job_update_many_lem) refl,
      )

  when_view :
      (t : Bool) (pid : ℕ) (f : Project → Project) (s s' : b.State)
      → when t (project_update b pid f) s ≡ (ok tt, s')
      → ((b.view s').jobs ≡ (b.view s).jobs) × ((b.view s').tasks ≡ (b.view s).tasks)
  when_view true pid f s s' h = let e = project_update_view b pid f s s' h in (rw e refl, rw e refl)
  when_view false pid f s s' h = let e : s ≡ s' = ap (λ r. r.1) h in (rw e refl, rw e refl)

  create_fresh_pipeline_result :
      (cid : Text) (p : Project) (d : PipelineDefinition) (s s' : b.State) (jobs : List Job)
      → create_fresh_pipeline b cid p d s ≡ (ok jobs, s')
      → ((b.view s').jobs ≡ keep (λ j. not (in_pipeline p.id j)) (b.view s).jobs ++ jobs)
        × (map (λ j. j.type) jobs ≡ d.order)
        × All (IsFresh p.id) jobs
  unfolding create_fresh_pipeline
  create_fresh_pipeline_result cid p d s s' jobs h =
      let (u, s₁, e, h') = and_then-eq-ok _ _ h in
      let v = project_update_view b p.id _ _ s₁ e in
      let input = fresh_input cid d.source (classify_synthetic_run p.title) in
      let made = create_jobs_types p.id input d.order s₁ in
      rw (← ok_injective (ap (λ r. r.0) h'), ← ap (λ r. r.1) h')
        (rw (create_jobs_view p.id input d.order s₁, v, b.job_delete_many_lem) refl, made.0, made.1)

  -- What a successful reconciliation returns and leaves, by its mode.
  abbrev pub Reused : Project → List Job → StartResult → b.State → Type 0
  Reused p jobs r s' =
      (r.mode ≡ reused)
      × (any (λ j. is_active j.status) (keep (in_pipeline p.id) jobs) ≡ true)
      × (r.jobs ≡ keep (in_pipeline p.id) jobs)
      × ((b.view s').jobs ≡ jobs)

  abbrev pub Created : Project → PipelineDefinition → List Job → StartResult → b.State → Type 0
  Created p d jobs r s' =
      (r.mode ≡ created)
      × (any (λ j. is_active j.status) (keep (in_pipeline p.id) jobs) ≡ false)
      × ((b.view s').jobs ≡ keep (λ j. not (in_pipeline p.id j)) jobs ++ r.jobs)
      × (map (λ j. j.type) r.jobs ≡ d.order)
      × All (IsFresh p.id) r.jobs

  pub reconcile_result :
      (cid : Text) (p : Project) (d : PipelineDefinition) (s s' : b.State) (r : StartResult)
      → reconcile b cid p d s ≡ (ok r, s')
      → Reused p (cancelled_jobs p.id (b.view s).jobs) r s'
        ⊎ Created p d (cancelled_jobs p.id (b.view s).jobs) r s'
  unfolding reconcile
  reconcile_result cid p d s s' r h =
      let (s₁, e, v) = cancel_duplicate_active_stages_lem p.id s in
      let jobs = cancelled_jobs p.id (b.view s).jobs in
      let h₁ = rw (reconcile, e) at h in
      elim (Bool-cases (any (λ j. is_active j.status) (keep (in_pipeline p.id) jobs))) [
        | inl live ↦
            let h₂ = rw live at h₁ in
            let answer : StartResult = record {
              jobs = keep (in_pipeline p.id) jobs;
              mode = reused;
            } in
            let (u, s₂, e₂, h₃) = and_then-eq-ok (λ _. return answer) _ h₂ in
            let w =
              when_view (not (is_running p.status)) p.id
                (set_project_status ProjectStatus.processing) s₁ s₂ e₂ in
            let same : answer ≡ r = ok_injective (ap (λ q. q.0) h₃) in
            inl (rw (← same, ← ap (λ q. q.1) h₃) (refl, live, refl, w.0 ∙ ap (λ t. t.jobs) v))
        | inr idle ↦
            let h₂ = rw idle at h₁ in
            let (made, s₂, e₂, h₃) =
              and_then-eq-ok (λ l. return (record { jobs = l; mode = created })) _ h₂ in
            let w = create_fresh_pipeline_result cid p d s₁ s₂ made e₂ in
            let answer : StartResult = record { jobs = made; mode = created } in
            let same : answer ≡ r = ok_injective (ap (λ q. q.0) h₃) in
            inr (
              rw (← same, ← ap (λ q. q.1) h₃)
                (
                  refl,
                  idle,
                  w.0 ∙ ap (λ t. keep (λ j. not (in_pipeline p.id j)) t.jobs ++ made) v,
                  w.1,
                  w.2,
                ))
      ]
