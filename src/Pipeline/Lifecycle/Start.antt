-- ===== src/Pipeline/Lifecycle/Start.antt =====
-- What a start request leaves and returns.
use music_video_generator.Prelude.{
  ℕ, ◌≤◌, Bool, true, false, not, Option, none, some, List, [], ◌∷◌, ◌≡◌, refl, sym, ap, ◌∙◌, ◌==◌,
  arith, find, Option-cases, find_passes, ==_iff, inl, inr, Text, any,
}
use music_video_generator.Json.{Json, obj, Fields, get, plain_object, remove}
use music_video_generator.Schema.{Job, JobType, Project, is_pending, is_processing, is_active}
use music_video_generator.Outcome.{
  Outcome, ok, err, Failure, and_then-eq-ok, transaction-eq-ok, ok_injective, err_ne_ok, return,
  when, ◌>>◌, transaction,
}
use music_video_generator.Backend.{Backend}
use music_video_generator.Env.{Environment}
use music_video_generator.Pipeline.Source.{
  ProviderEnv, build_pipeline_definition, resolve_project_source_mode, ensure_project_preflight,
}
use music_video_generator.Pipeline.Store.{
  find_project, pipeline_jobs, project_update, set_source_mode, set_analysis_result,
}
use music_video_generator.Pipeline.Store.Effects.{project_update_jobs}
use music_video_generator.Pipeline.Quality.{clear_meta, quality_key, clear_entry, clear_analysis}
use music_video_generator.Pipeline.Reconciliation.{
  StartMode, created, reused, StartResult, reconcile,
}
use music_video_generator.Pipeline.Reconciliation.Restart.{reconcile-one_active, reconcile-jobs}
use music_video_generator.Jobs.State.{Stamp}
use music_video_generator.Jobs.Coordinator.{coordinate}
use music_video_generator.Jobs.Coordinator.Active.{
  active_count, StartsNone, same_jobs-StartsNone, and_then-StartsNone, coordinate-StartsNone,
}
use music_video_generator.Pipeline.Lifecycle.{
  start_in_transaction, start_pipeline, after_start, dispatch_first, resume, check, has_source_mode,
}

module _ (b : Backend) where
  clear_entry_jobs :
      (pid : ℕ) (fs : Fields) (o : Option Json) (s : b.State)
      → (b.view (clear_entry b pid fs o s).1).jobs ≡ (b.view s).jobs
  unfolding clear_entry
  clear_entry_jobs pid fs none s = refl
  clear_entry_jobs pid fs (some q) s =
      project_update_jobs b pid (set_analysis_result (obj (remove quality_key fs))) s

  clear_analysis_jobs :
      (pid : ℕ) (o : Option Fields) (s : b.State)
      → (b.view (clear_analysis b pid o s).1).jobs ≡ (b.view s).jobs
  unfolding clear_analysis
  clear_analysis_jobs pid none s = refl
  clear_analysis_jobs pid (some fs) s = clear_entry_jobs pid fs (get quality_key fs) s

  clear_meta_jobs : (pid : ℕ) (s : b.State) → (b.view (clear_meta b pid s).1).jobs ≡ (b.view s).jobs
  unfolding clear_meta
  clear_meta_jobs pid s = elim (Option-cases (find_project b pid s)) [
    | inl e ↦ rw (clear_meta, e) refl
    | inr (p, e) ↦ rw (clear_meta, e) (clear_analysis_jobs pid (plain_object p.analysis_result) s)
  ]

  -- A successful start has reconciled the jobs of the project.
  start_in_transaction_result :
      (env : ProviderEnv) (cid : Text) (pid : ℕ) (s s' : b.State) (r : StartResult)
      → start_in_transaction b env cid pid s ≡ (ok r, s')
      → (p : Project) × (s₁ : b.State) × (p.id ≡ pid)
        × (reconcile b cid p (build_pipeline_definition p) s₁ ≡ (ok r, s'))
  unfolding start_in_transaction
  start_in_transaction_result env cid pid s s' r h = elim (Option-cases (find_project b pid s)) [
    | inl e ↦ absurd (err_ne_ok (ap (λ q. q.0) (rw (start_in_transaction, e) at h)))
    | inr (p, e) ↦
        let h₁ = rw (start_in_transaction, e) at h in
        let set =
          when (not (has_source_mode p.source_mode (resolve_project_source_mode p)))
            (project_update b pid (set_source_mode (resolve_project_source_mode p))) in
        let go = reconcile b cid p (build_pipeline_definition p) in
        let (u, s₁, c₁, h₂) =
          and_then-eq-ok (λ _. check b (ensure_project_preflight p) >> (set >> go)) _ h₁ in
        let (v, s₂, c₂, h₃) = and_then-eq-ok (λ _. set >> go) _ h₂ in
        let (w, s₃, c₃, h₄) = and_then-eq-ok (λ _. go) _ h₃ in
        (p, s₃, (==_iff p.id pid).0 (find_passes (λ q. q.id == pid) (b.view s).projects p e), h₄)
  ]

  module _ (dispatch_job : Job → b.State → Outcome (Unit {0}) × b.State) where
    -- A start that is refused inside its transaction (no such project, a failed preflight) writes
    -- nothing and dispatches nothing.
    pub start_pipeline-refused :
        (env : ProviderEnv) (cid : Text) (pid : ℕ) (s s₁ : b.State) (e : Failure)
        → start_in_transaction b env cid pid s ≡ (err e, s₁)
        → start_pipeline b dispatch_job env cid pid s ≡ (err e, s)
    unfolding start_pipeline
    start_pipeline-refused env cid pid s s₁ e h = rw (start_pipeline, h) refl

    module _ (none_started : (j : Job) (s : b.State) → StartsNone b (dispatch_job j s) s) where
      dispatch_first-StartsNone :
          (jobs : List Job) (s : b.State) → StartsNone b (dispatch_first b dispatch_job jobs s) s
      dispatch_first-StartsNone [] s = same_jobs-StartsNone b _ s refl
      dispatch_first-StartsNone (j ∷ jobs) s = none_started j s

      resume-StartsNone :
          (busy : Bool) (o : Option Job) (s : b.State)
          → StartsNone b (resume b dispatch_job busy o s) s
      resume-StartsNone false (some j) s = none_started j s
      resume-StartsNone false none s = same_jobs-StartsNone b _ s refl
      resume-StartsNone true o s = same_jobs-StartsNone b _ s refl

      after_start-StartsNone :
          (pid : ℕ) (m : StartMode) (jobs : List Job) (s : b.State)
          → StartsNone b (after_start b dispatch_job pid m jobs s) s
      unfolding after_start
      after_start-StartsNone pid created jobs s =
          and_then-StartsNone b (λ _. dispatch_first b dispatch_job jobs) (clear_meta b pid s) s
            (same_jobs-StartsNone b _ s (clear_meta_jobs pid s))
            (λ _ w. dispatch_first-StartsNone jobs w)
      after_start-StartsNone pid reused jobs s =
          resume-StartsNone (any (λ j. is_processing j.status) jobs)
            (find (λ j. is_pending j.status) jobs) s

  -- A start that succeeds, with the dispatch of the coordinator, returns the rows that the project's
  -- pipeline has when its transaction ends, at least one of them active, and no stage of the pipeline
  -- has two active jobs, neither then nor when the start ends.
  pub start_pipeline-one_active :
      (env : Environment) (fresh : Text) (stamp : Stamp) (fuel : ℕ) (providers : ProviderEnv)
      (cid : Text) (pid : ℕ) (s s' : b.State) (jobs : List Job)
      → start_pipeline b (coordinate b env fresh stamp fuel) providers cid pid s ≡ (ok jobs, s')
      → (s₁ : b.State) × (r : StartResult) × (start_in_transaction b providers cid pid s
          ≡ (ok r, s₁))
        × (jobs ≡ pipeline_jobs b pid s₁)
        × (any (λ j. is_active j.status) jobs ≡ true)
        × ((t : JobType) → (active_count b pid t s₁ ≤ 1) × (active_count b pid t s' ≤ 1))
  unfolding start_pipeline
  start_pipeline-one_active env fresh stamp fuel providers cid pid s s' jobs h =
      let again = coordinate b env fresh stamp fuel in
      let (r, s₁, e, h₁) =
        and_then-eq-ok (λ (r : StartResult). after_start b again pid r.mode r.jobs >> return r.jobs)
          (transaction (start_in_transaction b providers cid pid) s) h in
      let inside = transaction-eq-ok (start_in_transaction b providers cid pid) s e in
      let (p, s₀, same, done) = start_in_transaction_result providers cid pid s s₁ r inside in
      let (u, s₂, e₂, h₂) = and_then-eq-ok (λ _. return r.jobs) _ h₁ in
      let last : s₂ ≡ s' = ap (λ q. q.1) h₂ in
      let js : r.jobs ≡ jobs = ok_injective (ap (λ q. q.0) h₂) in
      let (rows, live) = reconcile-jobs b cid p s₀ s₁ r done in
      (
        s₁,
        r,
        inside,
        sym js ∙ rows ∙ ap (λ i. pipeline_jobs b i s₁) same,
        rw (← js) live,
        λ t.
            let before : active_count b pid t s₁ ≤ 1 =
              rw (← same) (reconcile-one_active b cid p s₀ s₁ r done t) in
            let more =
              after_start-StartsNone again (coordinate-StartsNone b env fresh stamp fuel) pid r.mode
                r.jobs s₁ u s₂ e₂ pid t in
            (before, rw (← last) (omega (arith, before, more))),
      )
