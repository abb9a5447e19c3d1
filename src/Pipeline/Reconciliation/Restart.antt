-- ===== src/Pipeline/Reconciliation/Restart.antt =====
-- What a reconciliation leaves, and a second one after it.
use music_video_generator.Prelude.{
  ℕ, ◌+◌, ◌≤◌, Bool, true, not, List, [], ◌∷◌, ◌++◌, map, ◌≡◌, refl, sym, subst, arith, any, every,
  keep, count_where, All, Bool-cases, inl, inr, Text, keep-append, ==_refl,
}
use music_video_generator.Schema.{
  Job, JobType, Project, ProjectStatus, same_type, is_active, is_pipeline_type,
}
use music_video_generator.Outcome.{ok}
use music_video_generator.Backend.{Backend}
use music_video_generator.Pipeline.Source.{PipelineDefinition, build_pipeline_definition}
use music_video_generator.Pipeline.Store.{in_pipeline, pipeline_jobs}
use music_video_generator.Pipeline.Reconciliation.{
  StartResult, reused, reconcile, cancel_duplicate_active_stages,
}
use music_video_generator.Pipeline.Reconciliation.Duplicates.{
  active_stage, count-cancelled, duplicate_ids-eq-nil, ids_in_self,
}
use music_video_generator.Pipeline.Reconciliation.Result.{IsFresh, reconcile_result}

-- What the definitions of pipelines have in common.
abbrev IsProper : List JobType → Type 0
IsProper ts =
    (every is_pipeline_type ts ≡ true)
    × (any is_pipeline_type ts ≡ true)
    × ((t : JobType) → count_where (same_type t) ts ≤ 1)

build-IsProper : (p : Project) → IsProper (build_pipeline_definition p).order
unfolding build_pipeline_definition is_pipeline_type same_type
build-IsProper p = (ground arith, ground arith, λ t. ground arith)

count_where-append :
    (q : Job → Bool) (xs ys : List Job)
    → count_where q (xs ++ ys) ≡ count_where q xs + count_where q ys
count_where-append q [] ys = omega arith
count_where-append q (x ∷ xs) ys = ground (arith, count_where-append q xs ys)

count-others :
    (pid : ℕ) (t : JobType) (jobs : List Job)
    → count_where (active_stage pid t) (keep (λ j. not (in_pipeline pid j)) jobs) ≡ 0
count-others pid t [] = refl
count-others pid t (j ∷ jobs) = elim (Bool-cases (in_pipeline pid j)) [
  | inl mine ↦ rw mine (count-others pid t jobs)
  | inr other ↦ rw (other, other) (count-others pid t jobs)
]

count-le-types :
    (pid : ℕ) (t : JobType) (jobs : List Job)
    → count_where (active_stage pid t) jobs ≤ count_where (same_type t) (map (λ j. j.type) jobs)
count-le-types pid t [] = omega arith
count-le-types pid t (j ∷ jobs) = ground (arith, count-le-types pid t jobs)

keep-others :
    (pid : ℕ) (jobs : List Job)
    → keep (in_pipeline pid) (keep (λ j. not (in_pipeline pid j)) jobs) ≡ []
keep-others pid [] = refl
keep-others pid (j ∷ jobs) = elim (Bool-cases (in_pipeline pid j)) [
  | inl mine ↦ rw mine (keep-others pid jobs)
  | inr other ↦ rw (other, other) (keep-others pid jobs)
]

keep-fresh :
    (pid : ℕ) (jobs : List Job)
    → All (IsFresh pid) jobs
    → every is_pipeline_type (map (λ j. j.type) jobs) ≡ true
    → keep (in_pipeline pid) jobs ≡ jobs
keep-fresh pid [] f h = refl
keep-fresh pid (j ∷ jobs) f h = ground (arith, keep-fresh pid jobs f.1, ==_refl pid)

active-fresh :
    (pid : ℕ) (jobs : List Job)
    → All (IsFresh pid) jobs
    → any is_pipeline_type (map (λ j. j.type) jobs) ≡ true
    → any (λ j. is_active j.status) jobs ≡ true
active-fresh pid [] f h = cc
active-fresh pid (j ∷ jobs) f h = ground arith

module _ (b : Backend) (cid : Text) (p : Project) (s s' : b.State) (r : StartResult)
    (started : reconcile b cid p (build_pipeline_definition p) s ≡ (ok r, s')) where
  -- After a successful reconciliation no stage of the project's pipeline has two active jobs, whatever
  -- jobs were there before.
  pub reconcile-one_active : (t : JobType) → count_where (active_stage p.id t) (b.view s').jobs ≤ 1
  reconcile-one_active t =
      let old = (b.view s).jobs in
      elim (reconcile_result b cid p (build_pipeline_definition p) s s' r started) [
        | inl (m, live, js, v) ↦ rw v (count-cancelled p.id t old [] _ (ids_in_self _))
        | inr (m, idle, v, types, fresh) ↦
            let made = count-le-types p.id t r.jobs in
            let few = (build-IsProper p).2 t in
            rw (v, count_where-append, count-others) (omega (arith, made, rw types at made, few))
      ]

  -- The jobs that a successful reconciliation returns are the rows of the project's pipeline, in the
  -- order of creation, and one of them is active.
  pub reconcile-jobs :
      (r.jobs ≡ pipeline_jobs b p.id s') × (any (λ j. is_active j.status) r.jobs ≡ true)
  reconcile-jobs = elim (reconcile_result b cid p (build_pipeline_definition p) s s' r started) [
    | inl (m, live, js, v) ↦ (rw v js, rw js live)
    | inr (m, idle, v, types, fresh) ↦
        let proper = build-IsProper p in
        (
          rw (v, keep-append, keep-others) (sym (keep-fresh p.id r.jobs fresh (rw types proper.0))),
          active-fresh p.id r.jobs fresh (rw types proper.1),
        )
  ]

  -- A second reconciliation, of the project as it is read back while processing and before anything is
  -- dispatched, returns the same jobs in mode `reused` and leaves the database as it is.
  pub reconcile-restart :
      (cid' : Text) (p' : Project) (d' : PipelineDefinition)
      → p'.id ≡ p.id
      → p'.status ≡ ProjectStatus.processing
      → reconcile b cid' p' d' s' ≡ (ok (record { jobs = r.jobs; mode = reused }), s')
  unfolding reconcile cancel_duplicate_active_stages
  reconcile-restart cid' p' d' same running =
      let (js, live) = reconcile-jobs in
      let unique =
        duplicate_ids-eq-nil p.id (b.view s').jobs []
          (λ t. omega (arith, reconcile-one_active t)) in
      let here : cancel_duplicate_active_stages b p.id (pipeline_jobs b p.id s') s'
          ≡ (ok r.jobs, s') =
        rw (cancel_duplicate_active_stages, unique, ← js) refl in
      let there =
        subst (λ i. cancel_duplicate_active_stages b i (pipeline_jobs b i s') s' ≡ (ok r.jobs, s'))
          (sym same) here in
      rw (there, live, running) refl
