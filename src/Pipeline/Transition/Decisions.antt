-- ===== src/Pipeline/Transition/Decisions.antt =====
-- Each decision against the statuses of the project's jobs.
use music_video_generator.Prelude.{
  ℕ, Bool, true, false, not, ◌&&◌, ◌||◌, none, some, List, [], ◌∷◌, ◌++◌, ◌≡◌, ◌≢◌, ◌↔◌, refl,
  arith, any, every, keep, find, Bool-cases, ap, sym, ◌∙◌, ◌⊎◌, inl, inr,
}
use music_video_generator.Schema.{Job, is_pending, is_processing, is_completed, is_pipeline_type}
use music_video_generator.Outcome.{Failure, ok, err, no_jobs, no_pipeline_jobs, out_of_fuel}
use music_video_generator.Pipeline.Transition.{dispatch, complete, decide, resolve_advance_decision}

abbrev pub is_pipeline : Job → Bool
is_pipeline j = is_pipeline_type j.type

-- There is a job of the pipeline, and all of them are completed.
abbrev pub IsDone : List Job → Type 0
IsDone jobs =
    (any is_pipeline jobs ≡ true)
    × (every (λ j. not (is_pipeline j) || is_completed j.status) jobs ≡ true)

-- A split of the jobs at the first pending job of the pipeline.
pub record FirstPending (jobs : List Job) (j : Job) : Type 0 where
  pub before : List Job
  pub after : List Job
  pub split : jobs ≡ before ++ j ∷ after
  pub pipeline : is_pipeline j ≡ true
  pub pending : is_pending j.status ≡ true
  pub none_before : any (λ k. is_pipeline k && is_pending k.status) before ≡ false

find-keep_split :
    (jobs : List Job) (j : Job)
    → find (λ k. is_pending k.status) (keep is_pipeline jobs) ≡ some j
    → FirstPending jobs j
find-keep_split [] j h = ground arith
find-keep_split (k ∷ jobs) j h = elim (Bool-cases (is_pipeline k && is_pending k.status)) [
  | inl hit ↦ record {
    before = [];
    after = jobs;
    split = ground arith;
    pipeline = ground arith;
    pending = ground arith;
    none_before = refl;
  }
  | inr miss ↦
      let r = find-keep_split jobs j (ground arith) in
      record {
        before = k ∷ r.before;
        after = r.after;
        split = ap (λ l. k ∷ l) r.split;
        pipeline = r.pipeline;
        pending = r.pending;
        none_before = rw miss r.none_before;
      }
]

completed_only :
    (jobs : List Job)
    → every (λ j. is_completed j.status) jobs ≡ true
    → (find (λ j. is_pending j.status) jobs ≡ none)
      × (any (λ j. is_processing j.status) jobs ≡ false)
completed_only [] h = (refl, refl)
completed_only (j ∷ jobs) h = ground (arith, completed_only jobs)

decide-eq-complete :
    (jobs : List Job) → (decide jobs ≡ complete) ↔ (every (λ j. is_completed j.status) jobs ≡ true)
unfolding decide
decide-eq-complete jobs = (λ h. ground arith, λ h. ground (arith, completed_only jobs h))

decide-eq-dispatch :
    (jobs : List Job) (j : Job)
    → decide jobs ≡ dispatch j
    → find (λ k. is_pending k.status) jobs ≡ some j
unfolding decide
decide-eq-dispatch jobs j h = ground arith

every-keep :
    (jobs : List Job)
    → every (λ j. is_completed j.status) (keep is_pipeline jobs)
      ≡ every (λ j. not (is_pipeline j) || is_completed j.status) jobs
every-keep [] = refl
every-keep (j ∷ jobs) = ground (arith, every-keep jobs)

keep-cases :
    (jobs : List Job)
    → ((keep is_pipeline jobs ≡ []) × (any is_pipeline jobs ≡ false))
      ⊎ ((j : Job) × (js : List Job) × (keep is_pipeline jobs ≡ j ∷ js)
          × (any is_pipeline jobs ≡ true))
keep-cases [] = inl (refl, refl)
keep-cases (j ∷ jobs) = elim (Bool-cases (is_pipeline j)) [
  | inl hit ↦ inr (j, keep is_pipeline jobs, rw hit, rw hit)
  | inr miss ↦ rw miss (keep-cases jobs)
]

-- The answer of the service, by whether the project has a job of the pipeline.
resolve-cases :
    (pid : ℕ) (jobs : List Job)
    → ((any is_pipeline jobs ≡ false)
        × ((e : Failure) × (resolve_advance_decision pid jobs ≡ err e)))
      ⊎ ((any is_pipeline jobs ≡ true)
          × (resolve_advance_decision pid jobs ≡ ok (decide (keep is_pipeline jobs))))
unfolding resolve_advance_decision
resolve-cases pid [] = inl (refl, (no_jobs pid, refl))
resolve-cases pid (k ∷ jobs) = elim (keep-cases (k ∷ jobs)) [
  | inl (e, n) ↦ inl (n, (no_pipeline_jobs pid, rw e refl))
  | inr (j, js, e, y) ↦ inr (y, rw e refl)
]

-- The errors of the service are its own.
pub resolve_ne_out_of_fuel :
    (pid : ℕ) (jobs : List Job) → resolve_advance_decision pid jobs ≢ err out_of_fuel
unfolding resolve_advance_decision
resolve_ne_out_of_fuel pid [] = λ h. cc
resolve_ne_out_of_fuel pid (k ∷ jobs) = elim (keep-cases (k ∷ jobs)) [
  | inl (e, n) ↦ rw e (λ h. cc)
  | inr (j, js, e, y) ↦ rw e (λ h. cc)
]

-- The service answers with an error exactly when the project has no job of the pipeline.
pub resolve_advance_decision-eq-err :
    (pid : ℕ) (jobs : List Job)
    → ((e : Failure) × (resolve_advance_decision pid jobs ≡ err e)) ↔ (any is_pipeline jobs ≡ false)
resolve_advance_decision-eq-err pid jobs = elim (resolve-cases pid jobs) [
  | inl (n, e) ↦ (λ _. n, λ _. e)
  | inr (y, r) ↦ (λ (e, h). cc, λ n. cc)
]

-- The decision is to complete the project exactly when the project has a job of the pipeline and
-- every job of the pipeline is completed.
pub resolve_advance_decision-eq-complete :
    (pid : ℕ) (jobs : List Job) → (resolve_advance_decision pid jobs ≡ ok complete) ↔ IsDone jobs
resolve_advance_decision-eq-complete pid jobs = elim (resolve-cases pid jobs) [
  | inl (n, (e, r)) ↦ (λ h. cc, λ d. cc)
  | inr (y, r) ↦ (
    λ h. (y, sym (every-keep jobs) ∙ (decide-eq-complete (keep is_pipeline jobs)).0 (ground arith)),
    λ d. r ∙ ap ok ((decide-eq-complete _).1 (every-keep jobs ∙ d.1)),
  )
]

-- A job that the service decides to dispatch is the first pending job of the pipeline, in the order
-- of creation.
pub resolve_advance_decision-FirstPending :
    (pid : ℕ) (jobs : List Job) (j : Job)
    → resolve_advance_decision pid jobs ≡ ok (dispatch j)
    → FirstPending jobs j
resolve_advance_decision-FirstPending pid jobs j h = elim (resolve-cases pid jobs) [
  | inl (n, (e, r)) ↦ cc
  | inr (y, r) ↦
      find-keep_split jobs j (decide-eq-dispatch (keep is_pipeline jobs) j (ground arith))
]
