-- ===== src/Jobs/Coordinator/Fuel.antt =====
-- How much fuel the coordinator takes: the recursion goes through pending finalizations, and each
-- is completed before the next.
use music_video_generator.Prelude.{
  ℕ, zero, suc, ◌+◌, ◌≤◌, ◌<◌, Bool, true, false, not, ◌&&◌, Option, none, some, List, [], ◌∷◌,
  ◌++◌, Text, ◌≡◌, ◌≢◌, refl, ap, sym, ◌∙◌, arith, ◌==◌, any, keep, update_where, count_where,
  Option-cases, inl, inr,
}
use music_video_generator.Json.{Json}
use music_video_generator.Schema.{
  Job, JobStatus, Project, ProjectStatus, finalize, same_type, is_pending, is_pipeline_type,
}
use music_video_generator.Outcome.{
  Outcome, ok, err, Failure, out_of_fuel, and_then, ◌>>=◌, ◌>>◌, return, when, err_ne_ok,
}
use music_video_generator.Backend.{Backend, QueueName, Task}
use music_video_generator.Env.{Environment}
use music_video_generator.Pipeline.Store.{
  find_project, find_job, project_jobs, project_update, set_project_status,
}
use music_video_generator.Pipeline.Store.Effects.{project_update_jobs, job_update_eq}
use music_video_generator.Pipeline.Reasons.{extract_degraded_reasons, extract_degraded_reason_codes}
use music_video_generator.Pipeline.Quality.{append_degraded_meta, append_stage_metrics}
use music_video_generator.Pipeline.Transition.{Decision, wait, complete, resolve_advance_decision}
use music_video_generator.Pipeline.Transition.Decisions.{
  resolve_ne_out_of_fuel, resolve_advance_decision-FirstPending,
}
use music_video_generator.Pipeline.Lifecycle.{act, advance_pipeline}
use music_video_generator.Jobs.Crud.{apply_update, no_update}
use music_video_generator.Jobs.State.{Stamp, update, mark_as_completed}
use music_video_generator.Jobs.Dispatch.{queue_of, task_of, add, dispatch}
use music_video_generator.Jobs.Coordinator.{finalized, on_finalize, coordinate}

-- A finalization that waits to be dispatched.
abbrev pub open_finalization : Job → Bool
open_finalization k = is_pending k.status && same_type k.type finalize

-- One of another row than `j`.
abbrev pub other_finalization : Job → Job → Bool
other_finalization j k = open_finalization k && not (k.id == j.id)

count-completed :
    (i : ℕ) (f : Job → Job) (xs : List Job)
    → ((k : Job) → is_pending (f k).status ≡ false)
    → count_where open_finalization (update_where (λ k. k.id == i) f xs)
      ≡ count_where (λ k. open_finalization k && not (k.id == i)) xs
count-completed i f [] h = refl
count-completed i f (x ∷ xs) h = ground (arith, h x, count-completed i f xs h)

count-others-le :
    (j : Job) (xs : List Job)
    → count_where (other_finalization j) xs ≤ count_where open_finalization xs
count-others-le j [] = omega arith
count-others-le j (x ∷ xs) = ground (arith, count-others-le j xs)

count-others-lt :
    (j : Job) (xs : List Job)
    → any (λ k. open_finalization k && k.id == j.id) xs ≡ true
    → count_where (other_finalization j) xs < count_where open_finalization xs
count-others-lt j [] h = ground arith
count-others-lt j (x ∷ xs) h = ground (arith, count-others-le j xs, count-others-lt j xs)

any-of_keep : (p q : Job → Bool) (xs : List Job) → any q (keep p xs) ≡ true → any q xs ≡ true
any-of_keep p q [] h = h
any-of_keep p q (x ∷ xs) h = ground (arith, any-of_keep p q xs)

any-middle :
    (q : Job → Bool) (before : List Job) (j : Job) (after : List Job)
    → q j ≡ true
    → any q (before ++ j ∷ after) ≡ true
any-middle q [] j after h = ground arith
any-middle q (x ∷ before) j after h = ground (arith, any-middle q before j after)

module _ (b : Backend) where
  -- A write that leaves the jobs alone and does not run out of fuel.
  abbrev Quiet : Outcome (Unit {0}) × b.State → b.State → Type 0
  Quiet r s = (r.0 ≢ err out_of_fuel) × ((b.view r.1).jobs ≡ (b.view s).jobs)

  and_then-Quiet :
      (k : b.State → Outcome (Unit {0}) × b.State) (r : Outcome (Unit {0}) × b.State) (s : b.State)
      → Quiet r s
      → ((w : b.State) → Quiet (k w) w)
      → Quiet (and_then (λ _. k) r) s
  and_then-Quiet k (ok a, w) s h q = ((q w).0, (q w).1 ∙ h.1)
  and_then-Quiet k (err e, w) s h q = h

  project_update-Quiet :
      (pid : ℕ) (f : Project → Project) (s : b.State) → Quiet (project_update b pid f s) s
  unfolding project_update
  project_update-Quiet pid f s = (
    elim (Option-cases (find_project b pid s)) [
      | inl e ↦ rw (project_update, e) (λ h. cc)
      | inr (p, e) ↦ rw (project_update, e) (λ h. cc)
    ],
    project_update_jobs b pid f s,
  )

  append_degraded_meta-Quiet :
      (now : Text) (pid : ℕ) (rs cs : List Text) (s : b.State)
      → Quiet (append_degraded_meta b now pid rs cs s) s
  unfolding append_degraded_meta
  append_degraded_meta-Quiet now pid [] [] s = (λ h. cc, refl)
  append_degraded_meta-Quiet now pid [] (c ∷ cs) s = elim (Option-cases (find_project b pid s)) [
    | inl e ↦ rw (append_degraded_meta, e) (λ h. cc, refl)
    | inr (p, e) ↦ rw (append_degraded_meta, e) (project_update-Quiet pid _ s)
  ]
  append_degraded_meta-Quiet now pid (r ∷ rs) cs s = elim (Option-cases (find_project b pid s)) [
    | inl e ↦ rw (append_degraded_meta, e) (λ h. cc, refl)
    | inr (p, e) ↦ rw (append_degraded_meta, e) (project_update-Quiet pid _ s)
  ]

  append_stage_metrics-Quiet :
      (now : Text) (pid : ℕ) (j : Job) (m : Option Json) (s : b.State)
      → Quiet (append_stage_metrics b now pid j.type m s) s
  unfolding append_stage_metrics
  append_stage_metrics-Quiet now pid j none s = (λ h. cc, refl)
  append_stage_metrics-Quiet now pid j (some m) s = elim (Option-cases (find_project b pid s)) [
    | inl e ↦ rw (append_stage_metrics, e) (λ h. cc, refl)
    | inr (p, e) ↦ rw (append_stage_metrics, e) (project_update-Quiet pid _ s)
  ]

  when-Quiet :
      (t : Bool) (m : b.State → Outcome (Unit {0}) × b.State) (s : b.State)
      → Quiet (m s) s
      → Quiet (when t m s) s
  when-Quiet true m s h = h
  when-Quiet false m s h = (λ e. cc, refl)

  returns :
      (j : Job) (r : Outcome (Unit {0}) × b.State) (s : b.State)
      → Quiet r s
      → ((and_then (λ _. return j) r).0 ≢ err out_of_fuel)
        × ((j' : Job) (s' : b.State)
            → and_then (λ _. return j) r ≡ (ok j', s')
            → (b.view s').jobs ≡ (b.view s).jobs)
  returns j (ok a, w) s h = (λ e. cc, λ j' s' e. ap (λ q. (b.view q.1).jobs) (sym e) ∙ h.1)
  returns j (err f, w) s h =
      (λ e. h.0 (ap again (e)), λ j' s' e. absurd (err_ne_ok (ap (λ q. q.0) e)))
    where
      again : Outcome Job → Outcome (Unit {0})
      again (ok a) = ok tt
      again (err e) = err e

  -- A completion does not run out of fuel, and rewrites the row to a completed one.
  completed :
      (stamp : Stamp) (id : ℕ) (out : Json) (s : b.State)
      → ((mark_as_completed b stamp id out s).0 ≢ err out_of_fuel)
        × ((j : Job) (s' : b.State)
            → mark_as_completed b stamp id out s ≡ (ok j, s')
            → (f : Job → Job) × ((b.view s').jobs
                ≡ update_where (λ k. k.id == id) f (b.view s).jobs)
              × ((k : Job) → (f k).status ≡ JobStatus.completed))
  unfolding mark_as_completed update apply_update
  completed stamp id out s = elim (Option-cases (find_job b id s)) [
    | inl e ↦ rw (mark_as_completed, update, e) (λ h. cc, λ j s' h. absurd (cc))
    | inr (j, e) ↦
        let f = apply_update (record no_update {
          status = some JobStatus.completed;
          progress = some 100;
          output_data = some out;
        }) in
        let s₁ = b.job_update_many (λ k. k.id == id) f s in
        let v = b.job_update_many_lem (λ k. k.id == id) f s in
        let rest =
          when-Quiet (is_pipeline_type j.type)
            (append_degraded_meta b stamp.now j.project_id
                (extract_degraded_reasons (some out) j.type)
                (extract_degraded_reason_codes (some out) j.type)
              >> append_stage_metrics b stamp.now j.project_id j.type (stamp.metrics j.type out))
            s₁
            (and_then-Quiet
              (append_stage_metrics b stamp.now j.project_id j.type (stamp.metrics j.type out))
              (append_degraded_meta b stamp.now j.project_id
                (extract_degraded_reasons (some out) j.type)
                (extract_degraded_reason_codes (some out) j.type) s₁)
              s₁ (append_degraded_meta-Quiet stamp.now j.project_id _ _ s₁)
              (append_stage_metrics-Quiet stamp.now j.project_id j (stamp.metrics j.type out))) in
        let (fine, kept) = returns (f j) _ s₁ rest in
        rw (mark_as_completed, update, e, job_update_eq b id f s j e)
          (fine, λ j' s' h. (f, kept j' s' h ∙ ap (λ t. t.jobs) v, λ k. refl))
  ]

  pub completed_jobs :
      (stamp : Stamp) (id : ℕ) (out : Json) (s : b.State) (j : Job) (s' : b.State)
      → mark_as_completed b stamp id out s ≡ (ok j, s')
      → (f : Job → Job) × ((b.view s').jobs ≡ update_where (λ k. k.id == id) f (b.view s).jobs)
        × ((k : Job) → (f k).status ≡ JobStatus.completed)
  completed_jobs stamp id out s = (completed stamp id out s).1

  completion :
      (stamp : Stamp) (id : ℕ) (out : Json) (s : b.State)
      → ((mark_as_completed b stamp id out s).0 ≢ err out_of_fuel)
        × ((j : Job) (s' : b.State)
            → mark_as_completed b stamp id out s ≡ (ok j, s')
            → count_where open_finalization (b.view s').jobs
              ≡ count_where (λ k. open_finalization k && not (k.id == id)) (b.view s).jobs)
  completion stamp id out s =
      let (fine, _) = completed stamp id out s in
      (
        fine,
        λ j s' h.
            let (f, jobs, ended) = completed_jobs stamp id out s j s' h in
            rw (jobs) (count-completed id f (b.view s).jobs (λ k. rw (ended k) refl)),
      )

  -- A chain runs out of fuel only where one of its parts does.
  goes_on :
      {A B : Type 0} (k : A → b.State → Outcome B × b.State) (r : Outcome A × b.State)
      → r.0 ≢ err out_of_fuel
      → ((a : A) (w : b.State) → r ≡ (ok a, w) → (k a w).0 ≢ err out_of_fuel)
      → (and_then k r).0 ≢ err out_of_fuel
  goes_on k (ok a, w) h g = g a w refl
  goes_on k (err f, w) h g = λ e. h (ap err (err_injective e))
    where
      reason : {C : Type 0} → Outcome C → Failure
      reason (ok c) = out_of_fuel
      reason (err e) = e

      err_injective : {C : Type 0} {e f : Failure} → ◌≡◌ {A = Outcome C} (err e) (err f) → e ≡ f
      err_injective h = ap reason h

  module _ (again : Job → b.State → Outcome (Unit {0}) × b.State) (pid : ℕ) (s : b.State) where
    acts :
        (o : Outcome Decision)
        → o ≢ err out_of_fuel
        → ((j : Job) → o ≡ ok (Decision.dispatch j) → (again j s).0 ≢ err out_of_fuel)
        → (act b again pid o s).0 ≢ err out_of_fuel
    unfolding act
    acts (err e) h g = λ q. h (cc)
    acts (ok (Decision.dispatch j)) h g =
        goes_on (λ _. return (some j)) (again j s) (g j refl) (λ a w e q. cc)
    acts (ok wait) h g = λ e. cc
    acts (ok complete) h g =
        goes_on (λ _. return none)
          (project_update b pid (set_project_status ProjectStatus.completed) s)
          (project_update-Quiet pid (set_project_status ProjectStatus.completed) s).0
          (λ a w e q. cc)

  adds : (t : Task) (s : b.State) → (add b t s).0 ≢ err out_of_fuel
  adds t s = elim (Option-cases (b.queue_add t s)) [
    | inl n ↦ rw (add, n) (λ h. cc)
    | inr (w, n) ↦ rw (add, n) (λ h. cc)
  ]

  queued :
      (env : Environment) (fresh : Text) (stamp : Stamp) (fuel : ℕ) (j : Job) (s : b.State)
      (q : QueueName)
      → 0 < fuel
      → queue_of j.type ≡ some q
      → (coordinate b env fresh stamp fuel j s).0 ≢ err out_of_fuel
  unfolding coordinate dispatch
  queued env fresh stamp zero j s q h e = absurd (omega (arith, h))
  queued env fresh stamp (suc fuel) j s q h e =
      rw (coordinate, dispatch, e) (adds (task_of env fresh q j) s)

  unqueued : (j : Job) → queue_of j.type ≡ none → same_type j.type finalize ≡ true
  unfolding queue_of same_type
  unqueued j h = ground arith

  -- A finalization that is dispatched next is one of those that wait.
  next_counted :
      (pid : ℕ) (k : Job) (w : b.State)
      → resolve_advance_decision pid (project_jobs b pid w) ≡ ok (Decision.dispatch k)
      → queue_of k.type ≡ none
      → count_where (other_finalization k) (b.view w).jobs
        < count_where open_finalization (b.view w).jobs
  next_counted pid k w d e =
      let f = resolve_advance_decision-FirstPending pid (project_jobs b pid w) k d in
      let test : Job → Bool = λ x. open_finalization x && x.id == k.id in
      let hit : test k ≡ true = ground (arith, f.pending, unqueued k e) in
      let there : any test (project_jobs b pid w) ≡ true =
        rw f.split (any-middle test f.before k f.after hit) in
      count-others-lt k (b.view w).jobs
        (any-of_keep (λ x. x.project_id == pid) test (b.view w).jobs there)

  -- With more fuel than one plus the number of pending finalizations in other rows than the job's, the
  -- coordinator does not end with the error of having run out.
  pub coordinate_fuel :
      (env : Environment) (fresh : Text) (stamp : Stamp) (fuel : ℕ) (j : Job) (s : b.State)
      → count_where (other_finalization j) (b.view s).jobs + 1 < fuel
      → (coordinate b env fresh stamp fuel j s).0 ≢ err out_of_fuel
  unfolding coordinate dispatch on_finalize advance_pipeline
  coordinate_fuel env fresh stamp zero j s h = absurd (omega (arith, h))
  coordinate_fuel env fresh stamp (suc fuel) j s h = elim (Option-cases (queue_of j.type)) [
    | inr (q, e) ↦ queued env fresh stamp (suc fuel) j s q (omega arith) e
    | inl e ↦
        let again = coordinate b env fresh stamp fuel in
        let (fine, counted) = completion stamp j.id finalized s in
        rw (coordinate, dispatch, e)
          (goes_on (λ done. advance_pipeline b again j.project_id >>= (λ next. return tt))
            (mark_as_completed b stamp j.id finalized s) fine
            (λ done w m.
              goes_on (λ next. return tt) (advance_pipeline b again j.project_id w)
                (acts again j.project_id w
                  (resolve_advance_decision j.project_id (project_jobs b j.project_id w))
                  (resolve_ne_out_of_fuel j.project_id (project_jobs b j.project_id w))
                  (λ k d. elim (Option-cases (queue_of k.type)) [
                    | inr (q, e₂) ↦ queued env fresh stamp fuel k w q (omega (arith, h)) e₂
                    | inl e₂ ↦
                        coordinate_fuel env fresh stamp fuel k w
                          (omega (arith, h, counted done w m, next_counted j.project_id k w d e₂))
                  ]))
                (λ a w' e' q. cc)))
  ]
