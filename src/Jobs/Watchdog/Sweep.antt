-- ===== src/Jobs/Watchdog/Sweep.antt =====
-- What a cycle of the watchdog leaves.
use music_video_generator.Prelude.{
  ℕ, true, false, List, [], ◌∷◌, ◌≡◌, arith, ◌==◌, any, count_where, All, any-update_where,
  any-update_where-false, Bool-cases, inl, inr,
}
use mathlib.Core.Bool.{false≢true}
use music_video_generator.Schema.{Job, ProjectStatus, is_pipeline_type}
use music_video_generator.Backend.{Backend}
use music_video_generator.Env.{Environment}
use music_video_generator.Pipeline.Store.{set_project_status}
use music_video_generator.Jobs.Watchdog.{
  Watchdog, Row, stale_age, is_stale_job, time_out, unfinished, give_up, open_project,
  fail_stale_processing_job, fail_all, find_stale_processing_jobs, run_stale_watchdog_cycle,
}

module _ (b : Backend) where
  -- A stale job of the pipeline that is still processing takes its pipeline with it: no job of the
  -- project's pipeline is left pending or processing, and the project is neither a draft nor
  -- processing.
  pub fail_stale_processing_job-clears :
      (now : ℕ) (r : Row) (s : b.State)
      → (fail_stale_processing_job b now r s).0 ≡ true
      → is_pipeline_type r.job.type ≡ true
      → let after = b.view (fail_stale_processing_job b now r s).1 in
        (any (unfinished r.job.project_id) after.jobs ≡ false)
        × (any (open_project r.job.project_id) after.projects ≡ false)
  unfolding fail_stale_processing_job
  fail_stale_processing_job-clears now r s h t =
      elim (Bool-cases (count_where (is_stale_job r.job) (b.view s).jobs == 0)) [
        | inl gone ↦ absurd (false≢true (rw (fail_stale_processing_job, gone) at h))
        | inr here ↦
            let pid = r.job.project_id in
            rw (here, t, b.project_update_many_lem, b.job_update_many_lem)
              (
                any-update_where (unfinished pid) give_up (unfinished pid) (λ j q. q)
                    (λ j q. ground arith) _,
                any-update_where (open_project pid) (set_project_status ProjectStatus.failed)
                    (open_project pid) (λ j q. q) (λ j q. ground arith) _,
              )
      ]

  -- One sweep leaves the row's job out of processing, and brings no job back to it.
  sweep_ends :
      (now : ℕ) (r : Row) (s : b.State)
      → any (is_stale_job r.job) (b.view (fail_stale_processing_job b now r s).1).jobs ≡ false
  unfolding fail_stale_processing_job
  sweep_ends now r s =
      let jobs = (b.view s).jobs in
      let off =
        any-update_where (is_stale_job r.job) (time_out (stale_age now r)) (is_stale_job r.job)
          (λ j q. q) (λ j q. ground arith) jobs in
      elim (Bool-cases (count_where (is_stale_job r.job) jobs == 0)) [
        | inl gone ↦ rw (gone, b.job_update_many_lem) off
        | inr here ↦ elim (Bool-cases (is_pipeline_type r.job.type)) [
          | inl t ↦
              rw (here, t, b.project_update_many_lem, b.job_update_many_lem, b.job_update_many_lem)
                (any-update_where-false (unfinished r.job.project_id) give_up (is_stale_job r.job)
                  (λ j q. ground arith) _ off)
          | inr t ↦ rw (here, t, b.job_update_many_lem) off
        ]
      ]

  sweep_keeps :
      (now : ℕ) (r : Row) (s : b.State) (k : Job)
      → any (is_stale_job k) (b.view s).jobs ≡ false
      → any (is_stale_job k) (b.view (fail_stale_processing_job b now r s).1).jobs ≡ false
  unfolding fail_stale_processing_job
  sweep_keeps now r s k e =
      let jobs = (b.view s).jobs in
      let off =
        any-update_where-false (is_stale_job r.job) (time_out (stale_age now r)) (is_stale_job k)
          (λ j q. ground arith) jobs e in
      elim (Bool-cases (count_where (is_stale_job r.job) jobs == 0)) [
        | inl gone ↦ rw (gone, b.job_update_many_lem) off
        | inr here ↦ elim (Bool-cases (is_pipeline_type r.job.type)) [
          | inl t ↦
              rw (here, t, b.project_update_many_lem, b.job_update_many_lem, b.job_update_many_lem)
                (any-update_where-false (unfinished r.job.project_id) give_up (is_stale_job k)
                  (λ j q. ground arith) _ off)
          | inr t ↦ rw (here, t, b.job_update_many_lem) off
        ]
      ]

  fail_all_keeps :
      (now : ℕ) (rs : List Row) (s : b.State) (k : Job)
      → any (is_stale_job k) (b.view s).jobs ≡ false
      → any (is_stale_job k) (b.view (fail_all b now rs s)).jobs ≡ false
  unfolding fail_all
  fail_all_keeps now [] s k e = e
  fail_all_keeps now (r ∷ rs) s k e =
      fail_all_keeps now rs (fail_stale_processing_job b now r s).1 k (sweep_keeps now r s k e)

  fail_all_ends :
      (now : ℕ) (rs : List Row) (s : b.State)
      → All (λ r. any (is_stale_job r.job) (b.view (fail_all b now rs s)).jobs ≡ false) rs
  unfolding fail_all
  fail_all_ends now [] s = tt
  fail_all_ends now (r ∷ rs) s =
      let s₁ = (fail_stale_processing_job b now r s).1 in
      (fail_all_keeps now rs s₁ r.job (sweep_ends now r s), fail_all_ends now rs s₁)

  -- After a cycle that was not kept out by another one, no job that it found stale is processing.
  pub run_stale_watchdog_cycle-ends :
      (env : Environment) (now : ℕ) (rows : List Row) (w : Watchdog) (s : b.State)
      → w.running ≡ false
      → All
          (λ r.
            any (is_stale_job r.job) (b.view (run_stale_watchdog_cycle b env now rows w s).1).jobs
            ≡ false)
          (find_stale_processing_jobs env now rows)
  unfolding run_stale_watchdog_cycle
  run_stale_watchdog_cycle-ends env now rows w s idle =
      rw idle (fail_all_ends now (find_stale_processing_jobs env now rows) s)
