-- ===== src/Jobs/State/Failure.antt =====
-- What the failure of a job leaves.
use music_video_generator.Prelude.{
  ℕ, true, false, some, ◌≡◌, refl, arith, ◌==◌, any, any-update_where, find-update_where,
  find-update_where_other, find_passes, ==_iff, Text, ◌∙◌,
}
use music_video_generator.Schema.{Job, JobStatus, Project, ProjectStatus, given, is_pipeline_type}
use music_video_generator.Outcome.{ok}
use music_video_generator.Backend.{Backend}
use music_video_generator.Pipeline.Store.{find_job, find_project, set_status, set_project_status}
use music_video_generator.Pipeline.Store.Effects.{project_update_found, job_update_eq}
use music_video_generator.Jobs.State.{fail_job, siblings, mark_as_failed}

module _ (b : Backend) (id : ℕ) (error : Text) (s : b.State) where
  -- The failure of a job of the pipeline, in one transaction: the job is failed with the error given,
  -- no other job of the project's pipeline is left pending or processing, the project is failed, and
  -- the queues are as before.
  pub mark_as_failed-fails :
      (j : Job) (p : Project)
      → find_job b id s ≡ some j
      → is_pipeline_type j.type ≡ true
      → find_project b j.project_id s ≡ some p
      → let after = mark_as_failed b id error s in
        (after.0 ≡ ok (fail_job (given error) j))
        × (find_job b id after.1 ≡ some (fail_job (given error) j))
        × (any (siblings j) (b.view after.1).jobs ≡ false)
        × (find_project b j.project_id after.1 ≡ some (set_project_status ProjectStatus.failed p))
        × ((b.view after.1).tasks ≡ (b.view s).tasks)
  unfolding mark_as_failed
  mark_as_failed-fails j p e t f =
      let failed = fail_job (given error) in
      let s₁ = b.job_update_many (λ k. k.id == id) failed s in
      let v₁ = b.job_update_many_lem (λ k. k.id == id) failed s in
      let s₂ = b.job_update_many (siblings (failed j)) (set_status JobStatus.cancelled) s₁ in
      let v₂ = b.job_update_many_lem (siblings (failed j)) (set_status JobStatus.cancelled) s₁ in
      let there : find_project b j.project_id s₂ ≡ some p = rw (v₂, v₁) f in
      let u =
        project_update_found b j.project_id (set_project_status ProjectStatus.failed) s₂ p there in
      let same : j.id ≡ id = (==_iff j.id id).0 (find_passes (λ k. k.id == id) _ j e) in
      rw (mark_as_failed, job_update_eq b id failed s j e, t, u, b.project_update_many_lem, v₂, v₁)
        (
          refl,
          find-update_where_other (siblings (failed j)) (set_status JobStatus.cancelled)
                (λ k. k.id == id) (λ k h. ground (arith, same)) (λ k. refl) _
              ∙ find-update_where (λ k. k.id == id) failed (λ k. refl) (b.view s).jobs j e,
          any-update_where (siblings j) (set_status JobStatus.cancelled) (siblings j) (λ k h. h)
              (λ k h. ground arith) _,
          find-update_where (λ q. q.id == j.project_id) (set_project_status ProjectStatus.failed)
              (λ q. refl) (b.view s).projects p f,
          refl,
        )
