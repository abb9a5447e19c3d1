-- ===== src/Pipeline/Store/Effects.antt =====
-- What the calls of Pipeline.Store do to the tables.
use music_video_generator.Prelude.{
  ℕ, some, ◌≡◌, refl, ap, sym, ◌∙◌, ◌==◌, update_where, Option-cases, inl, inr,
}
use music_video_generator.Schema.{Job, Project}
use music_video_generator.Outcome.{ok}
use music_video_generator.Backend.{Backend}
use music_video_generator.Pipeline.Store.{find_project, find_job, job_update, project_update}

module _ (b : Backend) where
  -- A successful update of a project writes that row and nothing else.
  pub project_update_view :
      (pid : ℕ) (f : Project → Project) (s s' : b.State)
      → project_update b pid f s ≡ (ok tt, s')
      → b.view s'
        ≡ record (b.view s) { projects = update_where (λ q. q.id == pid) f (b.view s).projects }
  unfolding project_update
  project_update_view pid f s s' h = elim (Option-cases (find_project b pid s)) [
    | inl e ↦ absurd (cc (rw (project_update, e) at h))
    | inr (p, e) ↦
        let h' = rw (project_update, e) at h in
        ap b.view (sym (ap (λ r. r.1) h')) ∙ b.project_update_many_lem (λ q. q.id == pid) f s
  ]

  -- An update of a job that finds its row returns the new row and writes it.
  pub job_update_found :
      (id : ℕ) (f : Job → Job) (s : b.State) (j : Job)
      → find_job b id s ≡ some j
      → ((job_update b id f s).0 ≡ ok (f j))
        × (b.view (job_update b id f s).1
            ≡ record (b.view s) { jobs = update_where (λ k. k.id == id) f (b.view s).jobs })
  unfolding job_update
  job_update_found id f s j h =
      rw (job_update, h) (refl, b.job_update_many_lem (λ k. k.id == id) f s)

  -- An update of a project that exists succeeds.
  pub project_update_found :
      (pid : ℕ) (f : Project → Project) (s : b.State) (p : Project)
      → find_project b pid s ≡ some p
      → project_update b pid f s ≡ (ok tt, b.project_update_many (λ q. q.id == pid) f s)
  unfolding project_update
  project_update_found pid f s p h = rw (project_update, h) refl

  -- An update of a project leaves the jobs alone, whether it finds its row or not.
  pub project_update_jobs :
      (pid : ℕ) (f : Project → Project) (s : b.State)
      → (b.view (project_update b pid f s).1).jobs ≡ (b.view s).jobs
  unfolding project_update
  project_update_jobs pid f s = elim (Option-cases (find_project b pid s)) [
    | inl e ↦ rw (project_update, e) refl
    | inr (p, e) ↦ rw (project_update, e, b.project_update_many_lem) refl
  ]

  pub job_update_eq :
      (id : ℕ) (f : Job → Job) (s : b.State) (j : Job)
      → find_job b id s ≡ some j
      → job_update b id f s ≡ (ok (f j), b.job_update_many (λ k. k.id == id) f s)
  unfolding job_update
  job_update_eq id f s j h = rw (job_update, h) refl
