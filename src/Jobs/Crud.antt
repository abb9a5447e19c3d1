-- ===== src/Jobs/Crud.antt =====
-- modules/jobs/services/job-crud.service.ts: jobs by id, for everybody and for the project's owner.
pub mod Ownership
use music_video_generator.Prelude.{
  ℕ, Bool, true, false, ◌&&◌, Option, none, some, List, ◌==◌, find, any,
}
use music_video_generator.Json.{Json}
use music_video_generator.Schema.{Job, JobStatus, Message}
use music_video_generator.Outcome.{Outcome, ok, err, project_not_found, job_not_found, ◌>>=◌}
use music_video_generator.Backend.{Backend, NewJob, created_job}
use music_video_generator.Pipeline.Store.{find_job, project_jobs, job_update}

-- `UpdateJobDto`: a field that is absent keeps the column.
pub record UpdateJob : Type 0 where
  pub status : Option JobStatus
  pub progress : Option ℕ
  pub current_step : Option Message
  pub worker_id : Option ℕ
  pub error_message : Option Message
  pub output_data : Option Json

abbrev pub no_update : UpdateJob
no_update = record {
  status = none;
  progress = none;
  current_step = none;
  worker_id = none;
  error_message = none;
  output_data = none;
}

abbrev given_or {ℓ} : {A : Type ℓ} → Option A → A → A
given_or none a = a
given_or (some b) a = b

abbrev some_or {ℓ} : {A : Type ℓ} → Option A → Option A → Option A
some_or none a = a
some_or (some b) a = some b

unfoldable pub apply_update : UpdateJob → Job → Job
apply_update u j = record j {
  status = given_or u.status j.status;
  progress = given_or u.progress j.progress;
  current_step = some_or u.current_step j.current_step;
  worker_id = some_or u.worker_id j.worker_id;
  error_message = some_or u.error_message j.error_message;
  output_data = some_or u.output_data j.output_data;
}

module _ (b : Backend) where
  -- `project.findFirst({ where: { id, userId } })`.
  abbrev pub owns : ℕ → ℕ → b.State → Bool
  owns pid user s = any (λ p. p.id == pid && p.user_id == user) (b.view s).projects

  unfoldable pub assert_project_ownership : ℕ → ℕ → b.State → Outcome (Unit {0}) × b.State
  assert_project_ownership pid user s = elim (owns pid user s) [
    | true ↦ (ok tt, s)
    | false ↦ (err (project_not_found pid), s)
  ]

  unfoldable pub create : NewJob → b.State → Outcome Job × b.State
  create n s = (ok (created_job (b.next_id s) n), b.job_create n s)

  unfoldable pub find_one : ℕ → b.State → Outcome Job × b.State
  find_one id s = elim (find_job b id s) [ none ↦ (err (job_not_found id), s) | some j ↦ (ok j, s) ]

  unfoldable pub find_by_project : ℕ → b.State → Outcome (List Job) × b.State
  find_by_project pid s = (ok (project_jobs b pid s), s)

  -- `job.delete({ where: { id } })`, after the row was found.
  abbrev pub delete_job : Job → b.State → Outcome Job × b.State
  delete_job j s = (ok j, b.job_delete_many (λ k. k.id == j.id) s)

  unfoldable pub remove : ℕ → b.State → Outcome Job × b.State
  unfolding find_one
  remove id s = (do j ← find_one id; delete_job j) s

  -- `job.findFirst({ where: { id, project: { userId } } })`.
  unfoldable pub find_one_for_user : ℕ → ℕ → b.State → Outcome Job × b.State
  find_one_for_user id user s =
      elim (find (λ j. j.id == id && owns j.project_id user s) (b.view s).jobs) [
        | none ↦ (err (job_not_found id), s)
        | some j ↦ (ok j, s)
      ]

  unfoldable pub update_for_user : ℕ → ℕ → UpdateJob → b.State → Outcome Job × b.State
  unfolding find_one_for_user job_update apply_update
  update_for_user id user u s =
      (do j ← find_one_for_user id user; job_update b j.id (apply_update u)) s

  unfoldable pub remove_for_user : ℕ → ℕ → b.State → Outcome Job × b.State
  unfolding find_one_for_user
  remove_for_user id user s = (do j ← find_one_for_user id user; delete_job j) s
