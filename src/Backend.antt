-- ===== src/Backend.antt =====
-- What the code relies on of its database client (Prisma over PostgreSQL) and its job queues
-- (BullMQ over Redis), which are not part of the repository. `view` is what a query sees; each law
-- says what one documented operation does to it.
use music_video_generator.Prelude.{
  ℕ, Bool, false, Option, none, some, List, [], ◌∷◌, ◌++◌, ◌≡◌, ◌==◌, Text, any, keep, update_where,
  not,
}
use music_video_generator.Json.{Json}
use music_video_generator.Schema.{Job, JobType, JobStatus, Project}

-- The queues of modules/queue/queue.constants.ts that the pipeline's stages go to.
pub data QueueName : Type 0 where
  youtube_download transcription analysis image_generation video_render train_lora : QueueName

-- A call of `Queue.add('process', payload, options)`.
pub record Task : Type 0 where
  pub queue : QueueName
  pub job_id : ℕ
  pub project_id : ℕ
  pub style : Option Text
  pub correlation_id : Option Text
  pub attempts : ℕ
  pub backoff_ms : Option ℕ

-- A job of the dead-letter queue, with the parts of its payload that the code reads: `none` where
-- the payload has no such text or an empty one.
pub record DeadLetter : Type 0 where
  pub id : ℕ
  pub project_id : Option ℕ
  pub job_id : Option ℕ
  pub replayed_job_id : Option ℕ

-- The rows in the order of `createdAt`, and the tasks in the order in which they were added.
pub record Tables : Type 0 where
  pub jobs : List Job
  pub projects : List Project
  pub tasks : List Task
  pub dead_letters : List DeadLetter

-- The columns that `job.create` is given; the others take their defaults.
pub record NewJob : Type 0 where
  pub project_id : ℕ
  pub type : JobType
  pub input_data : Option Json

abbrev pub created_job : ℕ → NewJob → Job
created_job i n = record {
  id = i;
  project_id = n.project_id;
  type = n.type;
  status = JobStatus.pending;
  progress = 0;
  current_step = none;
  worker_id = none;
  error_message = none;
  input_data = n.input_data;
  output_data = none;
}

pub record Backend : Type 1 where
  pub State : Type 0
  pub view : State → Tables
  pub next_id : State → ℕ
  pub job_update_many : (Job → Bool) → (Job → Job) → State → State
  pub job_delete_many : (Job → Bool) → State → State
  pub job_create : NewJob → State → State
  pub project_update_many : (Project → Bool) → (Project → Project) → State → State
  -- `none` when the queue's server cannot be reached.
  pub queue_add : Task → State → Option State
  pub dead_letter_update : (DeadLetter → Bool) → (DeadLetter → DeadLetter) → State → State
  pub job_update_many_lem :
      (p : Job → Bool) (f : Job → Job) (s : State)
      → view (job_update_many p f s) ≡ record (view s) { jobs = update_where p f (view s).jobs }
  pub job_delete_many_lem :
      (p : Job → Bool) (s : State)
      → view (job_delete_many p s) ≡ record (view s) { jobs = keep (λ j. not (p j)) (view s).jobs }
  pub job_create_lem :
      (n : NewJob) (s : State)
      → view (job_create n s)
        ≡ record (view s) { jobs = (view s).jobs ++ created_job (next_id s) n ∷ [] }
  pub next_id_fresh : (s : State) → any (λ j. j.id == next_id s) (view s).jobs ≡ false
  pub project_update_many_lem :
      (p : Project → Bool) (f : Project → Project) (s : State)
      → view (project_update_many p f s)
        ≡ record (view s) { projects = update_where p f (view s).projects }
  pub queue_add_lem :
      (t : Task) (s s' : State)
      → queue_add t s ≡ some s'
      → view s' ≡ record (view s) { tasks = (view s).tasks ++ t ∷ [] }
  pub dead_letter_update_lem :
      (p : DeadLetter → Bool) (f : DeadLetter → DeadLetter) (s : State)
      → view (dead_letter_update p f s)
        ≡ record (view s) { dead_letters = update_where p f (view s).dead_letters }
