-- ===== src/Examples/World.antt =====
-- A database and queues that are lists in memory.
use music_video_generator.Prelude.{
  ℕ, suc, ◌<◌, max, false, some, List, [], ◌∷◌, ◌++◌, ◌≡◌, refl, arith, ◌==◌, any, not, keep, none,
  update_where,
}
use music_video_generator.Schema.{
  Job, Project, JobType, JobStatus, ProjectStatus, analyze_lyrics, generate_images, render_video,
  finalize,
}
use music_video_generator.Outcome.{Outcome, ok}
use music_video_generator.Env.{Environment}
use music_video_generator.Pipeline.Source.{ProviderEnv}
use music_video_generator.Jobs.Dispatch.{dispatch}
use music_video_generator.Prelude.{codes}
use music_video_generator.Backend.{Backend, Tables, created_job}

abbrev top_id : List Job → ℕ
top_id [] = 0
top_id (j ∷ js) = max j.id (top_id js)

pub none_above : (n : ℕ) (js : List Job) → top_id js < n → any (λ j. j.id == n) js ≡ false
none_above n [] h = refl
none_above n (j ∷ js) h = ground (arith, none_above n js)

abbrev pub memory : Backend
memory = record {
  State = Tables;
  view = λ s. s;
  next_id = λ s. suc (top_id s.jobs);
  job_update_many = λ p f s. record s { jobs = update_where p f s.jobs };
  job_delete_many = λ p s. record s { jobs = keep (λ j. not (p j)) s.jobs };
  job_create = λ n s. record s { jobs = s.jobs ++ created_job (suc (top_id s.jobs)) n ∷ [] };
  project_update_many = λ p f s. record s { projects = update_where p f s.projects };
  queue_add = λ t s. some (record s { tasks = s.tasks ++ t ∷ [] });
  dead_letter_update = λ p f s. record s { dead_letters = update_where p f s.dead_letters };
  job_update_many_lem = λ p f s. refl;
  job_delete_many_lem = λ p s. refl;
  job_create_lem = λ n s. refl;
  next_id_fresh = λ s. none_above (suc (top_id s.jobs)) s.jobs (omega arith);
  project_update_many_lem = λ p f s. refl;
  queue_add_lem = λ t s s' h. cc;
  dead_letter_update_lem = λ p f s. refl;
}

-- A job of project 1.
abbrev pub job_of : ℕ → JobType → JobStatus → Job
job_of id t st = record {
  id = id;
  project_id = 1;
  type = t;
  status = st;
  progress = 0;
  current_step = none;
  worker_id = none;
  error_message = none;
  input_data = none;
  output_data = none;
}

-- Project 1 of user 7, from lyrics.
abbrev pub lyrics_project : ProjectStatus → Project
lyrics_project st = record {
  id = 1;
  user_id = 7;
  title = [];
  status = st;
  source_mode = none;
  youtube_url = none;
  audio_url = none;
  lyrics = some (b'a' ∷ []);
  analysis_result = none;
}

abbrev pub tables_of : List Job → ProjectStatus → Tables
tables_of js st = record {
  jobs = js;
  projects = lyrics_project st ∷ [];
  tasks = [];
  dead_letters = [];
}

-- A pipeline of which a stage is active twice.
abbrev pub doubled : List Job
doubled =
    job_of 1 analyze_lyrics JobStatus.completed
    ∷ job_of 2 generate_images JobStatus.processing
    ∷ job_of 3 generate_images JobStatus.pending
    ∷ job_of 4 render_video JobStatus.pending
    ∷ []

abbrev pub all_done : List Job
all_done = job_of 1 analyze_lyrics JobStatus.completed ∷ job_of 2 finalize JobStatus.completed ∷ []

-- No variable is set.
abbrev pub bare_environment : Environment
bare_environment = record { variable = λ k. none; number = λ t. none }

-- A dispatch into the queues of the memory; the finalization is left alone.
unfoldable pub enqueue : Job → Tables → Outcome (Unit {0}) × Tables
unfolding dispatch
enqueue = dispatch memory bare_environment (b'n' ∷ []) (λ j s. (ok tt, s))

abbrev pub providers : ProviderEnv
providers = record {
  image_provider = none;
  llm_provider = none;
  comfyui_url = some (codes "http://comfy");
  replicate_api_token = none;
  gemini_api_key = some (codes "key");
}
