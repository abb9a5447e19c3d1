-- ===== src/Jobs/Dispatch.antt =====
-- modules/jobs/services/job-dispatch.service.ts: a job goes to the queue of its stage with its
-- retry policy. The random part of a new correlation id is given.
use music_video_generator.Prelude.{
  ℕ, Option, none, some, Text, codes, trim, truthy, or_empty, ltb, if◌then◌else◌,
}
use music_video_generator.Json.{Json, Fields, end, get, as_string, payload}
use music_video_generator.Schema.{
  Job, JobType, analyze_lyrics, generate_images, render_video, finalize, youtube_download,
  transcription, train_lora,
}
use music_video_generator.Outcome.{Outcome, ok, err, queue_unavailable}
use music_video_generator.Backend.{Backend, QueueName, Task}
use music_video_generator.Env.{Environment, parse_positive_int_env}

pub record RetryConfig : Type 0 where
  pub attempts_env : Text
  pub attempts_default : ℕ
  pub delay_env : Text
  pub delay_default : ℕ

unfoldable pub retry_env_config : JobType → Option RetryConfig
retry_env_config youtube_download = some (record {
  attempts_env = codes "JOB_RETRY_ATTEMPTS_YOUTUBE_DOWNLOAD";
  attempts_default = 2;
  delay_env = codes "JOB_RETRY_DELAY_MS_YOUTUBE_DOWNLOAD";
  delay_default = 15000;
})
retry_env_config transcription = some (record {
  attempts_env = codes "JOB_RETRY_ATTEMPTS_TRANSCRIPTION";
  attempts_default = 2;
  delay_env = codes "JOB_RETRY_DELAY_MS_TRANSCRIPTION";
  delay_default = 20000;
})
retry_env_config analyze_lyrics = some (record {
  attempts_env = codes "JOB_RETRY_ATTEMPTS_ANALYZE_LYRICS";
  attempts_default = 3;
  delay_env = codes "JOB_RETRY_DELAY_MS_ANALYZE_LYRICS";
  delay_default = 10000;
})
retry_env_config generate_images = some (record {
  attempts_env = codes "JOB_RETRY_ATTEMPTS_GENERATE_IMAGES";
  attempts_default = 3;
  delay_env = codes "JOB_RETRY_DELAY_MS_GENERATE_IMAGES";
  delay_default = 15000;
})
retry_env_config render_video = some (record {
  attempts_env = codes "JOB_RETRY_ATTEMPTS_RENDER_VIDEO";
  attempts_default = 2;
  delay_env = codes "JOB_RETRY_DELAY_MS_RENDER_VIDEO";
  delay_default = 20000;
})
retry_env_config train_lora = some (record {
  attempts_env = codes "JOB_RETRY_ATTEMPTS_TRAIN_LORA";
  attempts_default = 2;
  delay_env = codes "JOB_RETRY_DELAY_MS_TRAIN_LORA";
  delay_default = 60000;
})
retry_env_config finalize = none

pub record RetryPolicy : Type 0 where
  pub attempts : ℕ
  pub delay_ms : ℕ

-- `policy` of `getQueueJobOptions`.
unfoldable pub retry_policy : Environment → Option RetryConfig → RetryPolicy
unfolding parse_positive_int_env
retry_policy env none = record { attempts = 1; delay_ms = 0 }
retry_policy env (some c) = record {
  attempts = parse_positive_int_env env c.attempts_env c.attempts_default;
  delay_ms = parse_positive_int_env env c.delay_env c.delay_default;
}

-- The queue of a stage; finalization has none.
unfoldable pub queue_of : JobType → Option QueueName
queue_of youtube_download = some QueueName.youtube_download
queue_of transcription = some QueueName.transcription
queue_of analyze_lyrics = some QueueName.analysis
queue_of generate_images = some QueueName.image_generation
queue_of render_video = some QueueName.video_render
queue_of train_lora = some QueueName.train_lora
queue_of finalize = none

abbrev input_fields : Option Json → Fields
input_fields none = end
input_fields (some v) = elim (payload v) [ none ↦ end | some fs ↦ fs ]

-- The correlation id of the input, trimmed, or else a new one.
abbrev correlation : Text → Option Text → Text
unfolding trim
correlation fresh given = let t = trim (or_empty given) in if truthy t then t else fresh

unfoldable pub task_of : Environment → Text → QueueName → Job → Task
unfolding retry_env_config retry_policy get correlation
task_of env fresh q j =
    let input = input_fields j.input_data in
    let policy = retry_policy env (retry_env_config j.type) in
    record {
      queue = q;
      job_id = j.id;
      project_id = j.project_id;
      style = as_string (get (codes "style") input);
      correlation_id = some (correlation fresh (as_string (get (codes "correlationId") input)));
      attempts = policy.attempts;
      backoff_ms = if ltb 1 policy.attempts then some policy.delay_ms else none;
    }

module _ (b : Backend) where
  abbrev pub add : Task → b.State → Outcome (Unit {0}) × b.State
  add t s = elim (b.queue_add t s) [ none ↦ (err queue_unavailable, s) | some s' ↦ (ok tt, s') ]

  unfoldable pub dispatch :
      Environment
      → Text
      → (Job → b.State → Outcome (Unit {0}) × b.State)
      → Job
      → b.State
      → Outcome (Unit {0}) × b.State
  unfolding queue_of task_of
  dispatch env fresh on_finalize j s = elim (queue_of j.type) [
    | none ↦ on_finalize j s
    | some q ↦ add (task_of env fresh q j) s
  ]
