-- ===== src/Schema.antt =====
-- The tables that the pipeline works on (prisma/schema.prisma). Identifiers (UUIDs) are numbers,
-- which the code only compares; progress is an integer of 0 or more.

use music_video_generator.Prelude.{
  ℕ, Bool, true, false, Option, List, [], ◌∷◌, Text, ◌==◌, ◌≡◌, ◌⊎◌, arith, any,
}
use music_video_generator.Json.{Json}

pub data JobType : Type 0 where
  analyze_lyrics generate_images render_video finalize youtube_download transcription : JobType
  train_lora : JobType

pub data JobStatus : Type 0 where
  pending processing completed failed cancelled : JobStatus

pub data ProjectStatus : Type 0 where
  draft processing completed failed cancelled : ProjectStatus

-- The texts that the code stores in `errorMessage` and `currentStep`, a template each.
pub data Message : Type 0 where
  given : Text → Message
  duplicate_stage : Message
  stale_timeout : ℕ → Message
  stale_step : Message
  stale_cancelled : Message
  replay_requested : Message

pub data SourceMode : Type 0 where
  youtube audio lyrics unknown : SourceMode

pub record Job : Type 0 where
  pub id : ℕ
  pub project_id : ℕ
  pub type : JobType
  pub status : JobStatus
  pub progress : ℕ
  pub current_step : Option Message
  pub worker_id : Option ℕ
  pub error_message : Option Message
  pub input_data : Option Json
  pub output_data : Option Json

pub record Project : Type 0 where
  pub id : ℕ
  pub user_id : ℕ
  pub title : Text
  pub status : ProjectStatus
  pub source_mode : Option SourceMode
  pub youtube_url : Option Text
  pub audio_url : Option Text
  pub lyrics : Option Text
  pub analysis_result : Option Json

abbrev pub rank : JobType → ℕ
rank analyze_lyrics = 0
rank generate_images = 1
rank render_video = 2
rank finalize = 3
rank youtube_download = 4
rank transcription = 5
rank train_lora = 6

-- `===` on job types.
unfoldable pub same_type : JobType → JobType → Bool
same_type a b = rank a == rank b

pub same_type-eq : (a b : JobType) → same_type a b ≡ true → a ≡ b
unfolding same_type
same_type-eq a b h = ground arith

abbrev pub is_pending : JobStatus → Bool
is_pending JobStatus.pending = true
is_pending _ = false

abbrev pub is_processing : JobStatus → Bool
is_processing JobStatus.processing = true
is_processing _ = false

abbrev pub is_completed : JobStatus → Bool
is_completed JobStatus.completed = true
is_completed _ = false

abbrev pub is_failed : JobStatus → Bool
is_failed JobStatus.failed = true
is_failed _ = false

-- `status: { in: [PENDING, PROCESSING] }`.
abbrev pub is_active : JobStatus → Bool
is_active JobStatus.pending = true
is_active JobStatus.processing = true
is_active _ = false

-- Membership in `PIPELINE_JOB_TYPES`: all types but `TRAIN_LORA`.
abbrev pub pipeline_job_types : List JobType
pipeline_job_types =
    youtube_download ∷ transcription ∷ analyze_lyrics ∷ generate_images ∷ render_video ∷ finalize
    ∷ []

unfoldable pub is_pipeline_type : JobType → Bool
unfolding same_type
is_pipeline_type t = any (same_type t) pipeline_job_types

pub is_pipeline_type_lem : (t : JobType) → (is_pipeline_type t ≡ true) ⊎ (t ≡ train_lora)
unfolding is_pipeline_type
is_pipeline_type_lem t = ground arith
