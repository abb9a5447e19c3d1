-- ===== src/Resilience/Permits.antt =====
-- modules/jobs/services/job-concurrency.service.ts: pools of permits for the stages. A caller that
-- waits in `acquire` goes on in a later turn of the event loop than the `release` that wakes it.
pub mod Turns
use music_video_generator.Prelude.{
  ℕ, ◌+◌, ◌-◌, Bool, true, false, List, [], ◌∷◌, ◌++◌, Text, codes, ltb, ◌==◌, if◌then◌else◌,
}
use music_video_generator.Schema.{
  JobType, analyze_lyrics, generate_images, render_video, finalize, youtube_download, transcription,
  train_lora,
}
use music_video_generator.Env.{Environment, parse_positive_int_env}

-- `PermitPool`; a waiter is known by a number, and `woken` are the resolved promises whose callers
-- have not gone on yet.
pub record PermitPool : Type 0 where
  pub limit : ℕ
  pub in_use : ℕ
  pub waiters : List ℕ
  pub woken : List ℕ

unfoldable pub new_pool : ℕ → PermitPool
new_pool limit = record { limit = limit; in_use = 0; waiters = []; woken = [] }

-- A call of `acquire`, up to its return or its `await`.
unfoldable pub acquire : ℕ → PermitPool → PermitPool
acquire task p =
    if ltb p.in_use p.limit
    then record p { in_use = p.in_use + 1 }
    else record p { waiters = p.waiters ++ task ∷ [] }

abbrev wake : List ℕ → PermitPool → PermitPool
wake [] p = p
wake (w ∷ ws) p = record p { waiters = ws; woken = p.woken ++ w ∷ [] }

-- `release`: `-` stops at 0, as its guard does.
unfoldable pub release : PermitPool → PermitPool
release p = wake p.waiters (record p { in_use = p.in_use - 1 })

abbrev go_on : List ℕ → PermitPool → PermitPool
go_on [] p = p
go_on (w ∷ ws) p = record p { woken = ws; in_use = p.in_use + 1 }

-- The rest of `acquire` behind its `await`, for the first caller that was woken.
unfoldable pub resume : PermitPool → PermitPool
resume p = go_on p.woken p

-- `HEAVY_JOB_TYPES`.
unfoldable pub is_heavy : JobType → Bool
is_heavy generate_images = true
is_heavy render_video = true
is_heavy train_lora = true
is_heavy _ = false

unfoldable pub job_type_limit_default : JobType → ℕ
job_type_limit_default youtube_download = 4
job_type_limit_default transcription = 2
job_type_limit_default analyze_lyrics = 4
job_type_limit_default generate_images = 1
job_type_limit_default render_video = 1
job_type_limit_default train_lora = 1
job_type_limit_default finalize = 2

unfoldable pub job_type_limit_env : JobType → Text
job_type_limit_env youtube_download = codes "JOB_CONCURRENCY_YOUTUBE_DOWNLOAD"
job_type_limit_env transcription = codes "JOB_CONCURRENCY_TRANSCRIPTION"
job_type_limit_env analyze_lyrics = codes "JOB_CONCURRENCY_ANALYZE_LYRICS"
job_type_limit_env generate_images = codes "JOB_CONCURRENCY_GENERATE_IMAGES"
job_type_limit_env render_video = codes "JOB_CONCURRENCY_RENDER_VIDEO"
job_type_limit_env train_lora = codes "JOB_CONCURRENCY_TRAIN_LORA"
job_type_limit_env finalize = codes "JOB_CONCURRENCY_FINALIZE"

-- The pools that the constructor makes.
unfoldable pub pool_of : Environment → JobType → PermitPool
unfolding new_pool parse_positive_int_env job_type_limit_env job_type_limit_default
pool_of env t =
    new_pool (parse_positive_int_env env (job_type_limit_env t) (job_type_limit_default t))
