-- ===== src/Pipeline/Source/Stages.antt =====
-- The stages that a project gets, against its inputs; what a passed preflight has established.
use music_video_generator.Prelude.{ℕ, zero, suc, Bool, true, false, List, [], ◌∷◌, ◌≡◌, ◌≢◌, arith}
use music_video_generator.Schema.{JobType, SourceMode, Project}
use music_video_generator.Outcome.{ok}
use music_video_generator.Pipeline.Source.{
  present, resolve_project_source_mode, full_pipeline_order, build_pipeline_definition,
  ensure_project_preflight,
}

abbrev pub drop : ℕ → List JobType → List JobType
drop zero ts = ts
drop (suc n) [] = []
drop (suc n) (t ∷ ts) = drop n ts

-- How many of the first stages a project skips.
abbrev pub skipped_stages : Bool → Bool → Bool → ℕ
skipped_stages true audio lyrics = 0
skipped_stages false true false = 1
skipped_stages false _ _ = 2

-- A project's stages are the full order without the stages that its inputs make needless: the
-- download unless there is a YouTube URL, and the transcription unless there is a YouTube URL, or an
-- audio file and no lyrics.
pub build_pipeline_definition-order :
    (p : Project)
    → (build_pipeline_definition p).order
      ≡ drop
          (skipped_stages (present p.youtube_url) (present p.audio_url) (present p.lyrics))
          full_pipeline_order
unfolding build_pipeline_definition
build_pipeline_definition-order p = ground arith

-- Where the preflight of a project passes, its source mode is known, and the source of its pipeline
-- definition is that mode.
pub build_pipeline_definition-source :
    (p : Project)
    → ensure_project_preflight p ≡ ok tt
    → (resolve_project_source_mode p ≢ SourceMode.unknown)
      × ((build_pipeline_definition p).source ≡ resolve_project_source_mode p)
unfolding build_pipeline_definition ensure_project_preflight
build_pipeline_definition-source p h = ground arith
