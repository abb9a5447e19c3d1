-- ===== src/Pipeline/Source.antt =====
-- modules/jobs/services/pipeline-definition.service.ts and pipeline-preflight.service.ts: the
-- source of a project and the stages that follow from it; what must be configured to start.
pub mod Stages
use music_video_generator.Prelude.{
  Bool, true, false, not, ◌&&◌, ◌||◌, Option, none, some, List, [], ◌∷◌, Text, codes, trim, lower,
  text_eq, truthy, or_empty, or_default, if◌then◌else◌,
}
use music_video_generator.Schema.{
  JobType, analyze_lyrics, generate_images, render_video, finalize, youtube_download, transcription,
  SourceMode, Project,
}
use music_video_generator.Outcome.{
  Outcome, ok, err, missing_comfyui_url, missing_replicate_token, missing_gemini_key,
  no_source_input,
}

-- `(value || '').trim()` as a condition.
unfoldable pub present : Option Text → Bool
unfolding trim
present t = truthy (trim (or_empty t))

unfoldable pub resolve_project_source_mode : Project → SourceMode
resolve_project_source_mode p =
    if present p.youtube_url
    then SourceMode.youtube
    else if present p.audio_url && not (present p.lyrics)
    then SourceMode.audio
    else if present p.lyrics || present p.audio_url
    then SourceMode.lyrics
    else SourceMode.unknown

pub record PipelineDefinition : Type 0 where
  pub source : SourceMode
  pub order : List JobType

abbrev pub full_pipeline_order : List JobType
full_pipeline_order =
    youtube_download ∷ transcription ∷ analyze_lyrics ∷ generate_images ∷ render_video ∷ finalize
    ∷ []

-- The `if`s of `buildPipelineDefinition` on the source mode.
abbrev pub definition_of : SourceMode → PipelineDefinition
definition_of SourceMode.youtube = record {
  source = SourceMode.youtube;
  order = full_pipeline_order;
}
definition_of SourceMode.audio = record {
  source = SourceMode.audio;
  order = transcription ∷ analyze_lyrics ∷ generate_images ∷ render_video ∷ finalize ∷ [];
}
definition_of _ = record {
  source = SourceMode.lyrics;
  order = analyze_lyrics ∷ generate_images ∷ render_video ∷ finalize ∷ [];
}

unfoldable pub build_pipeline_definition : Project → PipelineDefinition
unfolding resolve_project_source_mode
build_pipeline_definition p = definition_of (resolve_project_source_mode p)

-- The environment variables that the preflight reads.
pub record ProviderEnv : Type 0 where
  pub image_provider : Option Text
  pub llm_provider : Option Text
  pub comfyui_url : Option Text
  pub replicate_api_token : Option Text
  pub gemini_api_key : Option Text

unfoldable pub ensure_provider_preflight : ProviderEnv → Outcome (Unit {0})
unfolding present trim lower text_eq
ensure_provider_preflight env =
    let image = lower (trim (or_default env.image_provider (codes "comfyui"))) in
    let llm = lower (trim (or_default env.llm_provider (codes "gemini"))) in
    if text_eq image (codes "comfyui") && not (present env.comfyui_url)
    then err missing_comfyui_url
    else if text_eq image (codes "replicate") && not (present env.replicate_api_token)
    then err missing_replicate_token
    else if text_eq llm (codes "gemini") && not (present env.gemini_api_key)
    then err missing_gemini_key
    else ok tt

unfoldable pub ensure_project_preflight : Project → Outcome (Unit {0})
ensure_project_preflight p =
    if not (present p.youtube_url) && not (present p.audio_url) && not (present p.lyrics)
    then err no_source_input
    else ok tt
