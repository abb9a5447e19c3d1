-- ===== src/Health/Classification.antt =====
-- modules/health/services/health-pipeline-classification.service.ts: the source mode and the
-- synthetic mark of jobs, for the metrics.
pub mod Inputs
use music_video_generator.Prelude.{
  ℕ, Bool, true, false, not, ◌&&◌, ◌||◌, Option, none, some, List, [], ◌∷◌, Text, codes, trim,
  lower, text_eq, truthy, or_empty, includes, one_of, ◌==◌, if◌then◌else◌,
}
use music_video_generator.Json.{Json, str, num, bool, Fields, get, as_string, plain_object}
use music_video_generator.Schema.{
  JobType, analyze_lyrics, generate_images, render_video, finalize, youtube_download, transcription,
  train_lora, SourceMode,
}
use music_video_generator.Outcome.{Outcome, ok, err, invalid_source_mode}

-- `ProjectLike`.
pub record ProjectLike : Type 0 where
  pub source_mode : Option Text
  pub youtube_url : Option Text
  pub audio_url : Option Text
  pub lyrics : Option Text
  pub title : Option Text

-- On the types of the schema the fallback 999 is not reached.
abbrev pub get_stage_order : JobType → ℕ
get_stage_order youtube_download = 1
get_stage_order transcription = 2
get_stage_order analyze_lyrics = 3
get_stage_order generate_images = 4
get_stage_order render_video = 5
get_stage_order finalize = 6
get_stage_order train_lora = 99

abbrev pub mode_named : Text → SourceMode
unfolding text_eq
mode_named t =
    if text_eq t (codes "youtube")
    then SourceMode.youtube
    else if text_eq t (codes "audio")
    then SourceMode.audio
    else if text_eq t (codes "lyrics")
    then SourceMode.lyrics
    else SourceMode.unknown

unfoldable pub normalize_source_mode : Option Text → SourceMode
unfolding trim lower mode_named
normalize_source_mode none = SourceMode.unknown
normalize_source_mode (some value) = mode_named (lower (trim value))

-- The first mode that is known.
abbrev pub known_or : SourceMode → SourceMode → SourceMode
known_or SourceMode.unknown m = m
known_or known m = known

unfoldable pub mode_of_inputs : ProjectLike → SourceMode
unfolding trim
mode_of_inputs p =
    let youtube_url = trim (or_empty p.youtube_url) in
    let audio_url = trim (or_empty p.audio_url) in
    let lyrics = trim (or_empty p.lyrics) in
    if truthy youtube_url
    then SourceMode.youtube
    else if truthy audio_url && not (truthy lyrics)
    then SourceMode.audio
    else if truthy lyrics || truthy audio_url
    then SourceMode.lyrics
    else SourceMode.unknown

unfoldable pub infer_source_mode_from_project : Option ProjectLike → SourceMode
unfolding normalize_source_mode mode_of_inputs
infer_source_mode_from_project none = SourceMode.unknown
infer_source_mode_from_project (some p) =
    known_or (normalize_source_mode p.source_mode) (mode_of_inputs p)

abbrev persisted : Option ProjectLike → Option Text
persisted none = none
persisted (some p) = p.source_mode

abbrev payload_text : Text → Option Fields → Option Text
unfolding get
payload_text k none = none
payload_text k (some fs) = as_string (get k fs)

unfoldable pub resolve_source_mode : Option Json → Option ProjectLike → SourceMode
unfolding normalize_source_mode infer_source_mode_from_project payload_text
resolve_source_mode input project = known_or (normalize_source_mode (persisted project)) (
    known_or (normalize_source_mode (payload_text (codes "sourceMode") (plain_object input)))
      (infer_source_mode_from_project project))

unfoldable pub parse_source_mode_filter : Option Text → Outcome (Option SourceMode)
unfolding trim lower text_eq mode_named
parse_source_mode_filter none = ok none
parse_source_mode_filter (some t) =
    let normalized = lower (trim t) in
    if not (truthy (trim t))
    then ok none
    else if text_eq normalized (codes "unknown")
    then ok (some SourceMode.unknown)
    else elim (mode_named normalized) [
      | SourceMode.unknown ↦ err invalid_source_mode
      | mode ↦ ok (some mode)
    ]

-- The values of `isSynthetic` that mark a job.
abbrev pub marks : Option Json → Bool
unfolding trim lower one_of
marks (some (bool b)) = b
marks (some (num n)) = n == 1
marks (some (str t)) =
    one_of (lower (trim t)) (codes "true" ∷ codes "1" ∷ codes "yes" ∷ codes "synthetic" ∷ [])
marks _ = false

unfoldable pub is_synthetic_input_data : Option Json → Bool
unfolding get marks trim lower one_of
is_synthetic_input_data input = elim (plain_object input) [
  | none ↦ false
  | some fs ↦
      marks (get (codes "isSynthetic") fs)
      || one_of (lower (trim (or_empty (as_string (get (codes "syntheticRunType") fs)))))
          (codes "smoke" ∷ codes "chaos" ∷ codes "synthetic" ∷ [])
]

unfoldable pub is_synthetic_project_title : Option Text → Bool
unfolding trim lower includes
is_synthetic_project_title title =
    let t = lower (trim (or_empty title)) in
    if not (truthy t)
    then false
    else includes t (codes "[synthetic:")
      || includes t (codes "smoke baseline")
      || includes t (codes "external chaos")
      || includes t (codes "latency chaos")

abbrev title_of : Option ProjectLike → Option Text
title_of none = none
title_of (some p) = p.title

unfoldable pub is_synthetic_job : Option Json → Option ProjectLike → Bool
unfolding is_synthetic_input_data is_synthetic_project_title
is_synthetic_job input project =
    is_synthetic_input_data input || is_synthetic_project_title (title_of project)
