-- ===== src/Pipeline/Reasons.antt =====
-- modules/jobs/pipeline-quality.utils.ts: degraded outputs, their reasons, and the status that a
-- project is shown with.
use music_video_generator.Prelude.{
  ℕ, Bool, true, false, ◌||◌, Option, none, some, List, [], ◌∷◌, ◌++◌, map, Text, codes, trim,
  lower, text_eq, one_of, truthy, or_empty, between, ◌==◌, keep, take, if◌then◌else◌,
}
use mathlib.Core.List.{reverse}
use music_video_generator.Json.{Json, arr, Fields, strings, get, as_string, as_bool, payload}
use music_video_generator.Schema.{
  Job, JobType, analyze_lyrics, generate_images, render_video, finalize, youtube_download,
  transcription, train_lora, ProjectStatus, is_failed, is_pipeline_type,
}

pub data ProjectPipelineStatus : Type 0 where
  draft processing success degraded failed cancelled : ProjectPipelineStatus

pub record PipelineQualitySummary : Type 0 where
  pub degraded : Bool
  pub degraded_reasons : List Text
  pub degraded_reason_codes : List Text
  pub has_failed_job : Bool

-- The value of the enum, as it is printed into a text.
unfoldable pub type_name : JobType → Text
type_name analyze_lyrics = codes "ANALYZE_LYRICS"
type_name generate_images = codes "GENERATE_IMAGES"
type_name render_video = codes "RENDER_VIDEO"
type_name finalize = codes "FINALIZE"
type_name youtube_download = codes "YOUTUBE_DOWNLOAD"
type_name transcription = codes "TRANSCRIPTION"
type_name train_lora = codes "TRAIN_LORA"

-- An item that is no string becomes the empty text there, which the filter drops.
unfoldable pub to_string_array : Option Json → List Text
unfolding strings trim
to_string_array (some (arr xs)) = keep truthy (map trim (strings xs))
to_string_array _ = []

abbrev is_alnum : ℕ → Bool
is_alnum c = between b'a' b'z' c || between b'0' b'9' c

-- `.replace(/[^a-z0-9]+/g, '_')`; the flag tells that the last character was replaced.
unfoldable pub squash : Bool → Text → Text
squash run [] = []
squash run (c ∷ t) =
    let kept = squash false t in
    let replaced = squash true t in
    if is_alnum c then c ∷ kept else if run then replaced else b'_' ∷ replaced

unfoldable pub strip_start : Text → Text
strip_start [] = []
strip_start (c ∷ t) = let rest = strip_start t in if c == b'_' then rest else c ∷ t

abbrev or_unspecified : Text → Text
or_unspecified [] = codes "unspecified"
or_unspecified (c ∷ t) = c ∷ t

unfoldable pub normalize_reason_token : Text → Text
unfolding trim lower squash strip_start
normalize_reason_token value =
    or_unspecified
      (reverse (strip_start (reverse (strip_start (squash false (lower (trim value)))))))

-- `typeof value === 'string' && value.trim()`, falling through to the rest where it is falsy.
abbrev pub or_message : Option Json → Text → Text
unfolding trim
or_message v rest = let t = trim (or_empty (as_string v)) in if truthy t then t else rest

unfoldable pub extract_first_degraded_message : Fields → Text
unfolding or_message get
extract_first_degraded_message fs = or_message (get (codes "message") fs) (
    or_message (get (codes "warning") fs) (
      or_message (get (codes "error") fs)
        (or_message (get (codes "details") fs) (codes "fallback output"))))

abbrev is_true : Option Bool → Bool
is_true (some b) = b
is_true none = false

-- `payload.degraded === true || normalizedStatus === 'degraded'`.
unfoldable pub degraded_flag : Fields → Bool
unfolding get trim lower text_eq
degraded_flag fs =
    is_true (as_bool (get (codes "degraded") fs))
    || text_eq (lower (trim (or_empty (as_string (get (codes "status") fs))))) (codes "degraded")

-- The part that both extractions share: the reasons given, or else the first message.
abbrev reasons_or_message : List Text → Text → List Text
reasons_or_message [] message = message ∷ []
reasons_or_message (r ∷ rs) message = r ∷ rs

abbrev reasons_of : Fields → List Text
unfolding to_string_array extract_first_degraded_message get
reasons_of fs =
    reasons_or_message (to_string_array (get (codes "degradedReasons") fs))
      (extract_first_degraded_message fs)

unfoldable pub extract_degraded_reason_codes : Option Json → JobType → List Text
unfolding degraded_flag reasons_of normalize_reason_token type_name
extract_degraded_reason_codes none t = []
extract_degraded_reason_codes (some v) t = elim (payload v) [
  | none ↦ []
  | some fs ↦
      if degraded_flag fs
      then map (λ r. lower (type_name t) ++ codes "." ++ normalize_reason_token r) (reasons_of fs)
      else []
]

unfoldable pub extract_degraded_reasons : Option Json → JobType → List Text
unfolding degraded_flag reasons_of type_name
extract_degraded_reasons none t = []
extract_degraded_reasons (some v) t = elim (payload v) [
  | none ↦ []
  | some fs ↦
      if degraded_flag fs then map (λ r. type_name t ++ codes ": " ++ r) (reasons_of fs) else []
]

-- `Array.from(new Set(items))`: the first occurrences, in order.
unfoldable pub unique_from : List Text → List Text → List Text
unfolding one_of
unique_from seen [] = []
unique_from seen (t ∷ ts) =
    let skip = unique_from seen ts in
    let fresh = unique_from (t ∷ seen) ts in if one_of t seen then skip else t ∷ fresh

unfoldable pub unique : List Text → List Text
unfolding unique_from
unique = unique_from []

-- The body of the `reduce` in `summarizePipelineQuality`.
unfoldable pub summarize_job : PipelineQualitySummary → Job → PipelineQualitySummary
summarize_job acc j =
    if is_pipeline_type j.type
    then (let reasons = extract_degraded_reasons j.output_data j.type in
        let acc' = record acc { has_failed_job = is_failed j.status || acc.has_failed_job } in
        elim reasons [
          | [] ↦ acc'
          | r ∷ rs ↦ record acc' {
            degraded = true;
            degraded_reasons = acc.degraded_reasons ++ r ∷ rs;
            degraded_reason_codes =
                acc.degraded_reason_codes ++ extract_degraded_reason_codes j.output_data j.type;
          }
        ])
    else acc

unfoldable pub summarize_from : PipelineQualitySummary → List Job → PipelineQualitySummary
unfolding summarize_job
summarize_from acc [] = acc
summarize_from acc (j ∷ js) = summarize_from (summarize_job acc j) js

abbrev pub empty_summary : PipelineQualitySummary
empty_summary = record {
  degraded = false;
  degraded_reasons = [];
  degraded_reason_codes = [];
  has_failed_job = false;
}

unfoldable pub summarize_pipeline_quality : List Job → PipelineQualitySummary
unfolding summarize_from unique
summarize_pipeline_quality jobs =
    let s = summarize_from empty_summary jobs in
    record s {
      degraded_reasons = take 50 (unique s.degraded_reasons);
      degraded_reason_codes = take 50 (unique s.degraded_reason_codes);
    }

abbrev status_name : Bool → ProjectStatus → ProjectPipelineStatus
status_name d ProjectStatus.draft = draft
status_name d ProjectStatus.processing = processing
status_name d ProjectStatus.cancelled = cancelled
status_name d ProjectStatus.completed = if d then degraded else success
status_name d ProjectStatus.failed = failed

abbrev project_failed : ProjectStatus → Bool
project_failed ProjectStatus.failed = true
project_failed _ = false

unfoldable pub derive_project_pipeline_status :
    ProjectStatus → PipelineQualitySummary → ProjectPipelineStatus
derive_project_pipeline_status st q =
    if q.has_failed_job || project_failed st then failed else status_name q.degraded st
