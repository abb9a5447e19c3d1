-- ===== src/Pipeline/Quality.antt =====
-- modules/jobs/services/project-pipeline-quality.service.ts: the `_pipelineQuality` entry of a
-- project's analysis result. The time stamp and the stage's metrics (which the service computes
-- with floating point numbers) are given.
use music_video_generator.Prelude.{
  ℕ, true, Option, none, some, List, [], ◌++◌, Text, codes, take, lower,
}
use music_video_generator.Json.{
  Json, obj, arr, bool, str, Fields, end, get, put, remove, from_strings, plain_object,
}
use music_video_generator.Schema.{JobType, generate_images, render_video}
use music_video_generator.Outcome.{Outcome, ok}
use music_video_generator.Backend.{Backend}
use music_video_generator.Pipeline.Reasons.{to_string_array, unique, type_name}
use music_video_generator.Pipeline.Store.{find_project, project_update, set_analysis_result}

abbrev pub quality_key : Text
quality_key = codes "_pipelineQuality"

abbrev pub or_end : Option Fields → Fields
or_end none = end
or_end (some fs) = fs

-- `mergedReasons` and `mergedReasonCodes`.
unfoldable pub merge_reasons : Option Json → List Text → List Text
unfolding unique to_string_array
merge_reasons existing new = take 50 (unique (to_string_array existing ++ new))

unfoldable pub degraded_meta : Text → List Text → List Text → Fields → Fields
unfolding merge_reasons get put from_strings
degraded_meta now reasons reason_codes meta =
    let merged = merge_reasons (get (codes "degradedReasons") meta) reasons in
    let merged_codes = merge_reasons (get (codes "degradedReasonCodes") meta) reason_codes in
    put (codes "updatedAt") (str now) (
      put (codes "degradedReasonCodes") (arr (from_strings merged_codes)) (
        put (codes "degradedReasons") (arr (from_strings merged))
          (put (codes "degraded") (bool true) meta)))

abbrev stage_key : JobType → Text
unfolding type_name lower
stage_key generate_images = codes "generateImages"
stage_key render_video = codes "renderVideo"
stage_key t = lower (type_name t)

unfoldable pub stage_meta : Text → JobType → Json → Fields → Fields
unfolding get put stage_key
stage_meta now t metrics meta =
    let stages = or_end (plain_object (get (codes "stageMetrics") meta)) in
    put (codes "updatedAt") (str now)
      (put (codes "stageMetrics") (obj (put (stage_key t) metrics stages)) meta)

-- The analysis result with its `_pipelineQuality` replaced by `f` of it.
unfoldable pub with_quality : (Fields → Fields) → Option Json → Json
unfolding get put
with_quality f analysis =
    let a = or_end (plain_object analysis) in
    obj (put quality_key (obj (f (or_end (plain_object (get quality_key a))))) a)

module _ (b : Backend) where
  unfoldable pub append_degraded_meta :
      Text → ℕ → List Text → List Text → b.State → Outcome (Unit {0}) × b.State
  unfolding with_quality degraded_meta project_update
  append_degraded_meta now pid [] [] s = (ok tt, s)
  append_degraded_meta now pid reasons reason_codes s = elim (find_project b pid s) [
    | none ↦ (ok tt, s)
    | some p ↦
        project_update b pid
          (set_analysis_result
            (with_quality (degraded_meta now reasons reason_codes) p.analysis_result))
          s
  ]

  unfoldable pub append_stage_metrics :
      Text → ℕ → JobType → Option Json → b.State → Outcome (Unit {0}) × b.State
  unfolding with_quality stage_meta project_update
  append_stage_metrics now pid t none s = (ok tt, s)
  append_stage_metrics now pid t (some metrics) s = elim (find_project b pid s) [
    | none ↦ (ok tt, s)
    | some p ↦
        project_update b pid
          (set_analysis_result (with_quality (stage_meta now t metrics) p.analysis_result)) s
  ]

  -- The parts of `clearMeta` below the guards on the analysis result and on its entry.
  unfoldable pub clear_entry : ℕ → Fields → Option Json → b.State → Outcome (Unit {0}) × b.State
  unfolding remove project_update
  clear_entry pid fs none s = (ok tt, s)
  clear_entry pid fs (some q) s =
      project_update b pid (set_analysis_result (obj (remove quality_key fs))) s

  unfoldable pub clear_analysis : ℕ → Option Fields → b.State → Outcome (Unit {0}) × b.State
  unfolding clear_entry get
  clear_analysis pid none s = (ok tt, s)
  clear_analysis pid (some fs) s = clear_entry pid fs (get quality_key fs) s

  unfoldable pub clear_meta : ℕ → b.State → Outcome (Unit {0}) × b.State
  unfolding clear_analysis
  clear_meta pid s = elim (find_project b pid s) [
    | none ↦ (ok tt, s)
    | some p ↦ clear_analysis pid (plain_object p.analysis_result) s
  ]
