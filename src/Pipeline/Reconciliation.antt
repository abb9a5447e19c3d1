-- ===== src/Pipeline/Reconciliation.antt =====
-- modules/jobs/services/pipeline-start-reconciliation.service.ts: a start request meets the jobs
-- that the project already has.
pub mod Duplicates
pub mod Result
pub mod Restart
use music_video_generator.Prelude.{
  ℕ, Bool, true, false, not, ◌&&◌, ◌||◌, Option, none, some, List, [], ◌∷◌, ◌++◌, Text, codes, trim,
  lower, includes, truthy, ◌==◌, any, if◌then◌else◌,
}
use music_video_generator.Json.{Json, obj, str, bool, Fields, end, field}
use music_video_generator.Schema.{
  Job, JobType, JobStatus, Project, ProjectStatus, SourceMode, Message, duplicate_stage, same_type,
  is_active,
}
use music_video_generator.Outcome.{Outcome, ok, err, ◌>>=◌, ◌>>◌, and_then, return, when}
use music_video_generator.Backend.{Backend, NewJob, created_job}
use music_video_generator.Pipeline.Source.{PipelineDefinition}
use music_video_generator.Pipeline.Store.{
  in_pipeline, pipeline_jobs, project_update, set_project_status,
}

pub data RunType : Type 0 where
  smoke chaos : RunType

-- `isSynthetic` is false exactly where `runType` is null; both are kept, as in the source.
pub record SyntheticRunMetadata : Type 0 where
  pub is_synthetic : Bool
  pub run_type : Option RunType

abbrev organic : SyntheticRunMetadata
organic = record { is_synthetic = false; run_type = none }

unfoldable pub classify_synthetic_run : Text → SyntheticRunMetadata
unfolding trim lower includes
classify_synthetic_run title =
    let t = lower (trim title) in
    if not (truthy t)
    then organic
    else if includes t (codes "[synthetic:chaos]")
        || includes t (codes "external chaos")
        || includes t (codes "latency chaos")
    then record { is_synthetic = true; run_type = some chaos }
    else if includes t (codes "[synthetic:smoke]") || includes t (codes "smoke baseline")
    then record { is_synthetic = true; run_type = some smoke }
    else organic

pub data StartMode : Type 0 where
  created reused : StartMode

pub record StartResult : Type 0 where
  pub jobs : List Job
  pub mode : StartMode

-- The loop of `cancelDuplicateActiveStages`: the ids of the active jobs whose stage is seen already.
unfoldable pub duplicate_ids : List JobType → List Job → List ℕ
duplicate_ids seen [] = []
duplicate_ids seen (j ∷ jobs) =
    let skipped = duplicate_ids seen jobs in
    let fresh = duplicate_ids (j.type ∷ seen) jobs in
    if not (is_active j.status)
    then skipped
    else if any (same_type j.type) seen
    then j.id ∷ skipped
    else fresh

abbrev pub cancel_duplicate : Job → Job
cancel_duplicate j = record j { status = JobStatus.cancelled; error_message = some duplicate_stage }

abbrev pub in_ids : List ℕ → Job → Bool
in_ids ids j = any (λ i. i == j.id) ids && is_active j.status

abbrev pub source_name : SourceMode → Text
source_name SourceMode.youtube = codes "youtube"
source_name SourceMode.audio = codes "audio"
source_name SourceMode.lyrics = codes "lyrics"
source_name SourceMode.unknown = codes "unknown"

abbrev run_field : Option RunType → Fields
run_field none = end
run_field (some smoke) = field (codes "syntheticRunType") (str (codes "smoke")) end
run_field (some chaos) = field (codes "syntheticRunType") (str (codes "chaos")) end

-- The `inputData` of a fresh job. The correlation id holds a random part, so it is given.
unfoldable pub fresh_input : Text → SourceMode → SyntheticRunMetadata → Json
fresh_input cid source run = obj (
    field (codes "correlationId") (str cid) (
      field (codes "sourceMode") (str (source_name source))
        (field (codes "isSynthetic") (bool run.is_synthetic) (run_field run.run_type))))

abbrev is_running : ProjectStatus → Bool
is_running ProjectStatus.processing = true
is_running _ = false

module _ (b : Backend) where
  unfoldable pub cancel_duplicate_active_stages :
      ℕ → List Job → b.State → Outcome (List Job) × b.State
  unfolding duplicate_ids
  cancel_duplicate_active_stages pid existing s = elim (duplicate_ids [] existing) [
    | [] ↦ (ok existing, s)
    | i ∷ ids ↦
        let s' = b.job_update_many (in_ids (i ∷ ids)) cancel_duplicate s in
        (ok (pipeline_jobs b pid s'), s')
  ]

  -- The loop of `createFreshPipeline`: the rows made, in order.
  unfoldable pub create_jobs : ℕ → Json → List JobType → b.State → List Job × b.State
  create_jobs pid input [] s = ([], s)
  create_jobs pid input (t ∷ ts) s =
      let n : NewJob = record { project_id = pid; type = t; input_data = some input } in
      let (rest, s') = create_jobs pid input ts (b.job_create n s) in
      (created_job (b.next_id s) n ∷ rest, s')

  abbrev lift_pair : {A : Type 0} → A × b.State → Outcome A × b.State
  lift_pair (a, s) = (ok a, s)

  unfoldable pub create_fresh_pipeline :
      Text → Project → PipelineDefinition → b.State → Outcome (List Job) × b.State
  unfolding create_jobs project_update classify_synthetic_run fresh_input
  create_fresh_pipeline cid p d s =
      let run = classify_synthetic_run p.title in
      and_then (λ _ s'. lift_pair (create_jobs p.id (fresh_input cid d.source run) d.order s'))
        (project_update b p.id (set_project_status ProjectStatus.processing)
          (b.job_delete_many (in_pipeline p.id) s))

  unfoldable pub reconcile :
      Text → Project → PipelineDefinition → b.State → Outcome StartResult × b.State
  unfolding cancel_duplicate_active_stages create_fresh_pipeline project_update
  reconcile cid p d s =
      and_then
        (λ canonical s'.
          if any (λ j. is_active j.status) canonical
          then (do
            when (not (is_running p.status))
                (project_update b p.id (set_project_status ProjectStatus.processing))
            return (record { jobs = canonical; mode = reused }))
              s'
          else (do
            jobs ← create_fresh_pipeline cid p d
            return (record { jobs = jobs; mode = created }))
              s')
        (cancel_duplicate_active_stages p.id (pipeline_jobs b p.id s) s)
