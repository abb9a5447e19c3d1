-- ===== src/Pipeline/Transition.antt =====
-- modules/jobs/services/pipeline-transition.service.ts: what to do next with a project's jobs.
pub mod Decisions
use music_video_generator.Prelude.{
  ℕ, Bool, true, false, Option, none, some, List, [], ◌∷◌, any, every, keep, find, if◌then◌else◌,
}
use music_video_generator.Schema.{Job, is_pending, is_processing, is_completed, is_pipeline_type}
use music_video_generator.Outcome.{Outcome, ok, err, no_jobs, no_pipeline_jobs}

pub data Decision : Type 0 where
  dispatch : Job → Decision
  wait complete : Decision

-- The part below the two guards, over the pipeline's jobs.
unfoldable pub decide : List Job → Decision
decide jobs = elim (find (λ j. is_pending j.status) jobs) [
  | some next ↦ dispatch next
  | none ↦
      if any (λ j. is_processing j.status) jobs
      then wait
      else if every (λ j. is_completed j.status) jobs
      then complete
      else wait
]

abbrev guarded : ℕ → List Job → Outcome Decision
guarded id [] = err (no_pipeline_jobs id)
guarded id (j ∷ jobs) = ok (decide (j ∷ jobs))

unfoldable pub resolve_advance_decision : ℕ → List Job → Outcome Decision
unfolding decide
resolve_advance_decision id [] = err (no_jobs id)
resolve_advance_decision id (j ∷ jobs) = guarded id (keep (λ k. is_pipeline_type k.type) (j ∷ jobs))
