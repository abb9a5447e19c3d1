-- ===== src/Jobs/Coordinator.antt =====
-- modules/jobs/services/pipeline-dispatch-coordinator.service.ts: a finalization is completed on the
-- spot and the pipeline goes on; the recursion of the source takes fuel, and the error
-- `out_of_fuel` means that it ran out.
pub mod Fuel
pub mod Active
use music_video_generator.Prelude.{ℕ, zero, suc, true, Text, codes}
use music_video_generator.Json.{Json, obj, bool, end, field}
use music_video_generator.Schema.{Job}
use music_video_generator.Outcome.{Outcome, err, out_of_fuel, ◌>>=◌, return}
use music_video_generator.Backend.{Backend}
use music_video_generator.Env.{Environment}
use music_video_generator.Pipeline.Lifecycle.{advance_pipeline}
use music_video_generator.Jobs.State.{Stamp, mark_as_completed}
use music_video_generator.Jobs.Dispatch.{dispatch}

abbrev pub finalized : Json
finalized = obj (field (codes "finalized") (bool true) end)

module _ (b : Backend) (env : Environment) (fresh : Text) (stamp : Stamp) where
  -- The callback of `dispatch`, over the recursive call.
  unfoldable pub on_finalize :
      (Job → b.State → Outcome (Unit {0}) × b.State) → Job → b.State → Outcome (Unit {0}) × b.State
  unfolding mark_as_completed advance_pipeline
  on_finalize again j = do
    done ← mark_as_completed b stamp j.id finalized
    next ← advance_pipeline b again j.project_id
    return tt

  unfoldable pub coordinate : ℕ → Job → b.State → Outcome (Unit {0}) × b.State
  unfolding on_finalize dispatch
  coordinate zero j s = (err out_of_fuel, s)
  coordinate (suc fuel) j s = dispatch b env fresh (on_finalize (coordinate fuel)) j s
