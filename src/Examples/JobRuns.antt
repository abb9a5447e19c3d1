-- ===== src/Examples/JobRuns.antt =====
-- A failure, a replay, a sweep of the watchdog and a progress report.
use music_video_generator.Prelude.{
  ◌≤◌, ◌<◌, true, false, none, some, [], ◌∷◌, ◌≡◌, ◌⊎◌, refl, any, every, length, All, codes,
}
use music_video_generator.Schema.{
  Job, JobStatus, ProjectStatus, generate_images, given, is_active, is_completed, is_pipeline_type,
  same_type,
}
use music_video_generator.Outcome.{ok}
use music_video_generator.Backend.{Tables, DeadLetter}
use music_video_generator.Pipeline.Store.{find_job, find_project, set_project_status}
use music_video_generator.Jobs.State.{fail_job, siblings, mark_as_failed}
use music_video_generator.Jobs.State.Failure.{mark_as_failed-fails}
use music_video_generator.Jobs.DeadLetter.{replayed, already_active, reset_job, replay_for_user}
use music_video_generator.Jobs.DeadLetter.Replay.{IsAllowed, replay_for_user-owned}
use music_video_generator.Jobs.Crud.{
  assert_project_ownership, UpdateJob, no_update, apply_update, find_one_for_user, update_for_user,
  remove_for_user,
}
use music_video_generator.Jobs.Coordinator.{coordinate}
use music_video_generator.Jobs.Coordinator.Fuel.{coordinate_fuel}
use music_video_generator.Jobs.State.{Stamp}
use music_video_generator.Outcome.{out_of_fuel, err}
use music_video_generator.Pipeline.Store.{job_update}
use music_video_generator.Schema.{finalize}
use music_video_generator.Prelude.{◌≢◌, arith}
use music_video_generator.Jobs.Watchdog.{
  Row, find_stale_processing_jobs, is_stale_job, unfinished, open_project,
  fail_stale_processing_job, run_stale_watchdog_cycle,
}
use music_video_generator.Jobs.Watchdog.Sweep.{
  fail_stale_processing_job-clears, run_stale_watchdog_cycle-ends,
}
use music_video_generator.Jobs.Progress.{calculate_overall_progress}
use music_video_generator.Jobs.Progress.Bounds.{calculate_overall_progress_bounds}
use music_video_generator.Examples.World.{
  memory, job_of, lyrics_project, tables_of, doubled, all_done, enqueue, bare_environment,
}

abbrev running : Tables
running = tables_of doubled ProjectStatus.processing

mark_as_failed_example :
    let after = mark_as_failed memory 2 (codes "no GPU") running in
    let j = job_of 2 generate_images JobStatus.processing in
    (after.0 ≡ ok (fail_job (given (codes "no GPU")) j))
    × (find_job memory 2 after.1 ≡ some (fail_job (given (codes "no GPU")) j))
    × (any (siblings j) after.1.jobs ≡ false)
    × (find_project memory 1 after.1
        ≡ some (set_project_status ProjectStatus.failed (lyrics_project ProjectStatus.processing)))
    × (after.1.tasks ≡ [])
unfolding is_pipeline_type same_type
mark_as_failed_example =
    mark_as_failed-fails memory 2 (codes "no GPU") running
      (job_of 2 generate_images JobStatus.processing) (lyrics_project ProjectStatus.processing) refl
      refl refl

abbrev letter : DeadLetter
letter = record { id = 5; project_id = some 1; job_id = some 2; replayed_job_id = none }

abbrev buried : Tables
buried = record (tables_of (job_of 2 generate_images JobStatus.failed ∷ []) ProjectStatus.failed) {
  dead_letters = letter ∷ [];
}

abbrev revived : Job
revived = reset_job (job_of 2 generate_images JobStatus.failed)

after_replay : Tables
unfolding replay_for_user
after_replay = (replay_for_user memory enqueue 5 7 buried).1

replay_run : replay_for_user memory enqueue 5 7 buried ≡ (ok (replayed 5 revived), after_replay)
unfolding after_replay replay_for_user assert_project_ownership enqueue
replay_run = refl

replay_example :
    (j : Job) × IsAllowed memory enqueue 5 7 buried j
    × (((is_active j.status ≡ true)
          × (replayed 5 revived ≡ already_active j.id j.status)
          × (after_replay ≡ buried))
        ⊎ ((is_active j.status ≡ false)
            × (replayed 5 revived ≡ replayed 5 (reset_job j))
            × ((s₁ : Tables) × (find_job memory j.id s₁ ≡ some (reset_job j))
                × ((enqueue (reset_job j) s₁).0 ≡ ok tt))))
replay_example =
    replay_for_user-owned memory enqueue 5 7 buried after_replay (replayed 5 revived) replay_run

-- Older than the default of 15 minutes at 10 000 000 ms.
abbrev stale : Row
stale = record { job = job_of 2 generate_images JobStatus.processing; updated_at = 0 }

stale_example :
    let after = (fail_stale_processing_job memory 10000000 stale running).1 in
    (any (unfinished 1) after.jobs ≡ false) × (any (open_project 1) after.projects ≡ false)
unfolding fail_stale_processing_job is_pipeline_type same_type
stale_example = fail_stale_processing_job-clears memory 10000000 stale running refl refl

sweep_example :
    All
      (λ (r : Row).
        any
          (is_stale_job r.job)
          (run_stale_watchdog_cycle memory bare_environment 10000000
            (stale ∷ [])
            (record { timer = none; running = false })
            running).1.jobs
        ≡ false)
      (find_stale_processing_jobs bare_environment 10000000 (stale ∷ []))
sweep_example =
    run_stale_watchdog_cycle-ends memory bare_environment 10000000 (stale ∷ [])
      (record { timer = none; running = false }) running refl

progress_example :
    (calculate_overall_progress all_done ≤ 100)
    × (0 < length all_done
        → every (λ j. is_completed j.status) all_done ≡ true
        → calculate_overall_progress all_done ≡ 100)
progress_example = calculate_overall_progress_bounds all_done

abbrev two_ends : Tables
two_ends =
    tables_of (job_of 2 finalize JobStatus.pending ∷ job_of 3 finalize JobStatus.pending ∷ [])
      ProjectStatus.processing

abbrev stamp : Stamp
stamp = record { now = codes "2026"; metrics = λ t j. none }

fuel_example :
    (coordinate memory bare_environment
      (codes "n")
      stamp
      3
      (job_of 2 finalize JobStatus.pending)
      two_ends).0
    ≢ err out_of_fuel
unfolding same_type
fuel_example =
    coordinate_fuel memory bare_environment (codes "n") stamp 3
      (job_of 2 finalize JobStatus.pending) two_ends (omega arith)

abbrev half_done : UpdateJob
half_done = record no_update { progress = some 50 }

abbrev half_row : Job
half_row = record (job_of 2 generate_images JobStatus.processing) { progress = 50 }

after_update : Tables
unfolding update_for_user
after_update = (update_for_user memory 2 7 half_done running).1

update_run : update_for_user memory 2 7 half_done running ≡ (ok half_row, after_update)
unfolding after_update update_for_user find_one_for_user job_update apply_update
update_run = refl

after_removal : Tables
unfolding remove_for_user
after_removal = (remove_for_user memory 2 7 running).1

removal_run :
    remove_for_user memory 2 7 running
    ≡ (ok (job_of 2 generate_images JobStatus.processing), after_removal)
unfolding after_removal remove_for_user find_one_for_user
removal_run = refl
