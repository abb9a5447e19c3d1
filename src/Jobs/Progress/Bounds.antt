-- ===== src/Jobs/Progress/Bounds.antt =====
-- The overall progress as a percentage.
use music_video_generator.Prelude.{
  ℕ, ◌*◌, ◌≤◌, ◌<◌, true, List, [], ◌∷◌, ◌≡◌, refl, arith, every, length,
}
use music_video_generator.Schema.{Job, JobStatus, is_completed}
use music_video_generator.Jobs.Progress.{
  job_share, progress_sum, round_quotient, calculate_overall_progress,
}

job_share-le : (st : JobStatus) (p : ℕ) → job_share st p ≤ 100
unfolding job_share
job_share-le JobStatus.processing p = omega arith
job_share-le _ p = omega arith

progress_sum-le : (js : List Job) → progress_sum js ≤ 100 * length js
unfolding progress_sum
progress_sum-le [] = omega arith
progress_sum-le (j ∷ js) = omega (arith, job_share-le j.status j.progress, progress_sum-le js)

progress_sum-completed :
    (js : List Job)
    → every (λ j. is_completed j.status) js ≡ true
    → progress_sum js ≡ 100 * length js
unfolding progress_sum job_share
progress_sum-completed [] h = refl
progress_sum-completed (j ∷ js) h = ground (arith, progress_sum-completed js)

round_quotient-le : (a n : ℕ) → 0 < n → a ≤ 100 * n → round_quotient a n ≤ 100
unfolding round_quotient
round_quotient-le a n h k = grind arith

round_quotient-full : (n : ℕ) → 0 < n → round_quotient (100 * n) n ≡ 100
unfolding round_quotient
round_quotient-full n h = grind arith

-- The overall progress is a percentage of at most 100, and 100 for a nonempty list of jobs that are
-- all completed.
pub calculate_overall_progress_bounds :
    (js : List Job)
    → (calculate_overall_progress js ≤ 100)
      × (0 < length js
          → every (λ j. is_completed j.status) js ≡ true
          → calculate_overall_progress js ≡ 100)
unfolding calculate_overall_progress
calculate_overall_progress_bounds [] = (omega arith, λ h e. absurd (omega arith))
calculate_overall_progress_bounds (j ∷ js) = (
  round_quotient-le (progress_sum (j ∷ js)) (length (j ∷ js)) (omega arith)
      (progress_sum-le (j ∷ js)),
  λ h e.
      rw (progress_sum-completed (j ∷ js) e) (round_quotient-full (length (j ∷ js)) (omega arith)),
)
