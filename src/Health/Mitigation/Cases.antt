-- ===== src/Health/Mitigation/Cases.antt =====
-- The branches of `evaluateAndMitigate`.
use music_video_generator.Prelude.{ℕ, true, false, ◌&&◌, ◌≡◌, Bool-cases, inl, inr}
use music_video_generator.Env.{Environment}
use music_video_generator.Health.Mitigation.{
  World, Calls, SloResult, activate, deactivate, counted, uncounted, is_critical, must_activate,
  can_transition, evaluate_and_mitigate, reason_of,
}

pub evaluate_cases :
    (env : Environment) (now : ℕ) (r : SloResult) (c : Calls) (w : World) (P : World → Type 0)
    → (is_critical env r ≡ true
        → must_activate env now (counted env w) ≡ true
        → P (activate env now (reason_of env r) c (counted env w)))
    → (is_critical env r ≡ true → must_activate env now (counted env w) ≡ false → P (counted env w))
    → (is_critical env r ≡ false
        → (w.state.active && can_transition env now w) ≡ true
        → P (deactivate env now c (uncounted env w)))
    → (is_critical env r ≡ false
        → (w.state.active && can_transition env now w) ≡ false
        → P (uncounted env w))
    → P (evaluate_and_mitigate env now r c w)
unfolding evaluate_and_mitigate
evaluate_cases env now r c w P on stay off rest = elim (Bool-cases (is_critical env r)) [
  | inl critical ↦ elim (Bool-cases (must_activate env now (counted env w))) [
    | inl must ↦ rw (evaluate_and_mitigate, critical, must) (on critical must)
    | inr wait ↦ rw (evaluate_and_mitigate, critical, wait) (stay critical wait)
  ]
  | inr met ↦ elim (Bool-cases (w.state.active && can_transition env now w)) [
    | inl end ↦ rw (evaluate_and_mitigate, met, end) (off met end)
    | inr wait ↦ rw (evaluate_and_mitigate, met, wait) (rest met wait)
  ]
]
