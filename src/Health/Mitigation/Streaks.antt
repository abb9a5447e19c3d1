-- ===== src/Health/Mitigation/Streaks.antt =====
-- When the mitigation starts.
use music_video_generator.Prelude.{
  ℕ, suc, ◌-◌, ◌≤◌, Bool, true, false, not, List, [], ◌∷◌, ◌≡◌, refl, sym, ◌∙◌, arith, keep,
  Bool-cases, inl, inr, if◌then◌else◌,
}
use music_video_generator.Env.{Environment}
use music_video_generator.Health.Mitigation.{
  World, Timer, Calls, SloResult, Event, evaluated, elapsed, initial, activate, deactivate, counted,
  is_critical, must_activate, can_transition, evaluate_and_mitigate, fire, guards, is_due, elapse,
  step, after, cooldown_ms, required_consecutive_checks,
}
use music_video_generator.Health.Mitigation.Cases.{evaluate_cases}

module _ (env : Environment) where
  -- The number of critical evaluations since the last one that was not.
  unfoldable pub critical_streak : List Event → ℕ
  unfolding is_critical
  critical_streak [] = 0
  critical_streak (evaluated now r c ∷ es) =
      let rest = critical_streak es in if is_critical env r then suc rest else 0
  critical_streak (elapsed now c ∷ es) = critical_streak es

  fire-checks :
      (now : ℕ) (c : Calls) (ts : List Timer) (w : World)
      → (fire env now c ts w).consecutive_critical_checks ≤ w.consecutive_critical_checks
  unfolding fire deactivate
  fire-checks now c [] w = omega arith
  fire-checks now c (t ∷ ts) w = elim (Bool-cases (guards env w t)) [
    | inl meant ↦ rw (fire, meant) (omega (arith, fire-checks now c ts (deactivate env now c w)))
    | inr other ↦ rw (fire, other) (fire-checks now c ts w)
  ]

  evaluate-checks :
      (now : ℕ) (r : SloResult) (c : Calls) (w : World) (n : ℕ)
      → w.consecutive_critical_checks ≤ n
      → (evaluate_and_mitigate env now r c w).consecutive_critical_checks
        ≤ (if is_critical env r then suc n else 0)
  unfolding activate deactivate is_critical
  evaluate-checks now r c w n h =
      evaluate_cases env now r c w
        (λ v. v.consecutive_critical_checks ≤ (if is_critical env r then suc n else 0))
        (λ critical _. rw (critical) (omega (arith, h)))
        (λ critical _. rw (critical) (omega (arith, h))) (λ met _. rw (met) (omega arith))
        (λ met _. rw (met) (omega arith))

  after-checks :
      (w : World) (es : List Event)
      → w.consecutive_critical_checks ≤ 0
      → (after env w es).consecutive_critical_checks ≤ critical_streak es
  unfolding after step evaluate_and_mitigate elapse critical_streak
  after-checks w [] h = h
  after-checks w (evaluated now r c ∷ es) h =
      evaluate-checks now r c (after env w es) (critical_streak es) (after-checks w es h)
  after-checks w (elapsed now c ∷ es) h =
      omega
        (arith, after-checks w es h, fire-checks now c _ (record (after env w es) { timers = _ }))

  abbrev pub time_of : Event → ℕ
  time_of (evaluated now r c) = now
  time_of (elapsed now c) = now

  must_activate_when :
      (now n : ℕ) (w : World)
      → must_activate env now (counted env w) ≡ true
      → w.consecutive_critical_checks ≤ n
      → (required_consecutive_checks env ≤ suc n)
        × (cooldown_ms env ≤ now - w.last_transition_at_ms)
  unfolding must_activate can_transition
  must_activate_when now n w h k = ground arith

  evaluate_starts :
      (now : ℕ) (r : SloResult) (c : Calls) (w : World) (n : ℕ)
      → w.consecutive_critical_checks ≤ n
      → w.state.active ≡ false
      → (evaluate_and_mitigate env now r c w).state.active ≡ true
      → (required_consecutive_checks env ≤ (if is_critical env r then suc n else 0))
        × (cooldown_ms env ≤ now - w.last_transition_at_ms)
  unfolding activate deactivate is_critical
  evaluate_starts now r c w n k idle =
      evaluate_cases env now r c w
        (λ v.
          v.state.active ≡ true
          → (required_consecutive_checks env ≤ (if is_critical env r then suc n else 0))
            × (cooldown_ms env ≤ now - w.last_transition_at_ms))
        (λ critical must _. rw (critical) (must_activate_when now n w must k))
        (λ critical _ h. absurd (let dead : false ≡ true = sym idle ∙ h in cc))
        (λ met _ h. absurd (let dead : false ≡ true = h in cc))
        (λ met _ h. absurd (let dead : false ≡ true = sym idle ∙ h in cc))

  fire_idle :
      (now : ℕ) (c : Calls) (ts : List Timer) (w : World)
      → w.state.active ≡ false
      → (fire env now c ts w).state.active ≡ false
  unfolding fire deactivate
  fire_idle now c [] w h = h
  fire_idle now c (t ∷ ts) w h = elim (Bool-cases (guards env w t)) [
    | inl meant ↦ rw (fire, meant) (fire_idle now c ts (deactivate env now c w) refl)
    | inr other ↦ rw (fire, other) (fire_idle now c ts w h)
  ]

  elapse_idle :
      (now : ℕ) (c : Calls) (w : World)
      → w.state.active ≡ false
      → (elapse env now c w).state.active ≡ false
  unfolding elapse
  elapse_idle now c w h =
      fire_idle now c (keep (is_due env now) w.timers)
        (record w { timers = keep (λ t. not (is_due env now t)) w.timers }) h

-- The mitigation becomes active only by an event after which the last
-- `SLO_MITIGATION_CONSECUTIVE_CHECKS` evaluations, at least, were critical, and no sooner than the
-- cooldown after the last transition.
pub mitigation_starts :
    (env : Environment) (has_redis : Bool) (e : Event) (es : List Event)
    → (after env (initial has_redis) es).state.active ≡ false
    → (after env (initial has_redis) (e ∷ es)).state.active ≡ true
    → (required_consecutive_checks env ≤ critical_streak env (e ∷ es))
      × (cooldown_ms env ≤ time_of env e - (after env (initial has_redis) es).last_transition_at_ms)
unfolding after step evaluate_and_mitigate elapse critical_streak
mitigation_starts env has_redis (evaluated now r c) es idle h =
    evaluate_starts env now r c (after env (initial has_redis) es) (critical_streak env es)
      (after-checks env (initial has_redis) es (omega arith)) idle h
mitigation_starts env has_redis (elapsed now c) es idle h = absurd (
    let dead : false ≡ true =
      sym (elapse_idle env now c (after env (initial has_redis) es) idle) ∙ h in
    cc)
