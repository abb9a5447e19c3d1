-- ===== src/Health/Mitigation/Resume.antt =====
-- The timer of an activation.
use music_video_generator.Prelude.{
  ℕ, ◌+◌, ◌≤◌, Bool, true, false, not, ◌&&◌, ◌||◌, Option, none, some, List, [], ◌∷◌, ◌++◌, ◌≡◌,
  ◌⊎◌, refl, sym, ap, ◌∙◌, arith, ◌==◌, ==_refl, any, keep, Bool-cases, inl, inr,
}
use music_video_generator.Health.Mitigation.Cases.{evaluate_cases}
use music_video_generator.Env.{Environment}
use music_video_generator.Health.Mitigation.{
  Reason, World, Timer, Calls, SloResult, Event, evaluated, elapsed, initial, activate, deactivate,
  counted, evaluate_and_mitigate, is_at, guards, fire, is_due, elapse, step, after, auto_resume_ms,
  reason_of,
}

any-append_last :
    (p : Timer → Bool) (ts : List Timer) (t : Timer) → p t ≡ true → any p (ts ++ t ∷ []) ≡ true
any-append_last p [] t h = ground arith
any-append_last p (s ∷ ts) t h = ground (arith, any-append_last p ts t)

-- What passes `q` passes `p`; then no item that passes `d` and `q` is left among those of `d`.
any-keep_rest :
    (p q d : Timer → Bool)
    → ((t : Timer) → q t ≡ true → p t ≡ true)
    → (ts : List Timer) → any q ts ≡ true
    → any p (keep d ts) ≡ false
    → any q (keep (λ t. not (d t)) ts) ≡ true
any-keep_rest p q d k [] h e = ground arith
any-keep_rest p q d k (t ∷ ts) h e = ground (arith, k t, any-keep_rest p q d k ts)

any-keep :
    (p q d : Timer → Bool)
    → ((t : Timer) → q t ≡ true → (p t ≡ true) × (d t ≡ true))
    → (ts : List Timer) → any q ts ≡ true
    → any p (keep d ts) ≡ true
any-keep p q d k [] h = ground arith
any-keep p q d k (t ∷ ts) h = ground (arith, k t, any-keep p q d k ts)

module _ (env : Environment) where
  -- The timer of an activation, at its time.
  abbrev covers : Option ℕ → Timer → Bool
  covers o t =
      is_at env o t.activation_started_at
      && (t.fires_at == (t.activation_started_at + auto_resume_ms env))

  abbrev covered : World → Bool
  covered w = not w.state.active || any (covers w.state.activated_at) w.timers

  pub fire_inactive :
      (now : ℕ) (c : Calls) (ts : List Timer) (w : World)
      → w.state.active ≡ false
      → fire env now c ts w ≡ w
  unfolding fire
  fire_inactive now c [] w h = refl
  fire_inactive now c (t ∷ ts) w h =
      let idle : guards env w t ≡ false =
        ap (λ b. b && is_at env w.state.activated_at t.activation_started_at) h in
      rw (fire, idle) (fire_inactive now c ts w h)

  -- The callbacks of timers end the activation, or none of them is the activation's.
  fire_result :
      (now : ℕ) (c : Calls) (ts : List Timer) (w : World)
      → ((fire env now c ts w).state.active ≡ false)
        ⊎ ((fire env now c ts w ≡ w) × (any (guards env w) ts ≡ false))
  unfolding fire deactivate
  fire_result now c [] w = inr (refl, refl)
  fire_result now c (t ∷ ts) w = elim (Bool-cases (guards env w t)) [
    | inl meant ↦ inl (rw (fire, meant, fire_inactive now c ts (deactivate env now c w) refl) refl)
    | inr other ↦ elim (fire_result now c ts w) [
      | inl h ↦ inl (rw (fire, other) h)
      | inr h ↦ inr (rw (fire, other) h.0, rw (other) h.1)
    ]
  ]

  inactive_is_covered : (w : World) → w.state.active ≡ false → covered w ≡ true
  inactive_is_covered w h = ap (λ b. not b || any (covers w.state.activated_at) w.timers) h

  covers_guarded :
      (w : World) (t : Timer)
      → w.state.active ≡ true
      → covers w.state.activated_at t ≡ true
      → guards env w t ≡ true
  covers_guarded w t h k = ground arith

  elapse-covered :
      (now : ℕ) (c : Calls) (w : World) → covered w ≡ true → covered (elapse env now c w) ≡ true
  unfolding elapse
  elapse-covered now c w h =
      let rest : World = record w { timers = keep (λ t. not (is_due env now t)) w.timers } in
      elim (fire_result now c (keep (is_due env now) w.timers) rest) [
        | inl ended ↦ inactive_is_covered (elapse env now c w) ended
        | inr same ↦ elim (Bool-cases w.state.active) [
          | inl active ↦
              let some_covers : any (covers w.state.activated_at) w.timers ≡ true = ground arith in
              rw (elapse, same.0, active)
                (any-keep_rest (guards env w) (covers w.state.activated_at) (is_due env now)
                  (λ t k. covers_guarded w t active k) w.timers some_covers same.1)
          | inr idle ↦ rw (elapse, same.0, idle) refl
        ]
      ]

  activate-covered :
      (now : ℕ) (reason : Reason) (c : Calls) (w : World)
      → covered (activate env now reason c w) ≡ true
  unfolding activate
  activate-covered now reason c w =
      any-append_last (covers (some now)) w.timers _
        (rw (==_refl now, ==_refl (now + auto_resume_ms env)) refl)

  evaluate-covered :
      (now : ℕ) (r : SloResult) (c : Calls) (w : World)
      → covered w ≡ true
      → covered (evaluate_and_mitigate env now r c w) ≡ true
  unfolding deactivate
  evaluate-covered now r c w h =
      evaluate_cases env now r c w (λ v. covered v ≡ true)
        (λ _ _. activate-covered now (reason_of env r) c (counted env w)) (λ _ _. h) (λ _ _. refl)
        (λ _ _. h)

  after-covered : (w : World) (es : List Event) → covered w ≡ true → covered (after env w es) ≡ true
  unfolding after step evaluate_and_mitigate elapse
  after-covered w [] h = h
  after-covered w (evaluated now r c ∷ es) h =
      evaluate-covered now r c (after env w es) (after-covered w es h)
  after-covered w (elapsed now c ∷ es) h =
      elapse-covered now c (after env w es) (after-covered w es h)

  due_of_started :
      (o : Option ℕ) (started now : ℕ) (t : Timer)
      → o ≡ some started
      → started + auto_resume_ms env ≤ now
      → covers o t ≡ true
      → is_due env now t ≡ true
  due_of_started none started now t h late k = ground arith
  due_of_started (some u) started now t h late k = ground arith

  covered_ends :
      (now started : ℕ) (c : Calls) (w : World)
      → covered w ≡ true
      → w.state.activated_at ≡ some started
      → started + auto_resume_ms env ≤ now
      → (elapse env now c w).state.active ≡ false
  unfolding elapse
  covered_ends now started c w h at_start late =
      let rest : World = record w { timers = keep (λ t. not (is_due env now t)) w.timers } in
      elim (fire_result now c (keep (is_due env now) w.timers) rest) [
        | inl ended ↦ ended
        | inr same ↦ elim (Bool-cases w.state.active) [
          | inl active ↦
              let some_covers : any (covers w.state.activated_at) w.timers ≡ true = ground arith in
              let meant : any (guards env rest) (keep (is_due env now) w.timers) ≡ true =
                any-keep (guards env w) (covers w.state.activated_at) (is_due env now)
                  (λ t k. (
                    covers_guarded w t active k,
                    due_of_started w.state.activated_at started now t at_start late k,
                  ))
                  w.timers some_covers in
              absurd (let dead : true ≡ false = sym meant ∙ same.1 in cc)
          | inr idle ↦ rw (elapse, same.0) idle
        ]
      ]

-- Whatever the evaluations and whichever calls fail, the mitigation is not active once the timers
-- have run at a time that is `SLO_MITIGATION_AUTO_RESUME_MS` or more after its activation.
pub mitigation_ends :
    (env : Environment) (has_redis : Bool) (es : List Event) (now started : ℕ) (c : Calls)
    → (after env (initial has_redis) es).state.activated_at ≡ some started
    → started + auto_resume_ms env ≤ now
    → (elapse env now c (after env (initial has_redis) es)).state.active ≡ false
mitigation_ends env has_redis es now started c h late =
    covered_ends env now started c (after env (initial has_redis) es)
      (after-covered env (initial has_redis) es refl) h late
