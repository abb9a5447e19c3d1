-- ===== src/Health/Mitigation/Queue.antt =====
-- The image queue against the mitigation.
use music_video_generator.Prelude.{
  ℕ, Bool, true, false, not, ◌&&◌, none, some, List, [], ◌∷◌, ◌≡◌, refl, sym, ap, arith, Text,
  is_none, every, keep, Bool-cases, inl, inr,
}
use music_video_generator.Env.{Environment}
use music_video_generator.Health.Mitigation.{
  World, Timer, Calls, SloResult, Event, evaluated, elapsed, initial, activate, deactivate, counted,
  uncounted, is_critical, can_transition, evaluate_and_mitigate, fire, guards, is_due, elapse, step,
  after, snapshot, reason_of,
}
use music_video_generator.Health.Mitigation.Cases.{evaluate_cases}
use music_video_generator.Health.Mitigation.Resume.{fire_inactive}

abbrev pub calls_of : Event → Calls
calls_of (evaluated now r c) = c
calls_of (elapsed now c) = c

-- The call of the queue, if any, succeeds.
abbrev pub queue_answers : Event → Bool
queue_answers e = is_none (calls_of e).queue

module _ (env : Environment) where
  abbrev Agrees : World → Type 0
  Agrees w = w.queue_paused ≡ w.state.active

  answered : (c : Calls) → is_none c.queue ≡ true → c.queue ≡ none
  answered c h = ground arith

  deactivate-Agrees :
      (now : ℕ) (c : Calls) (w : World) → c.queue ≡ none → Agrees (deactivate env now c w)
  unfolding deactivate
  deactivate-Agrees now c w h = rw (deactivate, h) refl

  activate-Agrees :
      (now : ℕ) (r : SloResult) (c : Calls) (w : World)
      → c.queue ≡ none
      → Agrees (activate env now (reason_of env r) c w)
  unfolding activate
  activate-Agrees now r c w h = rw (activate, h) refl

  fire-Agrees :
      (now : ℕ) (c : Calls) (ts : List Timer) (w : World)
      → c.queue ≡ none
      → Agrees w
      → Agrees (fire env now c ts w)
  unfolding fire
  fire-Agrees now c [] w h k = k
  fire-Agrees now c (t ∷ ts) w h k = elim (Bool-cases (guards env w t)) [
    | inl meant ↦
        rw (fire, meant)
          (fire-Agrees now c ts (deactivate env now c w) h (deactivate-Agrees now c w h))
    | inr other ↦ rw (fire, other) (fire-Agrees now c ts w h k)
  ]

  step-Agrees :
      (e : Event) (w : World) → (calls_of e).queue ≡ none → Agrees w → Agrees (step env e w)
  unfolding step elapse evaluate_and_mitigate
  step-Agrees (evaluated now r c) w h k =
      evaluate_cases env now r c w Agrees (λ _ _. activate-Agrees now r c (counted env w) h)
        (λ _ _. k) (λ _ _. deactivate-Agrees now c (uncounted env w) h) (λ _ _. k)
  step-Agrees (elapsed now c) w h k =
      fire-Agrees now c (keep (is_due env now) w.timers)
        (record w { timers = keep (λ t. not (is_due env now t)) w.timers }) h k

  after-Agrees :
      (w : World) (es : List Event)
      → every queue_answers es ≡ true
      → Agrees w
      → Agrees (after env w es)
  unfolding after
  after-Agrees w [] h k = k
  after-Agrees w (e ∷ es) h k =
      let first : is_none (calls_of e).queue ≡ true = ground arith in
      let rest : every queue_answers es ≡ true = ground arith in
      step-Agrees e (after env w es) (answered (calls_of e) first) (after-Agrees w es rest k)

  -- An inactive mitigation leaves the queue as it is, until an evaluation is critical.
  unfoldable pub is_quiet : Event → Bool
  unfolding is_critical
  is_quiet (evaluated now r c) = not (is_critical env r)
  is_quiet (elapsed now c) = true

  quiet_step :
      (e : Event) (w : World)
      → is_quiet e ≡ true
      → w.state.active ≡ false
      → w.queue_paused ≡ true
      → ((step env e w).state.active ≡ false) × ((step env e w).queue_paused ≡ true)
  unfolding step elapse evaluate_and_mitigate is_quiet
  quiet_step (evaluated now r c) w q idle paused =
      let met : is_critical env r ≡ false = ground arith in
      rw (evaluate_and_mitigate, met, ap (λ b. b && can_transition env now w) idle) (idle, paused)
  quiet_step (elapsed now c) w q idle paused =
      rw
        (
          elapse,
          fire_inactive env now c (keep (is_due env now) w.timers)
              (record w { timers = keep (λ t. not (is_due env now t)) w.timers }) idle,
        )
        (idle, paused)

  quiet_run :
      (es : List Event) (w : World)
      → every is_quiet es ≡ true
      → w.state.active ≡ false
      → w.queue_paused ≡ true
      → ((after env w es).state.active ≡ false) × ((after env w es).queue_paused ≡ true)
  unfolding after
  quiet_run [] w q idle paused = (idle, paused)
  quiet_run (e ∷ es) w q idle paused =
      let first : is_quiet e ≡ true = ground arith in
      let rest : every is_quiet es ≡ true = ground arith in
      let (idle', paused') = quiet_run es w rest idle paused in
      quiet_step e (after env w es) first idle' paused'

-- As long as the calls of the image queue succeed, the snapshot says whether the queue is paused.
pub snapshot_shows :
    (env : Environment) (has_redis : Bool) (es : List Event)
    → every queue_answers es ≡ true
    → (snapshot env (after env (initial has_redis) es)).image_queue_paused
      ≡ (after env (initial has_redis) es).queue_paused
unfolding snapshot
snapshot_shows env has_redis es h = sym (after-Agrees env (initial has_redis) es h refl)

-- When the call that resumes a paused queue fails, the queue stays paused through every later event
-- up to a critical evaluation, the runs of the timers included, and the snapshot says that it is not
-- paused.
pub failed_resume_lasts :
    (env : Environment) (now : ℕ) (message : Text) (c : Calls) (w : World) (es : List Event)
    → c.queue ≡ some message
    → w.queue_paused ≡ true
    → every (is_quiet env) es ≡ true
    → ((after env (deactivate env now c w) es).queue_paused ≡ true)
      × ((snapshot env (after env (deactivate env now c w) es)).image_queue_paused ≡ false)
unfolding snapshot deactivate
failed_resume_lasts env now message c w es failed paused q =
    let kept : (deactivate env now c w).queue_paused ≡ true = rw (deactivate, failed) paused in
    let (idle, still) = quiet_run env es (deactivate env now c w) q refl kept in (still, idle)
