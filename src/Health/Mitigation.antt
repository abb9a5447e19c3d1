-- ===== src/Health/Mitigation.antt =====
-- modules/health/services/slo-mitigation.service.ts. The image queue, the Redis flag and the timers
-- are parts of the state; whether a call of the queue or of Redis fails is given with each event, and
-- a call that fails changes nothing. Times are in milliseconds, one for each event.
pub mod Cases
pub mod Resume
pub mod Streaks
pub mod Queue
use music_video_generator.Prelude.{
  ℕ, suc, ◌+◌, ◌-◌, ◌*◌, ◌/◌, Bool, true, false, not, ◌&&◌, Option, none, some, List, [], ◌∷◌, ◌++◌,
  Text, codes, text_eq, ◌==◌, ltb, leb, keep, is_none, if◌then◌else◌,
}
use music_video_generator.Env.{Environment, parse_positive_int_env}

-- `Pipeline SLO critical: p95=…s over … pipelines`.
pub record Reason : Type 0 where
  pub p95_seconds : ℕ
  pub pipeline_count : ℕ

-- The entries of `actions`; a failure has its message.
pub data Action : Type 0 where
  image_queue_paused redis_early_failover_flag_set : Action
  image_queue_resumed redis_early_failover_flag_cleared : Action
  image_queue_pause_failed redis_flag_set_failed : Text → Action
  image_queue_resume_failed redis_flag_clear_failed : Text → Action

pub record MitigationState : Type 0 where
  pub active : Bool
  pub activated_at : Option ℕ
  pub deactivated_at : Option ℕ
  pub reason : Option Reason
  pub actions : List Action

-- A `setTimeout` of `activate`, with the activation that its callback compares.
pub record Timer : Type 0 where
  pub fires_at : ℕ
  pub activation_started_at : ℕ

-- The fields of the service, and what it acts on: whether the image queue is paused, and when the
-- flag in Redis expires.
pub record World : Type 0 where
  pub state : MitigationState
  pub last_transition_at_ms : ℕ
  pub consecutive_critical_checks : ℕ
  pub has_redis : Bool
  pub queue_paused : Bool
  pub flag_until : Option ℕ
  pub timers : List Timer

-- What the calls of an event answer: the message of the exception, if any.
pub record Calls : Type 0 where
  pub queue : Option Text
  pub redis : Option Text

pub record SloResult : Type 0 where
  pub status : Text
  pub has_critical_alerts : Bool
  pub p95_ms : ℕ
  pub pipeline_count : ℕ

pub record MitigationSnapshot : Type 0 where
  pub active : Bool
  pub activated_at : Option ℕ
  pub deactivated_at : Option ℕ
  pub reason : Option Reason
  pub actions : List Action
  pub image_queue_paused : Bool
  pub early_failover_active : Bool
  pub cooldown_ms : ℕ
  pub consecutive_critical_checks : ℕ
  pub required_consecutive_checks : ℕ

abbrev pub redis_ttl_ms : ℕ
redis_ttl_ms = 3600 * 1000

abbrev pub cooldown_ms : Environment → ℕ
cooldown_ms env = parse_positive_int_env env (codes "SLO_MITIGATION_COOLDOWN_MS") (5 * 60 * 1000)

abbrev pub required_consecutive_checks : Environment → ℕ
required_consecutive_checks env =
    parse_positive_int_env env (codes "SLO_MITIGATION_CONSECUTIVE_CHECKS") 2

abbrev pub auto_resume_ms : Environment → ℕ
auto_resume_ms env =
    parse_positive_int_env env (codes "SLO_MITIGATION_AUTO_RESUME_MS") (15 * 60 * 1000)

abbrev pub initial : Bool → World
initial has_redis = record {
  state = record {
    active = false;
    activated_at = none;
    deactivated_at = none;
    reason = none;
    actions = [];
  };
  last_transition_at_ms = 0;
  consecutive_critical_checks = 0;
  has_redis = has_redis;
  queue_paused = false;
  flag_until = none;
  timers = [];
}

abbrev pub after_call {ℓ} : {A : Type ℓ} → Option Text → A → (Text → A) → A
after_call none done failed = done
after_call (some message) done failed = failed message

-- Without a client the Redis calls return at once.
abbrev redis_call : World → Calls → Option Text
redis_call w c = if w.has_redis then c.redis else none

abbrev pub flag_after : World → Calls → Option ℕ → Option ℕ
flag_after w c flag = if w.has_redis && is_none c.redis then flag else w.flag_until

module _ (env : Environment) where
  unfoldable pub activate : ℕ → Reason → Calls → World → World
  unfolding parse_positive_int_env
  activate now reason c w = record w {
    state = record {
      active = true;
      activated_at = some now;
      deactivated_at = none;
      reason = some reason;
      actions =
          after_call c.queue image_queue_paused image_queue_pause_failed
          ∷ after_call (redis_call w c) redis_early_failover_flag_set redis_flag_set_failed
          ∷ [];
    };
    last_transition_at_ms = now;
    queue_paused = after_call c.queue true (λ _. w.queue_paused);
    flag_until = flag_after w c (some (now + redis_ttl_ms));
    timers =
        w.timers
        ++ record { fires_at = now + auto_resume_ms env; activation_started_at = now } ∷ [];
  }

  unfoldable pub deactivate : ℕ → Calls → World → World
  deactivate now c w = record w {
    state = record {
      active = false;
      activated_at = w.state.activated_at;
      deactivated_at = some now;
      reason = none;
      actions =
          after_call c.queue image_queue_resumed image_queue_resume_failed
          ∷ after_call (redis_call w c) redis_early_failover_flag_cleared redis_flag_clear_failed
          ∷ [];
    };
    last_transition_at_ms = now;
    consecutive_critical_checks = 0;
    queue_paused = after_call c.queue false (λ _. w.queue_paused);
    flag_until = flag_after w c none;
  }

  abbrev pub can_transition : ℕ → World → Bool
  unfolding parse_positive_int_env
  can_transition now w = leb (cooldown_ms env) (now - w.last_transition_at_ms)

  unfoldable pub is_critical : SloResult → Bool
  unfolding text_eq
  is_critical r = text_eq r.status (codes "critical") && r.has_critical_alerts

  abbrev pub reason_of : SloResult → Reason
  reason_of r = record { p95_seconds = (r.p95_ms + 500) / 1000; pipeline_count = r.pipeline_count }

  abbrev pub counted : World → World
  counted w = record w { consecutive_critical_checks = suc w.consecutive_critical_checks }

  abbrev pub uncounted : World → World
  uncounted w = record w { consecutive_critical_checks = 0 }

  -- The test of `evaluateAndMitigate` before it activates.
  abbrev pub must_activate : ℕ → World → Bool
  unfolding parse_positive_int_env can_transition
  must_activate now w =
      not w.state.active
      && leb (required_consecutive_checks env) w.consecutive_critical_checks
      && can_transition now w

  unfoldable pub evaluate_and_mitigate : ℕ → SloResult → Calls → World → World
  unfolding is_critical must_activate can_transition activate deactivate
  evaluate_and_mitigate now r c w =
      if is_critical r
      then if must_activate now (counted w)
        then activate now (reason_of r) c (counted w)
        else counted w
      else if w.state.active && can_transition now w
      then deactivate now c (uncounted w)
      else uncounted w

  unfoldable pub snapshot : World → MitigationSnapshot
  unfolding parse_positive_int_env
  snapshot w = record {
    active = w.state.active;
    activated_at = w.state.activated_at;
    deactivated_at = w.state.deactivated_at;
    reason = w.state.reason;
    actions = w.state.actions;
    image_queue_paused = w.state.active;
    early_failover_active = w.state.active;
    cooldown_ms = cooldown_ms env;
    consecutive_critical_checks = w.consecutive_critical_checks;
    required_consecutive_checks = required_consecutive_checks env;
  }

  unfoldable pub on_module_init : Calls → World → World
  on_module_init c w = record w {
    queue_paused = after_call c.queue false (λ _. w.queue_paused);
    flag_until = flag_after w c none;
  }

  unfoldable pub on_module_destroy : ℕ → Calls → World → World
  unfolding deactivate
  on_module_destroy now c w = record (if w.state.active then deactivate now c w else w) {
    has_redis = false;
  }

  abbrev pub is_at : Option ℕ → ℕ → Bool
  is_at none t = false
  is_at (some u) t = u == t

  -- The test of the callback of a timer.
  abbrev pub guards : World → Timer → Bool
  guards w t = w.state.active && is_at w.state.activated_at t.activation_started_at

  -- The callbacks of timers, in turn.
  unfoldable pub fire : ℕ → Calls → List Timer → World → World
  unfolding deactivate
  fire now c [] w = w
  fire now c (t ∷ ts) w = fire now c ts (if guards w t then deactivate now c w else w)

  abbrev pub is_due : ℕ → Timer → Bool
  is_due now t = leb t.fires_at now

  -- The timers that are due run, once.
  unfoldable pub elapse : ℕ → Calls → World → World
  unfolding fire
  elapse now c w =
      fire now c (keep (is_due now) w.timers)
        (record w { timers = keep (λ t. not (is_due now t)) w.timers })

-- What happens to the service between its start and its end.
pub data Event : Type 0 where
  evaluated : ℕ → SloResult → Calls → Event
  elapsed : ℕ → Calls → Event

module _ (env : Environment) where
  abbrev pub step : Event → World → World
  unfolding evaluate_and_mitigate elapse
  step (evaluated now r c) w = evaluate_and_mitigate env now r c w
  step (elapsed now c) w = elapse env now c w

  -- The latest event stands first.
  unfoldable pub after : World → List Event → World
  unfolding step
  after w [] = w
  after w (e ∷ es) = step e (after w es)
