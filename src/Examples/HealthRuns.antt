-- ===== src/Examples/HealthRuns.antt =====
-- A mitigation that starts, fails to resume the queue, and ends.
use music_video_generator.Prelude.{
  ℕ, if◌then◌else◌, ◌-◌, ◌≤◌, true, false, none, some, List, [], ◌∷◌, ◌≡◌, refl, arith, codes,
  text_eq,
}
use music_video_generator.Env.{Environment, parse_positive_int_env}
use music_video_generator.Health.Mitigation.{
  Calls, SloResult, Event, evaluated, elapsed, initial, after, deactivate, elapse, snapshot,
  is_critical, activate, evaluate_and_mitigate,
}
use music_video_generator.Health.Alerting.{Printer, DegradedSnapshot}
use music_video_generator.Health.Alerting.Posts
use music_video_generator.Health.Alerting.Posts.{alerts, recoveries, spaced, posts_paced}
use music_video_generator.Health.Mitigation.Resume.{mitigation_ends}
use music_video_generator.Health.Mitigation.Streaks.{critical_streak, mitigation_starts}
use music_video_generator.Health.Mitigation.Queue.{is_quiet, failed_resume_lasts}

abbrev defaults : Environment
defaults = record { variable = λ k. none; number = λ t. none }

abbrev answered : Calls
answered = record { queue = none; redis = none }

abbrev queue_down : Calls
queue_down = record { queue = some (codes "ECONNREFUSED"); redis = none }

abbrev slow : SloResult
slow = record {
  status = codes "critical";
  has_critical_alerts = true;
  p95_ms = 700000;
  pipeline_count = 12;
}

abbrev fine : SloResult
fine = record {
  status = codes "met";
  has_critical_alerts = false;
  p95_ms = 20000;
  pipeline_count = 12;
}

abbrev one_slow : List Event
one_slow = evaluated 1000000 slow answered ∷ []

abbrev two_slow : List Event
two_slow = evaluated 1060000 slow answered ∷ one_slow

mitigation_starts_example :
    (2 ≤ critical_streak defaults two_slow)
    × (300000 ≤ 1060000 - (after defaults (initial true) one_slow).last_transition_at_ms)
unfolding after parse_positive_int_env evaluate_and_mitigate activate
mitigation_starts_example =
    mitigation_starts defaults true (evaluated 1060000 slow answered) one_slow refl refl

mitigation_ends_example :
    (elapse defaults 1960000 queue_down (after defaults (initial true) two_slow)).state.active
    ≡ false
unfolding after parse_positive_int_env evaluate_and_mitigate activate
mitigation_ends_example =
    mitigation_ends defaults true two_slow 1960000 1060000 queue_down refl (omega arith)

-- A run of the timers and an evaluation that is met.
abbrev calm : List Event
calm = evaluated 5000000 fine answered ∷ elapsed 4000000 answered ∷ []

failed_resume_lasts_example :
    ((after defaults
        (deactivate defaults 1960000 queue_down (after defaults (initial true) two_slow))
        calm).queue_paused
      ≡ true)
    × ((snapshot defaults (
          after defaults
            (deactivate defaults 1960000 queue_down (after defaults (initial true) two_slow))
            calm)).image_queue_paused
        ≡ false)
unfolding after parse_positive_int_env evaluate_and_mitigate activate is_quiet is_critical
failed_resume_lasts_example =
    failed_resume_lasts defaults 1960000 (codes "ECONNREFUSED") queue_down
      (after defaults (initial true) two_slow) calm refl refl refl

abbrev plain_printer : Printer
plain_printer = record { sort = λ ts. ts; decimal = λ n. n ∷ []; fixed = λ n. n ∷ [] }

abbrev with_webhook : Environment
unfolding text_eq
with_webhook = record {
  variable = λ k.
      if text_eq k (codes "HEALTH_ALERT_WEBHOOK_URL")
      then some (codes "https://hooks.test")
      else none;
  number = λ t. none;
}

-- A snapshot with one row by source mode, of the given rate.
abbrev degraded_at : ℕ → DegradedSnapshot
degraded_at rate = record {
  status = none;
  timestamp = none;
  window_hours = none;
  totals = none;
  critical = [];
  warnings = [];
  warning_threshold = none;
  critical_threshold = none;
  min_completed_window = none;
  by_source_mode =
      record {
        source_mode = codes "Audio";
        degraded_rate = rate;
        degraded_window = 4;
        completed_window = 10;
      }
      ∷ [];
}

-- The same alert three times, a recovery, and the alert again.
abbrev alert_snapshots : List (ℕ × DegradedSnapshot)
alert_snapshots =
    (4000000, degraded_at 4000)
    ∷ (3000000, degraded_at 100)
    ∷ (2000000, degraded_at 4000)
    ∷ (1100000, degraded_at 4000)
    ∷ (1000000, degraded_at 4000)
    ∷ []

alert_counts :
    (alerts (Posts.after plain_printer with_webhook alert_snapshots).posts ≡ 3)
    × (recoveries (Posts.after plain_printer with_webhook alert_snapshots).posts ≡ 1)
unfolding alerts recoveries Posts.after with_webhook parse_positive_int_env
alert_counts = (refl, refl)

posts_paced_example :
    (spaced 900000 (Posts.after plain_printer with_webhook alert_snapshots).posts ≡ true)
    × (recoveries (Posts.after plain_printer with_webhook alert_snapshots).posts
        ≤ alerts (Posts.after plain_printer with_webhook alert_snapshots).posts)
unfolding parse_positive_int_env with_webhook
posts_paced_example = posts_paced plain_printer with_webhook alert_snapshots (omega arith)
