-- ===== src/Health/Alerting.antt =====
-- modules/health/health-alerting.service.ts. Rates and thresholds are in hundredths of a percent,
-- which is how the metrics round them; the posts stand for the calls of the HTTP client, whose errors
-- the service reports and swallows. The digest of the posts is left out.
pub mod Posts
use music_video_generator.Prelude.{
  ℕ, ◌+◌, ◌-◌, ◌*◌, Bool, true, false, not, ◌&&◌, ◌||◌, Option, none, some, List, [], ◌∷◌, ◌++◌,
  map, Text, codes, trim, lower, text_eq, truthy, or_empty, or_default, ltb, leb, length,
  if◌then◌else◌,
}
use music_video_generator.Env.{Environment, parse_positive_int_env}

-- `Array.prototype.sort` on texts, a natural number as a text, and `toFixed(2)` of a rate.
pub record Printer : Type 0 where
  pub sort : List Text → List Text
  pub decimal : ℕ → Text
  pub fixed : ℕ → Text

pub record DegradedAlertRow : Type 0 where
  pub type : Text
  pub degraded_rate : ℕ
  pub degraded_window : ℕ
  pub completed_window : ℕ

pub record DegradedBySourceModeRow : Type 0 where
  pub source_mode : Text
  pub degraded_rate : ℕ
  pub degraded_window : ℕ
  pub completed_window : ℕ

-- `totals` is passed on as it is.
pub record Totals : Type 0 where
  pub degraded_rate : ℕ
  pub degraded_window : ℕ
  pub completed_window : ℕ

pub record DegradedSnapshot : Type 0 where
  pub status : Option Text
  pub timestamp : Option Text
  pub window_hours : Option ℕ
  pub totals : Option Totals
  pub critical : List DegradedAlertRow
  pub warnings : List DegradedAlertRow
  pub warning_threshold : Option ℕ
  pub critical_threshold : Option ℕ
  pub min_completed_window : Option ℕ
  pub by_source_mode : List DegradedBySourceModeRow

pub record SourceModeAlerts : Type 0 where
  pub critical : List DegradedBySourceModeRow
  pub warnings : List DegradedBySourceModeRow

pub record AlertPayload : Type 0 where
  pub environment : Text
  pub timestamp : Option Text
  pub window_hours : ℕ
  pub status : Text
  pub totals : Option Totals
  pub critical : List DegradedAlertRow
  pub warnings : List DegradedAlertRow
  pub source_mode : SourceModeAlerts
  pub signature : Text
  pub cooldown_ms : ℕ

pub record RecoveryPayload : Type 0 where
  pub environment : Text
  pub timestamp : Option Text
  pub window_hours : ℕ
  pub previous_critical_signature : Text
  pub totals : Option Totals

pub data Post : Type 0 where
  degraded_alert : ℕ → AlertPayload → Post
  degraded_recovered : ℕ → RecoveryPayload → Post

-- The fields of the service, and its posts, the latest first.
pub record Alerting : Type 0 where
  pub last_sent_at : List (Text × ℕ)
  pub last_critical_signature : Option Text
  pub posts : List Post

abbrev pub no_posts : Alerting
no_posts = record { last_sent_at = []; last_critical_signature = none; posts = [] }

-- `map.get(key) || 0` and `map.set(key, value)`.
unfoldable pub sent_at : Text → List (Text × ℕ) → ℕ
unfolding text_eq
sent_at s [] = 0
sent_at s ((u, t) ∷ sent) = if text_eq u s then t else sent_at s sent

unfoldable pub set_sent : Text → ℕ → List (Text × ℕ) → List (Text × ℕ)
unfolding text_eq
set_sent s n [] = (s, n) ∷ []
set_sent s n ((u, t) ∷ sent) =
    let rest = set_sent s n sent in if text_eq u s then (u, n) ∷ sent else (u, t) ∷ rest

abbrev pub value_or {ℓ} : {A : Type ℓ} → Option A → A → A
value_or none d = d
value_or (some a) d = a

-- `snapshot.windowHours || 24`.
abbrev hours_of : DegradedSnapshot → ℕ
hours_of s = let h = value_or s.window_hours 24 in if ltb 0 h then h else 24

abbrev named_row : DegradedBySourceModeRow → DegradedBySourceModeRow
unfolding trim lower
named_row r = record r { source_mode = lower (trim r.source_mode) }

abbrev is_counted_row : ℕ → DegradedBySourceModeRow → Bool
unfolding trim lower
is_counted_row least r = truthy (lower (trim r.source_mode)) && not (ltb r.completed_window least)

-- The loop of `buildSourceModeAlerts`.
unfoldable pub sort_rows : ℕ → ℕ → ℕ → List DegradedBySourceModeRow → SourceModeAlerts
unfolding named_row is_counted_row
sort_rows warning critical least [] = record { critical = []; warnings = [] }
sort_rows warning critical least (r ∷ rows) =
    let rest = sort_rows warning critical least rows in
    if not (is_counted_row least r)
    then rest
    else if leb critical r.degraded_rate
    then record rest { critical = named_row r ∷ rest.critical }
    else if leb warning r.degraded_rate
    then record rest { warnings = named_row r ∷ rest.warnings }
    else rest

unfoldable pub build_source_mode_alerts : DegradedSnapshot → SourceModeAlerts
unfolding sort_rows
build_source_mode_alerts s =
    sort_rows (value_or s.warning_threshold 500) (value_or s.critical_threshold 2000)
      (value_or s.min_completed_window 5) s.by_source_mode

unfoldable pub join : Text → List Text → Text
join separator [] = []
join separator (t ∷ []) = t
join separator (t ∷ u ∷ ts) = t ++ separator ++ join separator (u ∷ ts)

module _ (printer : Printer) (env : Environment) where
  -- `…:rate:degraded/completed`.
  abbrev figures : ℕ → ℕ → ℕ → Text
  figures rate degraded completed =
      codes ":"
      ++ printer.fixed rate
      ++ codes ":"
      ++ printer.decimal degraded
      ++ codes "/"
      ++ printer.decimal completed

  unfoldable pub build_signature : List DegradedAlertRow → List DegradedBySourceModeRow → Text
  unfolding join
  build_signature by_type by_source = join (codes "|") (
      printer.sort (
        map
          (λ r.
            codes "type:" ++ r.type ++ figures r.degraded_rate r.degraded_window r.completed_window)
          by_type)
      ++ printer.sort (
          map
            (λ r.
              codes "source:"
              ++ r.source_mode
              ++ figures r.degraded_rate r.degraded_window r.completed_window)
            by_source))

  abbrev pub cooldown_ms : ℕ
  unfolding parse_positive_int_env
  cooldown_ms =
      parse_positive_int_env env (codes "HEALTH_DEGRADED_ALERT_COOLDOWN_MS") (15 * 60 * 1000)

  unfoldable pub webhook_url : Text
  unfolding trim
  webhook_url = trim (or_empty (env.variable (codes "HEALTH_ALERT_WEBHOOK_URL")))

  abbrev app_env : Text
  unfolding trim lower
  app_env = lower (trim (or_default (env.variable (codes "NODE_ENV")) (codes "development")))

  unfoldable pub recovery_payload : DegradedSnapshot → Text → RecoveryPayload
  unfolding app_env
  recovery_payload s previous = record {
    environment = app_env;
    timestamp = s.timestamp;
    window_hours = hours_of s;
    previous_critical_signature = previous;
    totals = s.totals;
  }

  unfoldable pub alert_payload : DegradedSnapshot → SourceModeAlerts → Text → AlertPayload
  unfolding cooldown_ms app_env
  alert_payload s modes signature = record {
    environment = app_env;
    timestamp = s.timestamp;
    window_hours = hours_of s;
    status = or_default s.status (codes "degraded");
    totals = s.totals;
    critical = s.critical;
    warnings = s.warnings;
    source_mode = modes;
    signature = signature;
    cooldown_ms = cooldown_ms;
  }

  -- The branch without critical alerts.
  unfoldable pub notify_recovery : ℕ → DegradedSnapshot → Alerting → Alerting
  unfolding recovery_payload
  notify_recovery now s a =
      let previous = or_empty a.last_critical_signature in
      if truthy previous
      then record a {
        posts = degraded_recovered now (recovery_payload s previous) ∷ a.posts;
        last_critical_signature = none;
      }
      else a

  -- The rest, by the signature.
  unfoldable pub notify_critical :
      ℕ → DegradedSnapshot → SourceModeAlerts → Text → Alerting → Alerting
  unfolding cooldown_ms sent_at set_sent alert_payload
  notify_critical now s modes signature a =
      if ltb (now - sent_at signature a.last_sent_at) cooldown_ms then a else record {
        last_sent_at = set_sent signature now a.last_sent_at;
        last_critical_signature = some signature;
        posts = degraded_alert now (alert_payload s modes signature) ∷ a.posts;
      }

  unfoldable pub notify_degraded_stage_if_needed : ℕ → DegradedSnapshot → Alerting → Alerting
  unfolding webhook_url build_source_mode_alerts build_signature notify_recovery notify_critical
  notify_degraded_stage_if_needed now s a =
      let modes = build_source_mode_alerts s in
      if not (truthy webhook_url)
      then a
      else if not (ltb 0 (length s.critical)) && not (ltb 0 (length modes.critical))
      then notify_recovery now s a
      else notify_critical now s modes (build_signature s.critical modes.critical) a
