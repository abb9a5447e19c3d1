-- ===== src/Health/Alerting/Posts.antt =====
-- The posts of a run of snapshots, each with its time.
use music_video_generator.Prelude.{
  ℕ, suc, ◌+◌, ◌-◌, ◌≤◌, ◌<◌, Bool, true, false, not, ◌&&◌, ◌||◌, Option, none, some, List, [], ◌∷◌,
  ◌≡◌, refl, sym, arith, Text, text_eq, text_eq_refl, text_eq-eq, truthy, or_empty, ltb, leb, every,
  length, Bool-cases, inl, inr,
}
use music_video_generator.Env.{Environment}
use music_video_generator.Health.Alerting.{
  Printer, DegradedSnapshot, SourceModeAlerts, AlertPayload, RecoveryPayload, Post, degraded_alert,
  degraded_recovered, Alerting, no_posts, sent_at, set_sent, cooldown_ms, recovery_payload,
  alert_payload, webhook_url, build_source_mode_alerts, build_signature, notify_recovery,
  notify_critical, notify_degraded_stage_if_needed,
}

sent_at-set_sent : (s : Text) (n : ℕ) (sent : List (Text × ℕ)) → sent_at s (set_sent s n sent) ≡ n
unfolding sent_at set_sent
sent_at-set_sent s n [] = rw (sent_at, text_eq_refl) refl
sent_at-set_sent s n ((u, t) ∷ sent) = elim (Bool-cases (text_eq u s)) [
  | inl same ↦ rw (set_sent, same, sent_at, same) refl
  | inr other ↦ rw (set_sent, other, sent_at, other) (sent_at-set_sent s n sent)
]

sent_at-set_sent_other :
    (s r : Text) (n : ℕ) (sent : List (Text × ℕ))
    → text_eq s r ≡ false
    → sent_at r (set_sent s n sent) ≡ sent_at r sent
unfolding sent_at set_sent
sent_at-set_sent_other s r n [] h = rw (h) refl
sent_at-set_sent_other s r n ((u, t) ∷ sent) h = elim (Bool-cases (text_eq u s)) [
  | inl same ↦ let e : u ≡ s = text_eq-eq u s same in rw (e, text_eq_refl, h) refl
  | inr other ↦ elim (Bool-cases (text_eq u r)) [
    | inl found ↦ rw (other, found) refl
    | inr rest ↦ rw (other, rest) (sent_at-set_sent_other s r n sent h)
  ]
]

-- Two alerts with one signature, the later one first, are the cooldown apart.
unfoldable pub apart : ℕ → Post → Post → Bool
unfolding text_eq
apart cooldown (degraded_alert t d) (degraded_alert u e) =
    not (text_eq d.signature e.signature) || leb cooldown (t - u)
apart cooldown _ _ = true

unfoldable pub spaced : ℕ → List Post → Bool
unfolding apart
spaced cooldown [] = true
spaced cooldown (p ∷ ps) = every (apart cooldown p) ps && spaced cooldown ps

-- The alert is no later than the last one of its signature.
abbrev recorded : List (Text × ℕ) → Post → Bool
unfolding sent_at
recorded sent (degraded_alert t d) = leb t (sent_at d.signature sent)
recorded sent (degraded_recovered t d) = true

unfoldable pub alerts : List Post → ℕ
alerts [] = 0
alerts (degraded_alert t d ∷ ps) = suc (alerts ps)
alerts (degraded_recovered t d ∷ ps) = alerts ps

unfoldable pub recoveries : List Post → ℕ
recoveries [] = 0
recoveries (degraded_alert t d ∷ ps) = recoveries ps
recoveries (degraded_recovered t d ∷ ps) = suc (recoveries ps)

abbrev pending : Option Text → ℕ
pending none = 0
pending (some s) = 1

pending_of_truthy : (o : Option Text) → truthy (or_empty o) ≡ true → pending o ≡ 1
pending_of_truthy none h = ground arith
pending_of_truthy (some s) h = refl

recorded_once_later :
    (s : Text) (now : ℕ) (sent : List (Text × ℕ)) (p : Post)
    → sent_at s sent ≤ now
    → recorded sent p ≡ true
    → recorded (set_sent s now sent) p ≡ true
unfolding recorded
recorded_once_later s now sent (degraded_alert t d) h k =
    elim (Bool-cases (text_eq s d.signature)) [
      | inl same ↦
          let named : s ≡ d.signature = text_eq-eq s d.signature same in
          let then_now : sent_at d.signature (set_sent s now sent) ≡ now =
            rw (sym named) (sent_at-set_sent s now sent) in
          let before : sent_at d.signature sent ≤ now = rw (sym named) h in ground arith
      | inr other ↦ rw (sent_at-set_sent_other s d.signature now sent other) k
    ]
recorded_once_later s now sent (degraded_recovered t d) h k = refl

recorded-apart :
    (cooldown now : ℕ) (d : AlertPayload) (sent : List (Text × ℕ)) (p : Post)
    → cooldown ≤ now - sent_at d.signature sent
    → recorded sent p ≡ true
    → apart cooldown (degraded_alert now d) p ≡ true
unfolding recorded apart
recorded-apart cooldown now d sent (degraded_alert t e) h k =
    elim (Bool-cases (text_eq d.signature e.signature)) [
      | inl same ↦
          let named : d.signature ≡ e.signature = text_eq-eq d.signature e.signature same in
          let before : leb t (sent_at d.signature sent) ≡ true = rw (named) k in
          let far : leb cooldown (now - t) ≡ true = ground arith in rw (same, far) refl
      | inr other ↦ rw (other) refl
    ]
recorded-apart cooldown now d sent (degraded_recovered t e) h k = refl

every-implied :
    (p q : Post → Bool)
    → ((x : Post) → p x ≡ true → q x ≡ true)
    → (xs : List Post) → every p xs ≡ true
    → every q xs ≡ true
every-implied p q k [] h = refl
every-implied p q k (x ∷ xs) h = ground (arith, k x, every-implied p q k xs)

and_true : {a b : Bool} → a ≡ true → b ≡ true → (a && b) ≡ true
and_true h k = rw (h, k) refl

recovery_is_apart :
    (cooldown t : ℕ) (d : RecoveryPayload) (ps : List Post)
    → every (apart cooldown (degraded_recovered t d)) ps ≡ true
unfolding apart
recovery_is_apart cooldown t d [] = refl
recovery_is_apart cooldown t d (p ∷ ps) = recovery_is_apart cooldown t d ps

module _ (printer : Printer) (env : Environment) where
  -- The latest snapshot stands first.
  unfoldable pub after : List (ℕ × DegradedSnapshot) → Alerting
  unfolding notify_degraded_stage_if_needed
  after [] = no_posts
  after ((now, s) ∷ es) = notify_degraded_stage_if_needed printer env now s (after es)

  notify_cases :
      (now : ℕ) (s : DegradedSnapshot) (a : Alerting) (P : Alerting → Type 0)
      → P a
      → P (notify_recovery printer env now s a)
      → ((signature : Text)
          → P (notify_critical printer env now s (build_source_mode_alerts s) signature a))
      → P (notify_degraded_stage_if_needed printer env now s a)
  unfolding notify_degraded_stage_if_needed
  notify_cases now s a P idle recovery critical =
      elim (Bool-cases (truthy (webhook_url printer env))) [
        | inr unset ↦ rw (notify_degraded_stage_if_needed, unset) idle
        | inl given ↦
            elim (Bool-cases (
              not (ltb 0 (length s.critical))
              && not (ltb 0 (length (build_source_mode_alerts s).critical)))) [
                | inl fine ↦ rw (notify_degraded_stage_if_needed, given, fine) recovery
                | inr bad ↦
                    rw (notify_degraded_stage_if_needed, given, bad)
                      (critical (
                        build_signature printer env s.critical
                          (build_source_mode_alerts s).critical))
              ]
      ]

  record IsPaced (a : Alerting) : Type 0 where
    pub all_recorded : every (recorded a.last_sent_at) a.posts ≡ true
    pub far_apart : spaced (cooldown_ms printer env) a.posts ≡ true

  recovery-IsPaced :
      (now : ℕ) (s : DegradedSnapshot) (a : Alerting)
      → IsPaced a
      → IsPaced (notify_recovery printer env now s a)
  unfolding notify_recovery spaced apart recorded
  recovery-IsPaced now s a p = elim (Bool-cases (truthy (or_empty a.last_critical_signature))) [
    | inl open_alert ↦
        rw (notify_recovery, open_alert)
          (record {
            all_recorded = p.all_recorded;
            far_apart =
                and_true
                  (recovery_is_apart (cooldown_ms printer env) now
                    (recovery_payload printer env s (or_empty a.last_critical_signature)) a.posts)
                  p.far_apart;
          })
    | inr quiet ↦ rw (notify_recovery, quiet) p
  ]

  critical-IsPaced :
      (now : ℕ) (s : DegradedSnapshot) (m : SourceModeAlerts) (signature : Text) (a : Alerting)
      → 0 < cooldown_ms printer env
      → IsPaced a
      → IsPaced (notify_critical printer env now s m signature a)
  unfolding notify_critical alert_payload spaced recorded
  critical-IsPaced now s m signature a positive p =
      elim (Bool-cases (ltb (now - sent_at signature a.last_sent_at) (cooldown_ms printer env))) [
        | inl early ↦ rw (notify_critical, early) p
        | inr due ↦
            let far : cooldown_ms printer env ≤ now - sent_at signature a.last_sent_at =
              ground arith in
            let before : sent_at signature a.last_sent_at ≤ now = omega (arith, far, positive) in
            let kept : every (recorded (set_sent signature now a.last_sent_at)) a.posts ≡ true =
              every-implied (recorded a.last_sent_at)
                (recorded (set_sent signature now a.last_sent_at))
                (λ q k. recorded_once_later signature now a.last_sent_at q before k) a.posts
                p.all_recorded in
            let mine : leb now (sent_at signature (set_sent signature now a.last_sent_at)) ≡ true =
              rw (sent_at-set_sent signature now a.last_sent_at) (ground arith) in
            rw (notify_critical, due)
              (record {
                all_recorded = and_true mine kept;
                far_apart =
                    and_true
                      (every-implied (recorded a.last_sent_at)
                        (apart (cooldown_ms printer env)
                          (degraded_alert now (alert_payload printer env s m signature)))
                        (λ q k.
                          recorded-apart (cooldown_ms printer env) now
                            (alert_payload printer env s m signature) a.last_sent_at q far k)
                        a.posts p.all_recorded)
                      p.far_apart;
              })
      ]

  after-IsPaced :
      (es : List (ℕ × DegradedSnapshot)) → 0 < cooldown_ms printer env → IsPaced (after es)
  unfolding after spaced
  after-IsPaced [] positive = record { all_recorded = refl; far_apart = refl }
  after-IsPaced ((now, s) ∷ es) positive =
      let p = after-IsPaced es positive in
      notify_cases now s (after es) IsPaced p (recovery-IsPaced now s (after es) p) (λ signature.
        critical-IsPaced now s (build_source_mode_alerts s) signature (after es) positive p)

  -- The recoveries, with the alert that is not yet recovered, are no more than the alerts.
  recovery-balance :
      (now : ℕ) (s : DegradedSnapshot) (a : Alerting)
      → recoveries a.posts + pending a.last_critical_signature ≤ alerts a.posts
      → recoveries (notify_recovery printer env now s a).posts
          + pending (notify_recovery printer env now s a).last_critical_signature
        ≤ alerts (notify_recovery printer env now s a).posts
  unfolding notify_recovery recoveries alerts
  recovery-balance now s a h = elim (Bool-cases (truthy (or_empty a.last_critical_signature))) [
    | inl open_alert ↦
        rw (notify_recovery, open_alert)
          (omega (arith, h, pending_of_truthy a.last_critical_signature open_alert))
    | inr quiet ↦ rw (notify_recovery, quiet) h
  ]

  critical-balance :
      (now : ℕ) (s : DegradedSnapshot) (m : SourceModeAlerts) (signature : Text) (a : Alerting)
      → recoveries a.posts + pending a.last_critical_signature ≤ alerts a.posts
      → recoveries (notify_critical printer env now s m signature a).posts
          + pending (notify_critical printer env now s m signature a).last_critical_signature
        ≤ alerts (notify_critical printer env now s m signature a).posts
  unfolding notify_critical recoveries alerts
  critical-balance now s m signature a h =
      elim (Bool-cases (ltb (now - sent_at signature a.last_sent_at) (cooldown_ms printer env))) [
        | inl early ↦ rw (notify_critical, early) h
        | inr due ↦ rw (notify_critical, due) (omega (arith, h))
      ]

  after-balance :
      (es : List (ℕ × DegradedSnapshot))
      → recoveries (after es).posts + pending (after es).last_critical_signature
        ≤ alerts (after es).posts
  unfolding after recoveries alerts
  after-balance [] = omega arith
  after-balance ((now, s) ∷ es) =
      notify_cases now s (after es)
        (λ a. recoveries a.posts + pending a.last_critical_signature ≤ alerts a.posts)
        (after-balance es) (recovery-balance now s (after es) (after-balance es))
        (λ signature.
          critical-balance now s (build_source_mode_alerts s) signature (after es)
            (after-balance es))

-- Where the cooldown is not zero, in any run of snapshots two alerts with one signature are the
-- cooldown apart, and no more recoveries are posted than alerts.
pub posts_paced :
    (printer : Printer) (env : Environment) (es : List (ℕ × DegradedSnapshot))
    → 0 < cooldown_ms printer env
    → (spaced (cooldown_ms printer env) (after printer env es).posts ≡ true)
      × (recoveries (after printer env es).posts ≤ alerts (after printer env es).posts)
posts_paced printer env es positive =
    let p = after-IsPaced printer env es positive in
    (p.far_apart, omega (arith, after-balance printer env es))
