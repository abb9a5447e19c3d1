-- ===== src/Resilience/Webhook/Replays.antt =====
-- Which requests pass, and how long a request that has passed is remembered.
use music_video_generator.Prelude.{
  ℕ, ◌+◌, ◌*◌, ◌/◌, ◌≤◌, ◌<◌, true, false, not, Option, none, some, [], ◌∷◌, ◌++◌, Text, text_eq,
  text_eq_refl, text_eq-eq, trim, ltb, any, keep, ◌≡◌, ◌≢◌, refl, ap, sym, ◌∙◌, arith, truthy,
  starts_with, codes, Bool-cases, inl, inr,
}
use mathlib.Core.Bool.{false≢true}
use music_video_generator.Resilience.Webhook.{
  FailureReason, verified, rejected, ReplayStore, prune_expired, has, set, Request, Crypto,
  timestamp_of, skew, distance, check_signature, signature_hex, replay_key, check_replay,
  after_signature, with_timestamp, verify_signed_webhook,
}

-- What a request that is verified has shown: its timestamp is read and is within the skew, its
-- signature is the digest of the timestamp and the body under the secret, and the memory holds no
-- live entry of it.
pub record IsGenuine (c : Crypto) (secret : Text) (r : Request) (store : ReplayStore) (ts : ℕ)
    : Type 0 where
  pub time : timestamp_of (c.number r.timestamp_header) ≡ some ts
  pub near : distance (r.now_ms / 1000) ts ≤ skew r.max_skew_sec
  pub signed : signature_hex r ≡ c.digest (trim secret) (r.timestamp_header ++ b'.' ∷ r.raw_body)
  pub unseen : (has (replay_key r) r.now_ms store).0 ≡ false

check_signature_passes :
    (c : Crypto) (secret : Text) (r : Request) (ts : ℕ) (hex : Text)
    → check_signature c secret r ts hex ≡ none
    → (distance (r.now_ms / 1000) ts ≤ skew r.max_skew_sec)
      × (hex ≡ c.digest secret (r.timestamp_header ++ b'.' ∷ r.raw_body))
unfolding check_signature
check_signature_passes c secret r ts hex h = (
  ground arith,
  ground (arith, text_eq-eq hex (c.digest secret (r.timestamp_header ++ b'.' ∷ r.raw_body))),
)

rejected_ne_verified : {f : FailureReason} {ts : ℕ} {hex : Text} → rejected f ≡ verified ts hex → ⊥
rejected_ne_verified h = cc

verified_injective : {a b : ℕ} {s t : Text} → verified a s ≡ verified b t → a ≡ b
verified_injective h = cc

check_replay_passes :
    (r : Request) (ts ts' : ℕ) (hex : Text) (store store' : ReplayStore)
    → check_replay r ts store ≡ (verified ts' hex, store')
    → (ts ≡ ts')
      × ((has (replay_key r) r.now_ms store).0 ≡ false)
      × (store'
          ≡ set
              (replay_key r)
              (r.now_ms + skew r.max_skew_sec * 1000)
              r.now_ms
              (has (replay_key r) r.now_ms store).1)
unfolding check_replay
check_replay_passes r ts ts' hex store store' h =
    elim (Bool-cases (has (replay_key r) r.now_ms store).0) [
      | inl seen ↦ absurd (rejected_ne_verified (ap (λ q. q.0) (rw (check_replay, seen) at h)))
      | inr fresh ↦
          let h' = rw (check_replay, fresh) at h in
          (verified_injective (ap (λ q. q.0) h'), fresh, sym (ap (λ q. q.1) h'))
    ]

after_signature_passes :
    (o : Option FailureReason) (r : Request) (ts t : ℕ) (hex : Text) (store store' : ReplayStore)
    → after_signature o r ts store ≡ (verified t hex, store')
    → (o ≡ none) × (check_replay r ts store ≡ (verified t hex, store'))
unfolding after_signature
after_signature_passes none r ts t hex store store' h = (refl, h)
after_signature_passes (some f) r ts t hex store store' h =
    absurd (rejected_ne_verified (ap (λ q. q.0) h))

with_timestamp_passes :
    (c : Crypto) (secret : Text) (r : Request) (o : Option ℕ) (t : ℕ) (hex : Text)
    (store store' : ReplayStore)
    → with_timestamp c secret r o store ≡ (verified t hex, store')
    → (ts : ℕ) × (o ≡ some ts)
      × (check_signature c secret r ts (signature_hex r) ≡ none)
      × (check_replay r ts store ≡ (verified t hex, store'))
unfolding with_timestamp
with_timestamp_passes c secret r none t hex store store' h =
    absurd (rejected_ne_verified (ap (λ q. q.0) h))
with_timestamp_passes c secret r (some ts) t hex store store' h =
    elim (Bool-cases (truthy r.signature_header)) [
      | inr blank ↦ absurd (rejected_ne_verified (ap (λ q. q.0) (rw (with_timestamp, blank) at h)))
      | inl there ↦ elim (Bool-cases (starts_with r.signature_header (codes "sha256="))) [
        | inr odd ↦
            absurd (rejected_ne_verified (ap (λ q. q.0) (rw (with_timestamp, there, odd) at h)))
        | inl good ↦
            let h' = rw (with_timestamp, there, good) at h in
            let (signed, fresh) =
              after_signature_passes (check_signature c secret r ts (signature_hex r)) r ts t hex
                store store' h' in
            (ts, refl, signed, fresh)
      ]
    ]

-- The tests of a request that is verified, in order.
verify_steps :
    (c : Crypto) (secret : Text) (r : Request) (store store' : ReplayStore) (ts : ℕ) (hex : Text)
    → verify_signed_webhook c secret r store ≡ (verified ts hex, store')
    → (t : ℕ) × (timestamp_of (c.number r.timestamp_header) ≡ some t)
      × (check_signature c (trim secret) r t (signature_hex r) ≡ none)
      × (check_replay r t store ≡ (verified ts hex, store'))
unfolding verify_signed_webhook
verify_steps c secret r store store' ts hex h = elim (Bool-cases (truthy (trim secret))) [
  | inr blank ↦
      absurd (rejected_ne_verified (ap (λ q. q.0) (rw (verify_signed_webhook, blank) at h)))
  | inl there ↦ elim (Bool-cases (truthy r.timestamp_header)) [
    | inr odd ↦
        absurd (rejected_ne_verified (ap (λ q. q.0) (rw (verify_signed_webhook, there, odd) at h)))
    | inl good ↦
        with_timestamp_passes c (trim secret) r (timestamp_of (c.number r.timestamp_header)) ts hex
          store store' (rw (verify_signed_webhook, there, good) at h)
  ]
]

-- A request is verified only if its timestamp is read and lies within the skew of the receiver's
-- clock, its signature is the digest of the timestamp and the body under the trimmed secret, and the
-- memory has no live entry of it.
pub verify_signed_webhook-IsGenuine :
    (c : Crypto) (secret : Text) (r : Request) (store store' : ReplayStore) (ts : ℕ) (hex : Text)
    → verify_signed_webhook c secret r store ≡ (verified ts hex, store')
    → IsGenuine c secret r store ts
verify_signed_webhook-IsGenuine c secret r store store' ts hex h =
    let (t, time, signed, fresh) = verify_steps c secret r store store' ts hex h in
    let (same, unseen, e) = check_replay_passes r t ts hex store store' fresh in
    let (near, digest) = check_signature_passes c (trim secret) r t (signature_hex r) signed in
    record { time = time ∙ ap some same; near = rw (← same) near; signed = digest; unseen = unseen }

abbrev pub again : Request → ℕ → Request
again r now = record r { now_ms = now }

remembered :
    (r : Request) (now : ℕ) (store : ReplayStore)
    → now < r.now_ms + skew r.max_skew_sec * 1000
    → (has
        (replay_key r)
        now
        (set (replay_key r) (r.now_ms + skew r.max_skew_sec * 1000) r.now_ms store)).0
      ≡ true
unfolding has set prune_expired
remembered r now store h = ground (arith, text_eq_refl (replay_key r))

-- A request that was verified is not verified again, in the memory that it left, before the skew has
-- passed since.
pub verify_signed_webhook-once :
    (c : Crypto) (secret : Text) (r : Request) (store store' store_after : ReplayStore)
    (ts t now : ℕ) (hex hex' : Text)
    → verify_signed_webhook c secret r store ≡ (verified ts hex, store')
    → now < r.now_ms + skew r.max_skew_sec * 1000
    → verify_signed_webhook c secret (again r now) store' ≢ (verified t hex', store_after)
unfolding replay_key signature_hex
verify_signed_webhook-once c secret r store store' store_after ts t now hex hex' h early h' =
    let (u, time, signed, fresh) = verify_steps c secret r store store' ts hex h in
    let (same, unseen, e) = check_replay_passes r u ts hex store store' fresh in
    let g = verify_signed_webhook-IsGenuine c secret (again r now) store' store_after t hex' h' in
    let there = remembered r now (has (replay_key r) r.now_ms store).1 early in
    false≢true (sym g.unseen ∙ (ap (λ x. (has (replay_key r) now x).0) e ∙ there))

forgotten :
    (r : Request) (now : ℕ) (store : ReplayStore)
    → r.now_ms + skew r.max_skew_sec * 1000 ≤ now
    → (has
        (replay_key r)
        now
        (set (replay_key r) (r.now_ms + skew r.max_skew_sec * 1000) r.now_ms store)).0
      ≡ false
unfolding has set prune_expired
forgotten r now store late =
    ground (arith, any-keep_none (replay_key r) now (prune_expired r.now_ms store))
  where
    any-keep_none :
        (key : Text) (now : ℕ) (es : ReplayStore)
        → any
            (λ e. text_eq e.key key)
            (keep (λ e. ltb now e.expires_at_ms) (keep (λ e. not (text_eq e.key key)) es))
          ≡ false
    any-keep_none key now [] = refl
    any-keep_none key now (e ∷ es) = ground (arith, any-keep_none key now es)

module _ (c : Crypto) (secret : Text) (r : Request) (now : ℕ) (st : ReplayStore) where
  check_again :
      (ts : ℕ) (hex : Text)
      → check_signature c secret r ts hex ≡ none
      → distance (now / 1000) ts ≤ skew r.max_skew_sec
      → check_signature c secret (again r now) ts hex ≡ none
  unfolding check_signature
  check_again ts hex h near = ground arith

  replay_again :
      (ts t : ℕ) (hex : Text) (store store' : ReplayStore)
      → check_replay r ts store ≡ (verified t hex, store')
      → (has (replay_key r) now st).0 ≡ false
      → (check_replay (again r now) ts st).0 ≡ verified t hex
  unfolding check_replay replay_key signature_hex
  replay_again ts t hex store store' h unseen =
      elim (Bool-cases (has (replay_key r) r.now_ms store).0) [
        | inl seen ↦ absurd (rejected_ne_verified (ap (λ q. q.0) (rw (check_replay, seen) at h)))
        | inr fresh ↦ rw (check_replay, unseen) (ap (λ q. q.0) (rw (check_replay, fresh) at h))
      ]

  -- The tests of a request that has passed, at another time and with another memory.
  timestamp_again :
      (o : Option ℕ) (t : ℕ) (hex : Text) (store store' : ReplayStore)
      → with_timestamp c secret r o store ≡ (verified t hex, store')
      → distance (now / 1000) t ≤ skew r.max_skew_sec
      → (has (replay_key r) now st).0 ≡ false
      → (with_timestamp c secret (again r now) o st).0 ≡ verified t hex
  unfolding with_timestamp signature_hex after_signature
  timestamp_again none t hex store store' h near unseen =
      absurd (rejected_ne_verified (ap (λ q. q.0) h))
  timestamp_again (some ts) t hex store store' h near unseen =
      elim (Bool-cases (truthy r.signature_header)) [
        | inr blank ↦
            absurd (rejected_ne_verified (ap (λ q. q.0) (rw (with_timestamp, blank) at h)))
        | inl there ↦ elim (Bool-cases (starts_with r.signature_header (codes "sha256="))) [
          | inr odd ↦
              absurd (rejected_ne_verified (ap (λ q. q.0) (rw (with_timestamp, there, odd) at h)))
          | inl good ↦
              let (signed, fresh) =
                after_signature_passes (check_signature c secret r ts (signature_hex r)) r ts t hex
                  store store' (rw (with_timestamp, there, good) at h) in
              let (same, _, _) = check_replay_passes r ts t hex store store' fresh in
              let passed = check_again ts (signature_hex r) signed (rw (← same) at near) in
              rw (with_timestamp, there, good, passed)
                (replay_again ts t hex store store' fresh unseen)
        ]
      ]

-- A request that was verified is verified again, in the memory that it left, once the skew has
-- passed since, where its timestamp is still within the skew of the clock.
pub verify_signed_webhook-again :
    (c : Crypto) (secret : Text) (r : Request) (store store' : ReplayStore) (ts now : ℕ)
    (hex : Text)
    → verify_signed_webhook c secret r store ≡ (verified ts hex, store')
    → r.now_ms + skew r.max_skew_sec * 1000 ≤ now
    → distance (now / 1000) ts ≤ skew r.max_skew_sec
    → (verify_signed_webhook c secret (again r now) store').0 ≡ verified ts hex
unfolding verify_signed_webhook
verify_signed_webhook-again c secret r store store' ts now hex h late near =
    let (u, time, signed, fresh) = verify_steps c secret r store store' ts hex h in
    let (same, unseen, e) = check_replay_passes r u ts hex store store' fresh in
    let unseen =
      ap (λ x. (has (replay_key r) now x).0) e
      ∙ forgotten r now (has (replay_key r) r.now_ms store).1 late in
    elim (Bool-cases (truthy (trim secret))) [
      | inr blank ↦
          absurd (rejected_ne_verified (ap (λ q. q.0) (rw (verify_signed_webhook, blank) at h)))
      | inl there ↦ elim (Bool-cases (truthy r.timestamp_header)) [
        | inr odd ↦
            absurd
              (rejected_ne_verified (ap (λ q. q.0) (rw (verify_signed_webhook, there, odd) at h)))
        | inl good ↦
            rw (verify_signed_webhook, there, good)
              (timestamp_again c (trim secret) r now store'
                (timestamp_of (c.number r.timestamp_header)) ts hex store store'
                (rw (verify_signed_webhook, there, good) at h) near unseen)
      ]
    ]
