-- ===== src/Resilience/Webhook.antt =====
-- common/utils/webhook-security.util.ts: signed requests from the alert sender, and the memory of
-- those already seen. The digest and `Number` on a header are given.
pub mod Replays
use music_video_generator.Prelude.{
  ℕ, ◌+◌, ◌-◌, ◌*◌, ◌/◌, max, Bool, true, false, not, ◌&&◌, ◌||◌, Option, none, some, List, [], ◌∷◌,
  ◌++◌, Text, codes, trim, lower, text_eq, starts_with, truthy, between, ltb, leb, ◌==◌, any, every,
  keep, length, if◌then◌else◌,
}
use music_video_generator.Env.{JsNumber}

pub data FailureReason : Type 0 where
  missing_secret missing_signature_header invalid_signature_header : FailureReason
  missing_timestamp_header invalid_timestamp_header timestamp_out_of_range : FailureReason
  signature_mismatch replay_detected : FailureReason

pub data VerifyResult : Type 0 where
  verified : ℕ → Text → VerifyResult
  rejected : FailureReason → VerifyResult

-- A key with the time at which it expires, in milliseconds.
pub record Expiration : Type 0 where
  pub key : Text
  pub expires_at_ms : ℕ

abbrev pub ReplayStore : Type 0
ReplayStore = List Expiration

unfoldable pub prune_expired : ℕ → ReplayStore → ReplayStore
prune_expired now = keep λ e. ltb now e.expires_at_ms

-- `has` answers after it has pruned.
unfoldable pub has : Text → ℕ → ReplayStore → Bool × ReplayStore
has key now store = let live = prune_expired now store in (any (λ e. text_eq e.key key) live, live)

-- `Map.set` replaces the entry of the key.
unfoldable pub set : Text → ℕ → ℕ → ReplayStore → ReplayStore
set key expires now store =
    record { key = key; expires_at_ms = expires }
    ∷ keep (λ e. not (text_eq e.key key)) (prune_expired now store)

-- The two headers as `readHeader` returns them (trimmed, empty if missing), and the rest of the
-- call. `now_ms` is the time of the whole call.
pub record Request : Type 0 where
  pub raw_body : Text
  pub timestamp_header : Text
  pub signature_header : Text
  pub now_ms : ℕ
  pub max_skew_sec : ℕ

-- `Number` on a text and the HMAC-SHA256 of a text under a secret, in lower case hexadecimal.
pub record Crypto : Type 0 where
  pub number : Text → Option JsNumber
  pub digest : Text → Text → Text

-- `Math.floor`, of a number that is finite and positive.
unfoldable pub timestamp_of : Option JsNumber → Option ℕ
timestamp_of none = none
timestamp_of (some q) = if ltb 0 q.numerator then some (q.numerator / q.denominator) else none

abbrev pub is_hex : ℕ → Bool
is_hex c = between b'a' b'f' c || between b'0' b'9' c

-- `/^[a-f0-9]{64}$/`.
unfoldable pub is_digest : Text → Bool
is_digest t = length t == 64 && every is_hex t

unfoldable pub drop : Text → Text → Text
drop [] t = t
drop (p ∷ ps) [] = []
drop (p ∷ ps) (c ∷ t) = drop ps t

-- `options.maxSkewSec > 0 ? … : 300`.
abbrev pub skew : ℕ → ℕ
skew n = if ltb 0 n then n else 300

abbrev distance : ℕ → ℕ → ℕ
distance a b = max (a - b) (b - a)

-- The tests on the signature and the time, once the timestamp is read; `none` passes.
unfoldable pub check_signature : Crypto → Text → Request → ℕ → Text → Option FailureReason
check_signature c secret r ts hex =
    if not (is_digest hex)
    then some invalid_signature_header
    else if ltb (skew r.max_skew_sec) (distance (r.now_ms / 1000) ts)
    then some timestamp_out_of_range
    else if not (text_eq hex (c.digest secret (r.timestamp_header ++ b'.' ∷ r.raw_body)))
    then some signature_mismatch
    else none

unfoldable pub signature_hex : Request → Text
unfolding trim lower drop
signature_hex r = lower (trim (drop (codes "sha256=") r.signature_header))

unfoldable pub replay_key : Request → Text
replay_key r = r.timestamp_header ++ b'.' ∷ signature_hex r

-- The replay test behind the others.
unfoldable pub check_replay : Request → ℕ → ReplayStore → VerifyResult × ReplayStore
check_replay r ts store =
    let (seen, live) = has (replay_key r) r.now_ms store in
    if seen then (rejected replay_detected, live) else (
      verified ts (signature_hex r),
      set (replay_key r) (r.now_ms + skew r.max_skew_sec * 1000) r.now_ms live,
    )

unfoldable pub after_signature :
    Option FailureReason → Request → ℕ → ReplayStore → VerifyResult × ReplayStore
after_signature (some f) r ts store = (rejected f, store)
after_signature none r ts store = check_replay r ts store

unfoldable pub with_timestamp :
    Crypto → Text → Request → Option ℕ → ReplayStore → VerifyResult × ReplayStore
with_timestamp c secret r none store = (rejected invalid_timestamp_header, store)
with_timestamp c secret r (some ts) store =
    if not (truthy r.signature_header)
    then (rejected missing_signature_header, store)
    else if not (starts_with r.signature_header (codes "sha256="))
    then (rejected invalid_signature_header, store)
    else after_signature (check_signature c secret r ts (signature_hex r)) r ts store

-- With a replay store, as the service calls it.
unfoldable pub verify_signed_webhook :
    Crypto → Text → Request → ReplayStore → VerifyResult × ReplayStore
verify_signed_webhook c secret r store =
    if not (truthy (trim secret))
    then (rejected missing_secret, store)
    else if not (truthy r.timestamp_header)
    then (rejected missing_timestamp_header, store)
    else with_timestamp c (trim secret) r (timestamp_of (c.number r.timestamp_header)) store
