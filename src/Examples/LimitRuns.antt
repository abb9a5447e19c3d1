-- ===== src/Examples/LimitRuns.antt =====
-- Circuits, permits, quotas and settings.
use music_video_generator.Prelude.{
  ℕ, suc, ◌+◌, ◌≤◌, ◌<◌, true, none, some, List, [], ◌∷◌, ◌≡◌, ◌↔◌, refl, arith, if◌then◌else◌,
  Text, codes,
}
use music_video_generator.Resilience.Breaker.{closed, open_circuit, Entry, Settings, new_entry}
use music_video_generator.Resilience.Breaker.States.{
  Event, asked, failed, after, recent_failures, circuit_closed_iff,
}
use music_video_generator.Resilience.Permits.{PermitPool, new_pool, acquire, release, resume}
use music_video_generator.Resilience.Permits.Turns.{
  Reach, OrderlyReach, here, next, acquires, releases, resumes, permits_within_limit,
  permits_over_limit,
}
use music_video_generator.Resilience.Quota.{
  Counters, Key, user_key, global_key, concurrent_key, same_key, QuotaResource, generations,
  gemini_calls, check_and_increment, acquire_generation_slot, release_generation_slot,
}
use music_video_generator.Resilience.Quota
use music_video_generator.Resilience.Quota.Limits.{check_and_increment_grants}
use music_video_generator.Resilience.Quota.Guard.{passed, guard_within_limit}
use music_video_generator.Env.{Environment, parse_positive_int_env}
use music_video_generator.Env.Positive.{parse_positive_int_env-fraction}

abbrev three_strikes : Settings
three_strikes = record { failure_threshold = 3; cooldown_ms = 1000 }

-- Three failures, the cooldown, and a question: the latest event first.
abbrev probed : List Event
probed = asked 1003 ∷ failed 3 none ∷ failed 2 none ∷ failed 1 none ∷ []

closed_iff_example : ((after three_strikes probed).state ≡ closed) ↔ (recent_failures probed < 3)
closed_iff_example = circuit_closed_iff three_strikes probed (omega arith)

abbrev opened : Entry
opened = record new_entry { state = open_circuit; failure_count = 3; opened_at_ms = some 3 }

-- Two calls on a pool of one permit, a release, and the rest of the second call.
one_waits : OrderlyReach (new_pool 1) (resume (release (acquire 1 (acquire 0 (new_pool 1)))))
unfolding new_pool acquire release
one_waits =
    next
      (next (next (next here (acquires 0 refl refl)) (acquires 1 refl refl))
        (releases (omega arith) refl))
      (resumes refl)

within_limit_example : (resume (release (acquire 1 (acquire 0 (new_pool 1))))).in_use ≤ 1
within_limit_example = permits_within_limit 1 one_waits

over_limit_example : (q : PermitPool) × Reach (new_pool 2) q × (q.in_use ≡ 3)
over_limit_example = permits_over_limit 2 (omega arith)

-- Counters as a function.
abbrev tally : Counters
tally = record {
  State = Key → ℕ;
  count = λ k s. s k;
  incr = λ j s k. if same_key k j then suc (s k) else s k;
  expire = λ j ttl s. s;
  put = λ j n s k. if same_key k j then n else s k;
  count-incr = λ k j s. refl;
  count-expire = λ k j ttl s. refl;
  count-put = λ k j n s. refl;
}

abbrev quotas : Quota.Settings
quotas = record {
  enabled = true;
  user_limit = λ r. 5;
  global_limit = λ r. 50;
  max_concurrent_generations = 2;
}

abbrev seven : Text
seven = codes "7"

abbrev unused : Key → ℕ
unused k = 0

grants_example :
    let (v, s') = check_and_increment tally quotas 20 seven generations unused in
    ((v.ok ≡ true) ↔ ((0 < 5) × (0 < 50)))
    × ((k : Key)
        → s' k ≡ (
            if v.ok
            then (if same_key k (user_key seven 20 generations)
                then 1
                else if same_key k (global_key 20 generations)
                then 1
                else 0)
            else 0))
grants_example = check_and_increment_grants tally quotas refl 20 seven generations unused

-- Four requests of a user and one of another.
abbrev guarded_requests : List (Text × QuotaResource)
guarded_requests =
    (seven, generations)
    ∷ (codes "8", generations)
    ∷ (seven, generations)
    ∷ (seven, generations)
    ∷ (seven, generations)
    ∷ []

guard_within_limit_example :
    passed tally quotas 20 seven generations guarded_requests unused + 0 ≤ 5
guard_within_limit_example =
    guard_within_limit tally quotas 20 seven generations guarded_requests unused refl refl
      (omega arith)

abbrev limit_text : Text
limit_text = codes "0.5"

-- The setting `LIMIT` is `0.5`.
abbrev fractional : Environment
fractional = record {
  variable = λ k. some limit_text;
  number = λ t. some (record { numerator = 1; denominator = 2 });
}

abbrev whole : Environment
whole = record {
  variable = λ k. some (codes "4");
  number = λ t. some (record { numerator = 4; denominator = 1 });
}

fraction_setting_example : parse_positive_int_env fractional (codes "LIMIT") 3 ≡ 0
fraction_setting_example =
    parse_positive_int_env-fraction fractional (codes "LIMIT") 3 b'0' (codes ".5")
      (record { numerator = 1; denominator = 2 }) refl refl (omega arith) (omega arith)
