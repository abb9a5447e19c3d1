-- ===== src/Resilience/Breaker.antt =====
-- common/services/circuit-breaker.service.ts: one circuit for each key. Times are milliseconds.
pub mod States
pub mod Keys
use music_video_generator.Prelude.{
  ℕ, ◌+◌, ◌-◌, Bool, true, false, Option, none, some, List, [], ◌∷◌, Text, text_eq, leb, ◌==◌,
  if◌then◌else◌,
}

pub data CircuitState : Type 0 where
  closed open_circuit half_open : CircuitState

-- `CircuitRuntimeEntry`.
pub record Entry : Type 0 where
  pub state : CircuitState
  pub failure_count : ℕ
  pub success_count : ℕ
  pub opened_at_ms : Option ℕ
  pub last_failure_at_ms : Option ℕ
  pub last_failure_message : Option Text

pub record Decision : Type 0 where
  pub allowed : Bool
  pub retry_after_ms : ℕ
  pub state : CircuitState

pub record Settings : Type 0 where
  pub failure_threshold : ℕ
  pub cooldown_ms : ℕ

abbrev pub new_entry : Entry
new_entry = record {
  state = closed;
  failure_count = 0;
  success_count = 0;
  opened_at_ms = none;
  last_failure_at_ms = none;
  last_failure_message = none;
}

abbrev pub time_or : Option ℕ → ℕ → ℕ
time_or none d = d
time_or (some t) d = t

-- The body of `canExecute` on its entry, by the entry's state. `-` stops at 0, which is what the two
-- calls of `Math.max(0, …)` do.
unfoldable pub try_entry : CircuitState → Settings → ℕ → Entry → Decision × Entry
try_entry open_circuit c now e =
    let retry_after = c.cooldown_ms - (now - time_or e.opened_at_ms now) in
    if retry_after == 0
    then (
      record { allowed = true; retry_after_ms = 0; state = half_open },
      record e { state = half_open; opened_at_ms = none },
    )
    else (record { allowed = false; retry_after_ms = retry_after; state = open_circuit }, e)
try_entry s c now e = (record { allowed = true; retry_after_ms = 0; state = s }, e)

unfoldable pub can_execute_entry : Settings → ℕ → Entry → Decision × Entry
unfolding try_entry
can_execute_entry c now e = try_entry e.state c now e

unfoldable pub record_failure_entry : Settings → ℕ → Option Text → Entry → Entry
record_failure_entry c now message e =
    let e' = record e {
      failure_count = e.failure_count + 1;
      last_failure_at_ms = some now;
      last_failure_message = message;
    } in
    if leb c.failure_threshold e'.failure_count
    then record e' { state = open_circuit; opened_at_ms = some now }
    else e'

unfoldable pub record_success_entry : Entry → Entry
record_success_entry e = record e {
  success_count = e.success_count + 1;
  failure_count = 0;
  state = closed;
  opened_at_ms = none;
  last_failure_message = none;
}

-- The `Map` of the entries. `getOrCreateEntry` reads the entry of a key or adds a new one.
abbrev pub Entries : Type 0
Entries = List (Text × Entry)

unfoldable pub get_or_create : Text → Entries → Entry
unfolding text_eq
get_or_create k [] = new_entry
get_or_create k ((j, e) ∷ m) = if text_eq j k then e else get_or_create k m

-- A write to the entry of a key, which is made if it is not there.
unfoldable pub store : Text → Entry → Entries → Entries
unfolding text_eq
store k e [] = (k, e) ∷ []
store k e ((j, d) ∷ m) = if text_eq j k then (j, e) ∷ m else (j, d) ∷ store k e m

unfoldable pub can_execute : Settings → ℕ → Text → Entries → Decision × Entries
unfolding can_execute_entry get_or_create store
can_execute c now k m = let (d, e) = can_execute_entry c now (get_or_create k m) in (d, store k e m)

unfoldable pub record_failure : Settings → ℕ → Text → Option Text → Entries → Entries
unfolding record_failure_entry get_or_create store
record_failure c now k message m =
    store k (record_failure_entry c now message (get_or_create k m)) m

unfoldable pub record_success : Text → Entries → Entries
unfolding record_success_entry get_or_create store
record_success k m = store k (record_success_entry (get_or_create k m)) m
