-- ===== src/Events/Metrics.antt =====
-- modules/events/events-metrics.service.ts, without its two times.
pub mod Tallies
use music_video_generator.Prelude.{
  ℕ, suc, ◌+◌, ◌-◌, Bool, List, [], ◌∷◌, Text, codes, text_eq, one_of, if◌then◌else◌,
}

-- A value of a `Record<string, number>` that is counted up: a number, or, under a key that objects
-- inherit a function for, the text of that function with a number of digits 1 behind it.
pub data Cell : Type 0 where
  counted appended : ℕ → Cell

-- The own entries of a `Record<string, number>`.
abbrev pub Tally : Type 0
Tally = List (Text × Cell)

-- The keys under which every object inherits a function, which `record[type]` reads.
abbrev inherited_functions : List Text
inherited_functions =
    codes "constructor"
    ∷ codes "hasOwnProperty"
    ∷ codes "isPrototypeOf"
    ∷ codes "propertyIsEnumerable"
    ∷ codes "toLocaleString"
    ∷ codes "toString"
    ∷ codes "valueOf"
    ∷ codes "__defineGetter__"
    ∷ codes "__defineSetter__"
    ∷ codes "__lookupGetter__"
    ∷ codes "__lookupSetter__"
    ∷ []

unfoldable pub is_inherited : Text → Bool
unfolding one_of
is_inherited t = one_of t inherited_functions

-- An assignment of a text to this key is ignored.
unfoldable pub is_prototype : Text → Bool
unfolding text_eq
is_prototype t = text_eq t (codes "__proto__")

abbrev next_cell : Cell → Cell
next_cell (counted n) = counted (suc n)
next_cell (appended n) = appended (suc n)

abbrev first_cell : Text → Cell
first_cell t = if is_inherited t then appended 1 else counted 1

unfoldable pub bump_own : Text → Tally → Tally
unfolding text_eq is_inherited
bump_own t [] = (t, first_cell t) ∷ []
bump_own t ((u, c) ∷ counts) =
    let rest = bump_own t counts in if text_eq u t then (u, next_cell c) ∷ counts else (u, c) ∷ rest

-- `record[type] = (record[type] || 0) + 1`.
unfoldable pub bump : Text → Tally → Tally
unfolding is_prototype bump_own
bump t counts = if is_prototype t then counts else bump_own t counts

pub record Metrics : Type 0 where
  pub active_connections : ℕ
  pub total_connections : ℕ
  pub total_disconnections : ℕ
  pub auth_failures : ℕ
  pub join_requests : ℕ
  pub join_success : ℕ
  pub join_denied : ℕ
  pub join_invalid : ℕ
  pub leave_requests : ℕ
  pub inbound_messages : ℕ
  pub inbound_parse_errors : ℕ
  pub emitted_events : ℕ
  pub emitted_by_type : Tally
  pub inbound_by_type : Tally

abbrev pub no_metrics : Metrics
no_metrics = record {
  active_connections = 0;
  total_connections = 0;
  total_disconnections = 0;
  auth_failures = 0;
  join_requests = 0;
  join_success = 0;
  join_denied = 0;
  join_invalid = 0;
  leave_requests = 0;
  inbound_messages = 0;
  inbound_parse_errors = 0;
  emitted_events = 0;
  emitted_by_type = [];
  inbound_by_type = [];
}

abbrev pub record_connection_opened : Metrics → Metrics
record_connection_opened m = record m {
  active_connections = m.active_connections + 1;
  total_connections = m.total_connections + 1;
}

abbrev pub record_connection_closed : Metrics → Metrics
record_connection_closed m = record m {
  active_connections = m.active_connections - 1;
  total_disconnections = m.total_disconnections + 1;
}

abbrev pub record_auth_failure : Metrics → Metrics
record_auth_failure m = record m { auth_failures = m.auth_failures + 1 }

pub data JoinResult : Type 0 where
  joined denied invalid : JoinResult

abbrev pub record_join_attempt : JoinResult → Metrics → Metrics
record_join_attempt joined m = record m {
  join_requests = m.join_requests + 1;
  join_success = m.join_success + 1;
}
record_join_attempt denied m = record m {
  join_requests = m.join_requests + 1;
  join_denied = m.join_denied + 1;
}
record_join_attempt invalid m = record m {
  join_requests = m.join_requests + 1;
  join_invalid = m.join_invalid + 1;
}

abbrev pub record_leave : Metrics → Metrics
record_leave m = record m { leave_requests = m.leave_requests + 1 }

unfoldable pub record_inbound : Text → Metrics → Metrics
unfolding bump
record_inbound type m = record m {
  inbound_messages = m.inbound_messages + 1;
  inbound_by_type = bump type m.inbound_by_type;
}

abbrev pub record_inbound_parse_error : Metrics → Metrics
record_inbound_parse_error m = record m { inbound_parse_errors = m.inbound_parse_errors + 1 }

unfoldable pub record_emitted : Text → Metrics → Metrics
unfolding bump
record_emitted type m = record m {
  emitted_events = m.emitted_events + 1;
  emitted_by_type = bump type m.emitted_by_type;
}
