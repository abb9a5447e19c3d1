-- ===== src/Resilience/Breaker/States.antt =====
-- The states of one circuit against its history.
use music_video_generator.Prelude.{
  ℕ, suc, ◌-◌, ◌≤◌, ◌<◌, true, false, Option, none, some, List, [], ◌∷◌, Text, ◌≡◌, ◌≢◌, ◌↔◌, arith,
}
use music_video_generator.Resilience.Breaker.{
  closed, open_circuit, half_open, Entry, Settings, new_entry, can_execute_entry,
  record_failure_entry, record_success_entry,
}

-- What happens to a circuit: a question, a failure, a success.
pub data Event : Type 0 where
  asked : ℕ → Event
  failed : ℕ → Option Text → Event
  succeeded : Event

unfoldable pub step : Settings → Event → Entry → Entry
unfolding can_execute_entry record_failure_entry record_success_entry
step c (asked now) e = (can_execute_entry c now e).1
step c (failed now m) e = record_failure_entry c now m e
step c succeeded e = record_success_entry e

-- The entry after a history, the latest event first.
unfoldable pub after : Settings → List Event → Entry
unfolding step
after c [] = new_entry
after c (ev ∷ evs) = step c ev (after c evs)

-- The failures since the last success.
unfoldable pub recent_failures : List Event → ℕ
recent_failures [] = 0
recent_failures (asked now ∷ evs) = recent_failures evs
recent_failures (failed now m ∷ evs) = suc (recent_failures evs)
recent_failures (succeeded ∷ evs) = 0

pub record IsCoherent (c : Settings) (e : Entry) (n : ℕ) : Type 0 where
  pub counted : e.failure_count ≡ n
  pub closed_below : e.state ≡ closed → n < c.failure_threshold
  pub closed_above : n < c.failure_threshold → e.state ≡ closed
  pub opened : e.state ≡ open_circuit → e.opened_at_ms ≢ none
  pub probing : e.state ≡ half_open → e.opened_at_ms ≡ none

step_asked :
    (c : Settings) (now : ℕ) (e : Entry) (n : ℕ)
    → IsCoherent c e n
    → IsCoherent c (can_execute_entry c now e).1 n
unfolding can_execute_entry
step_asked c now e n v = ground arith

step_failed :
    (c : Settings) (now : ℕ) (m : Option Text) (e : Entry) (n : ℕ)
    → IsCoherent c e n
    → IsCoherent c (record_failure_entry c now m e) (suc n)
unfolding record_failure_entry
step_failed c now m e n v = ground arith

step_succeeded :
    (c : Settings) (e : Entry) → 0 < c.failure_threshold → IsCoherent c (record_success_entry e) 0
unfolding record_success_entry
step_succeeded c e h = ground arith

after-IsCoherent :
    (c : Settings) (evs : List Event)
    → 0 < c.failure_threshold
    → IsCoherent c (after c evs) (recent_failures evs)
unfolding after step recent_failures
after-IsCoherent c [] h = ground arith
after-IsCoherent c (asked now ∷ evs) h =
    step_asked c now (after c evs) (recent_failures evs) (after-IsCoherent c evs h)
after-IsCoherent c (failed now m ∷ evs) h =
    step_failed c now m (after c evs) (recent_failures evs) (after-IsCoherent c evs h)
after-IsCoherent c (succeeded ∷ evs) h = step_succeeded c (after c evs) h

-- After any history from a new entry, with a positive threshold, a circuit is closed exactly when
-- fewer failures than the threshold have been recorded since the last success.
pub circuit_closed_iff :
    (c : Settings) (evs : List Event)
    → 0 < c.failure_threshold
    → ((after c evs).state ≡ closed) ↔ (recent_failures evs < c.failure_threshold)
circuit_closed_iff c evs h = let v = after-IsCoherent c evs h in (v.closed_below, v.closed_above)

-- An open circuit lets a request pass exactly when the cooldown since its opening is over; it is then
-- half open, and otherwise as it was.
pub can_execute_entry-open :
    (c : Settings) (now t : ℕ) (e : Entry)
    → e.state ≡ open_circuit
    → e.opened_at_ms ≡ some t
    → let (d, e') = can_execute_entry c now e in
      ((d.allowed ≡ true) ↔ (c.cooldown_ms ≤ now - t))
      × (d.allowed ≡ true → e'.state ≡ half_open)
      × (d.allowed ≡ false → e' ≡ e)
unfolding can_execute_entry
can_execute_entry-open c now t e o s =
    ((λ h. ground arith, λ h. ground arith), λ h. ground arith, λ h. ground arith)

-- After any history that leaves the circuit half open, a failure opens it again, from that time on.
pub half_open_failure :
    (c : Settings) (evs : List Event) (now : ℕ) (m : Option Text)
    → 0 < c.failure_threshold
    → (after c evs).state ≡ half_open
    → let e = after c (failed now m ∷ evs) in (e.state ≡ open_circuit) × (e.opened_at_ms ≡ some now)
unfolding after step record_failure_entry
half_open_failure c evs now m h s = ground (arith, after-IsCoherent c evs h)
