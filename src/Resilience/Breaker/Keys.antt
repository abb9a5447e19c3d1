-- ===== src/Resilience/Breaker/Keys.antt =====
-- The operations on one key, against the entries of the others.
use music_video_generator.Prelude.{
  ℕ, Option, [], ◌∷◌, Text, text_eq, text_eq_refl, text_eq-eq, ◌≡◌, refl, arith, if◌then◌else◌,
}
use music_video_generator.Resilience.Breaker.{
  Entry, Entries, Settings, get_or_create, store, can_execute, record_failure, record_success,
  can_execute_entry, record_failure_entry, record_success_entry,
}

get_or_create-store :
    (j k : Text) (e : Entry) (m : Entries)
    → get_or_create j (store k e m) ≡ (if text_eq k j then e else get_or_create j m)
unfolding get_or_create store
get_or_create-store j k e [] = refl
get_or_create-store j k e ((i, d) ∷ m) = ground (
  arith,
  text_eq-eq i k,
  text_eq-eq i j,
  text_eq-eq k j,
  text_eq_refl j,
  text_eq_refl k,
  get_or_create-store j k e m,
)

-- Each operation on a key works on the entry of that key, and leaves the entry of any other key as it
-- was.
pub circuits_apart :
    (c : Settings) (now : ℕ) (k : Text) (message : Option Text) (m : Entries)
    → ((can_execute c now k m).0 ≡ (can_execute_entry c now (get_or_create k m)).0)
      × ((j : Text)
          → (get_or_create j (can_execute c now k m).1 ≡ (
              if text_eq k j
              then (can_execute_entry c now (get_or_create k m)).1
              else get_or_create j m))
            × (get_or_create j (record_failure c now k message m) ≡ (
                if text_eq k j
                then record_failure_entry c now message (get_or_create k m)
                else get_or_create j m))
            × (get_or_create j (record_success k m) ≡ (
                if text_eq k j
                then record_success_entry (get_or_create k m)
                else get_or_create j m)))
unfolding can_execute record_failure record_success
circuits_apart c now k message m = (
  refl,
  λ j. (get_or_create-store j k _ m, get_or_create-store j k _ m, get_or_create-store j k _ m),
)
