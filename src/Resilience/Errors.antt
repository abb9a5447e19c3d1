-- ===== src/Resilience/Errors.antt =====
-- modules/jobs/processors/retry.utils.ts: which errors are retried.
use music_video_generator.Prelude.{
  ℕ, ◌+◌, Bool, true, false, not, ◌&&◌, ◌||◌, Option, none, some, List, [], ◌∷◌, Text, codes, trim,
  lower, includes, between, ltb, ◌==◌, any, if◌then◌else◌,
}

pub record RetryState : Type 0 where
  pub attempt_number : ℕ
  pub max_attempts : ℕ
  pub has_remaining_attempts : Bool

-- `job.opts.attempts`, where it is a number, and `job.attemptsMade`.
pub record QueueJob : Type 0 where
  pub attempts : Option ℕ
  pub attempts_made : ℕ

abbrev pub attempts_or_one : Option ℕ → ℕ
attempts_or_one none = 1
attempts_or_one (some n) = if ltb 0 n then n else 1

unfoldable pub get_retry_state : QueueJob → RetryState
get_retry_state j = record {
  attempt_number = j.attempts_made + 1;
  max_attempts = attempts_or_one j.attempts;
  has_remaining_attempts = ltb (j.attempts_made + 1) (attempts_or_one j.attempts);
}

pub data Category : Type 0 where
  transient permanent unknown : Category

pub record ErrorClassification : Type 0 where
  pub category : Category
  pub retryable : Bool
  pub reason : Text

-- `\w`, on a text in lower case.
abbrev is_word : ℕ → Bool
is_word c = between b'a' b'z' c || between b'A' b'Z' c || between b'0' b'9' c || c == b'_'

abbrev ends_word : Text → Bool
ends_word [] = true
ends_word (c ∷ t) = not (is_word c)

-- The characters of a pattern one by one, and a `\b` behind the last.
unfoldable pub match_here : List (ℕ → Bool) → Text → Bool
match_here [] t = ends_word t
match_here (p ∷ ps) [] = false
match_here (p ∷ ps) (c ∷ t) = p c && match_here ps t

-- A pattern that begins with a word character, with `\b` on both sides; the flag tells whether the
-- character before is one of a word.
unfoldable pub match_word : Bool → List (ℕ → Bool) → Text → Bool
unfolding match_here
match_word inside ps [] = not inside && match_here ps []
match_word inside ps (c ∷ t) = (not inside && match_here ps (c ∷ t)) || match_word (is_word c) ps t

abbrev literal : Text → List (ℕ → Bool) → List (ℕ → Bool)
literal [] ps = ps
literal (c ∷ t) ps = (λ d. d == c) ∷ literal t ps

abbrev digit : ℕ → Bool
digit = between b'0' b'9'

abbrev status_code : Text → List (ℕ → Bool) → List (ℕ → Bool)
status_code digits rest = literal (codes "status code ") (literal digits rest)

abbrev permanent_texts : List Text
permanent_texts =
    codes "no youtube url found"
    ∷ codes "missing youtube url"
    ∷ codes "invalid youtube url"
    ∷ codes "invalid or expired token"
    ∷ codes "missing bearer token"
    ∷ codes "not found"
    ∷ codes "schema validation failed"
    ∷ codes "invalid result_json contract"
    ∷ []

abbrev transient_texts : List Text
transient_texts =
    codes "timeout"
    ∷ codes "timed out"
    ∷ codes "etimedout"
    ∷ codes "econnreset"
    ∷ codes "econnrefused"
    ∷ codes "ehostunreach"
    ∷ codes "socket hang up"
    ∷ codes "service unavailable"
    ∷ codes "temporarily unavailable"
    ∷ codes "rate limit"
    ∷ codes "circuit open"
    ∷ codes "retry"
    ∷ []

-- `permanentPatterns.some(…)`.
unfoldable pub is_permanent : Text → Bool
unfolding includes match_word
is_permanent t =
    any (includes t) permanent_texts
    || match_word false (status_code (codes "40") (digit ∷ [])) t
    || match_word false (status_code (codes "404") []) t
    || match_word false (status_code (codes "422") []) t

-- `transientPatterns.some(…)`.
unfoldable pub is_transient : Text → Bool
unfolding includes match_word
is_transient t =
    any (includes t) transient_texts
    || match_word false (status_code (codes "429") []) t
    || match_word false (status_code (codes "5") (digit ∷ digit ∷ [])) t

abbrev text_or : Text → Text → Text
text_or [] d = d
text_or (c ∷ t) d = c ∷ t

-- The error's message, or the text of what was thrown, is given.
unfoldable pub classify_job_error : Text → ErrorClassification
unfolding is_permanent is_transient trim lower
classify_job_error message =
    let m = trim message in
    if is_permanent (lower m)
    then record {
      category = permanent;
      retryable = false;
      reason = text_or m (codes "Permanent error");
    }
    else if is_transient (lower m)
    then record {
      category = transient;
      retryable = true;
      reason = text_or m (codes "Transient error");
    }
    else record { category = unknown; retryable = true; reason = text_or m (codes "Unknown error") }

unfoldable pub should_retry_error : Text → RetryState → Bool
unfolding classify_job_error
should_retry_error message r =
    if r.has_remaining_attempts then (classify_job_error message).retryable else false
