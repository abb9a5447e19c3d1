-- ===== src/Resilience/Script.antt =====
-- modules/jobs/processors/retry.utils.ts: the contract of a script's result, and what the result
-- says.
pub mod Contract
use music_video_generator.Prelude.{
  ℕ, Bool, true, false, not, ◌&&◌, ◌||◌, Option, none, some, List, [], ◌∷◌, ◌++◌, Text, codes, trim,
  lower, text_eq, one_of, includes, truthy, or_empty, any, map, keep, is_none, if◌then◌else◌,
}
use music_video_generator.Json.{Json, arr, Items, Fields, get, strings, as_string, as_bool, payload}

pub data Issue : Type 0 where
  not_an_object bad_status bad_success bad_degraded bad_reasons bad_error_code : Issue

pub data ScriptStatus : Type 0 where
  success degraded failed unknown : ScriptStatus

-- `message`, built from the issues where the contract is broken.
pub data ScriptMessage : Type 0 where
  reported : Text → ScriptMessage
  invalid_contract : List Issue → ScriptMessage
  silent_failure silent_degradation no_message : ScriptMessage

pub record Assessment : Type 0 where
  pub normalized_status : ScriptStatus
  pub raw_status : Option Text
  pub message : ScriptMessage
  pub contract_valid : Bool
  pub contract_issues : List Issue

abbrev statuses : List Text
statuses = codes "success" ∷ codes "degraded" ∷ codes "failed" ∷ []

abbrev is_array : Option Json → Bool
is_array (some (arr xs)) = true
is_array _ = false

abbrev is_false : Option Bool → Bool
is_false (some false) = true
is_false _ = false

abbrev is_true : Option Bool → Bool
is_true (some true) = true
is_true _ = false

-- `typeof value !== 'string' || !value.trim()`.
abbrev is_blank : Option Text → Bool
unfolding trim
is_blank t = not (truthy (trim (or_empty t)))

abbrev known_status : Option Text → Bool
unfolding one_of lower
known_status none = false
known_status (some t) = one_of (lower t) statuses

abbrev issue : Bool → Issue → List Issue → List Issue
issue true i is = i ∷ is
issue false i is = is

unfoldable pub contract_issues : Fields → List Issue
unfolding get trim lower text_eq known_status is_blank
contract_issues fs =
    let status = as_string (get (codes "status") fs) in
    let ok = as_bool (get (codes "success") fs) in
    let said_failed = text_eq (trim (lower (or_empty status))) (codes "failed") || is_false ok in
    issue (not (known_status status)) bad_status (
      issue (is_none ok) bad_success (
        issue (is_none (as_bool (get (codes "degraded") fs))) bad_degraded (
          issue (not (is_array (get (codes "degradedReasons") fs))) bad_reasons (
            issue (said_failed && is_blank (as_string (get (codes "errorCode") fs))) bad_error_code
              []))))

unfoldable pub validate_script_result_contract : Json → List Issue
unfolding contract_issues
validate_script_result_contract v = elim (payload v) [
  | none ↦ not_an_object ∷ []
  | some fs ↦ contract_issues fs
]

-- The first of the four texts that is not blank.
abbrev first_text : List (Option Text) → Option Text
unfolding trim
first_text [] = none
first_text (t ∷ ts) =
    let u = trim (or_empty t) in let rest = first_text ts in if truthy u then some u else rest

abbrev texts_of : Fields → List Text → List (Option Text)
unfolding get
texts_of fs ks = map (λ k. as_string (get k fs)) ks

unfoldable pub extract_script_message : Fields → Option Text
unfolding first_text texts_of
extract_script_message fs =
    first_text
      (texts_of fs (codes "message" ∷ codes "warning" ∷ codes "error" ∷ codes "details" ∷ []))

abbrev message_or : Option Text → ScriptMessage → ScriptMessage
message_or none d = d
message_or (some t) d = reported t

abbrev raw_of : Fields → Option Text
unfolding get trim lower
raw_of fs = elim (as_string (get (codes "status") fs)) [
  | none ↦ none
  | some t ↦ some (lower (trim t))
]

abbrev raw_is : Option Text → Text → Bool
unfolding text_eq
raw_is none u = false
raw_is (some t) u = text_eq t u

abbrev passed : ScriptStatus → Option Text → ScriptMessage → Assessment
passed st raw m = record {
  normalized_status = st;
  raw_status = raw;
  message = m;
  contract_valid = true;
  contract_issues = [];
}

abbrev broken : List Issue → Option Text → Assessment
broken is raw = record {
  normalized_status = failed;
  raw_status = raw;
  message = invalid_contract is;
  contract_valid = false;
  contract_issues = is;
}

-- The ladder of tests behind the contract, over what was read of the result.
unfoldable pub assess : Option Text → Option Bool → Option Text → Assessment
unfolding raw_is
assess raw ok message =
    if raw_is raw (codes "failed") || is_false ok
    then passed failed raw (message_or message silent_failure)
    else if raw_is raw (codes "degraded")
    then passed degraded raw (message_or message silent_degradation)
    else if raw_is raw (codes "success") || is_true ok
    then passed success raw (message_or message no_message)
    else passed unknown raw (message_or message no_message)

abbrev assess_fields : List Issue → Fields → Assessment
unfolding assess raw_of extract_script_message get
assess_fields (i ∷ is) fs = broken (i ∷ is) (raw_of fs)
assess_fields [] fs =
    assess (raw_of fs) (as_bool (get (codes "success") fs)) (extract_script_message fs)

unfoldable pub assess_script_result : Json → Assessment
unfolding assess_fields contract_issues
assess_script_result v = elim (payload v) [
  | none ↦ broken (not_an_object ∷ []) none
  | some fs ↦ assess_fields (contract_issues fs) fs
]

abbrev quota_signals : List Text
quota_signals =
    codes "status code 429"
    ∷ codes "http 429"
    ∷ codes "resource_exhausted"
    ∷ codes "quota exceeded"
    ∷ codes "rate limit"
    ∷ codes "too many requests"
    ∷ []

abbrev reason_strings : Option Json → List Text
unfolding strings
reason_strings (some (arr xs)) = strings xs
reason_strings _ = []

-- `collectResultStrings`: the texts that are not blank, trimmed and in lower case.
unfoldable pub collect_result_strings : Fields → List Text
unfolding texts_of trim lower get reason_strings
collect_result_strings fs =
    let named = map or_empty (
      texts_of fs (
        codes "message"
        ∷ codes "warning"
        ∷ codes "error"
        ∷ codes "details"
        ∷ codes "_fallbackReason"
        ∷ [])) in
    map (λ t. lower (trim t))
      (keep (λ t. truthy (trim t)) (named ++ reason_strings (get (codes "degradedReasons") fs)))

unfoldable pub is_quota_degraded_result : Json → Bool
unfolding collect_result_strings includes
is_quota_degraded_result v = elim (payload v) [
  | none ↦ false
  | some fs ↦ any (λ t. any (includes t) quota_signals) (collect_result_strings fs)
]
