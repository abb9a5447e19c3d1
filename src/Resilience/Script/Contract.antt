-- ===== src/Resilience/Script/Contract.antt =====
-- What the assessment of a script's result rests on.
use music_video_generator.Prelude.{
  Bool, true, false, Option, none, some, List, [], ◌∷◌, Text, codes, ◌≡◌, ◌≢◌, refl, arith, is_none,
  Option-cases, inl, inr, sym, ap, ◌∙◌,
}
use mathlib.Core.Bool.{false≢true}
use music_video_generator.Json.{Json, Fields, get, as_bool, payload}
use music_video_generator.Resilience.Script.{
  failed, unknown, validate_script_result_contract, Issue, issue, raw_of, extract_script_message,
  contract_issues, assess, assess_fields, assess_script_result,
}

issue-nil : (t : Bool) (i : Issue) (is : List Issue) → issue t i is ≡ [] → (t ≡ false) × (is ≡ [])
issue-nil true i is h = absurd (cons_ne_nil h)
  where
    cons_ne_nil : {A : Type 0} {a : A} {l : List A} → a ∷ l ≡ [] → ⊥
    cons_ne_nil h = cc
issue-nil false i is h = (refl, h)

-- The contract asks for a boolean `success`.
contract_issues_success :
    (fs : Fields) → contract_issues fs ≡ [] → as_bool (get (codes "success") fs) ≢ none
unfolding contract_issues
contract_issues_success fs h e =
    let rest = (issue-nil _ _ _ h).1 in
    let here = (issue-nil _ _ _ rest).0 in false≢true (sym here ∙ ap is_none e)

assess_ne_unknown :
    (raw : Option Text) (ok : Option Bool) (m : Option Text)
    → ok ≢ none
    → ((assess raw ok m).normalized_status ≢ unknown)
      × ((assess raw ok m).normalized_status ≢ failed → ok ≡ some true)
unfolding assess
assess_ne_unknown raw none m h = absurd (h refl)
assess_ne_unknown raw (some true) m h = (ground arith, λ n. refl)
assess_ne_unknown raw (some false) m h = (ground arith, λ n. absurd (n (ground arith)))

assess_fields_cases :
    (is : List Issue) (fs : Fields)
    → (is ≡ [] → as_bool (get (codes "success") fs) ≢ none)
    → ((assess_fields is fs).normalized_status ≢ unknown)
      × ((assess_fields is fs).normalized_status ≢ failed
          → (is ≡ []) × (as_bool (get (codes "success") fs) ≡ some true))
unfolding assess_fields assess
assess_fields_cases [] fs h =
    let r =
      assess_ne_unknown (raw_of fs) (as_bool (get (codes "success") fs)) (extract_script_message fs)
        (h refl) in
    (r.0, λ n. (refl, r.1 n))
assess_fields_cases (i ∷ is) fs h = (ground arith, λ n. absurd (n refl))

-- The assessment of the result of a script is never `unknown`, whatever the result. Where it is not
-- `failed`, the result is an object that meets the contract, and its `success` is true.
pub assess_script_result_sound :
    (v : Json)
    → ((assess_script_result v).normalized_status ≢ unknown)
      × ((assess_script_result v).normalized_status ≢ failed
          → (validate_script_result_contract v ≡ [])
            × ((fs : Fields) × (payload v ≡ some fs)
                × (as_bool (get (codes "success") fs) ≡ some true)))
unfolding assess_script_result validate_script_result_contract
assess_script_result_sound v = elim (Option-cases (payload v)) [
  | inl e ↦
      rw (assess_script_result, validate_script_result_contract, e)
        (ground arith, λ n. absurd (n refl))
  | inr (fs, e) ↦
      let r = assess_fields_cases (contract_issues fs) fs (contract_issues_success fs) in
      rw (assess_script_result, validate_script_result_contract, e)
        (r.0, λ n. ((r.1 n).0, (fs, refl, (r.1 n).1)))
]
