-- ===== src/Pipeline/Reconciliation/Duplicates.antt =====
-- The loop that finds duplicate active stages, against a count of the active jobs of a stage.
use music_video_generator.Prelude.{
  ℕ, ◌+◌, ◌≤◌, Bool, true, ◌&&◌, List, [], ◌∷◌, ◌≡◌, refl, ap, arith, ◌==◌, any, keep, update_where,
  count_where, All, if◌then◌else◌, Bool-cases, inl, inr, ==_refl,
}
use music_video_generator.Schema.{Job, JobType, same_type, same_type-eq, is_active}
use music_video_generator.Pipeline.Store.{in_pipeline}
use music_video_generator.Pipeline.Reconciliation.{duplicate_ids, cancel_duplicate, in_ids}

abbrev pub active_of : JobType → Job → Bool
active_of t j = same_type t j.type && is_active j.status

-- An active job of stage `t` in the pipeline of project `pid`.
abbrev pub active_stage : ℕ → JobType → Job → Bool
active_stage pid t j = in_pipeline pid j && active_of t j

pub same_type_refl : (t : JobType) → same_type t t ≡ true
unfolding same_type
same_type_refl t = ground arith

-- No job is cancelled if no id is a duplicate.
pub update_where-none : (xs : List Job) → update_where (in_ids []) cancel_duplicate xs ≡ xs
update_where-none [] = refl
update_where-none (x ∷ xs) = ap (λ l. x ∷ l) (update_where-none xs)

pub All-any_self :
    (ids more : List ℕ)
    → All (λ i. any (λ k. k == i) more ≡ true) ids
    → (j : ℕ) → All (λ i. any (λ k. k == i) (j ∷ more) ≡ true) ids
All-any_self [] more h j = tt
All-any_self (i ∷ ids) more h j = (ground arith, All-any_self ids more h.1 j)

pub ids_in_self : (ids : List ℕ) → All (λ i. any (λ k. k == i) ids ≡ true) ids
ids_in_self [] = tt
ids_in_self (i ∷ ids) = (rw (==_refl i) refl, All-any_self ids ids (ids_in_self ids) i)

-- Once the duplicates are cancelled, each stage has at most one active job, and none if it was seen.
pub count-cancelled :
    (pid : ℕ) (t : JobType) (jobs : List Job) (seen : List JobType) (ids : List ℕ)
    → All (λ i. any (λ k. k == i) ids ≡ true) (duplicate_ids seen (keep (in_pipeline pid) jobs))
    → count_where (active_stage pid t) (update_where (in_ids ids) cancel_duplicate jobs)
      ≤ (if any (same_type t) seen then 0 else 1)
unfolding duplicate_ids
count-cancelled pid t [] seen ids h = ground arith
count-cancelled pid t (j ∷ jobs) seen ids h = elim (Bool-cases (in_pipeline pid j)) [
  | inl mine ↦ elim (Bool-cases (is_active j.status)) [
    | inl live ↦ elim (Bool-cases (any (same_type j.type) seen)) [
      | inl old ↦
          let h' = rw (mine, live, old) at h in
          ground (arith, h'.0, count-cancelled pid t jobs seen ids h'.1)
      | inr new ↦
          let h' = rw (mine, live, new) at h in
          ground (
            arith,
            same_type-eq t j.type,
            same_type_refl t,
            count-cancelled pid t jobs (j.type ∷ seen) ids h',
          )
    ]
    | inr dead ↦
        let h' = rw (mine, dead) at h in ground (arith, count-cancelled pid t jobs seen ids h')
  ]
  | inr other ↦ let h' = rw other at h in ground (arith, count-cancelled pid t jobs seen ids h')
]

-- Where no stage has two active jobs the loop finds nothing.
pub duplicate_ids-eq-nil :
    (pid : ℕ) (jobs : List Job) (seen : List JobType)
    → ((t : JobType)
        → count_where (active_stage pid t) jobs + (if any (same_type t) seen then 1 else 0) ≤ 1)
    → duplicate_ids seen (keep (in_pipeline pid) jobs) ≡ []
unfolding duplicate_ids
duplicate_ids-eq-nil pid [] seen h = refl
duplicate_ids-eq-nil pid (j ∷ jobs) seen h = elim (Bool-cases (in_pipeline pid j)) [
  | inl mine ↦ elim (Bool-cases (is_active j.status)) [
    | inl live ↦ elim (Bool-cases (any (same_type j.type) seen)) [
      | inl old ↦ absurd (ground (arith, h j.type, same_type_refl j.type))
      | inr new ↦
          rw (mine, live, new)
            (duplicate_ids-eq-nil pid jobs (j.type ∷ seen)
              (λ t. ground (arith, h t, same_type-eq t j.type)))
    ]
    | inr dead ↦ rw (mine, dead) (duplicate_ids-eq-nil pid jobs seen (λ t. ground (arith, h t)))
  ]
  | inr other ↦ rw other (duplicate_ids-eq-nil pid jobs seen (λ t. ground (arith, h t)))
]
