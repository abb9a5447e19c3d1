-- ===== src/Events/Metrics/Tallies.antt =====
-- A tally against the number of records of each type.
use music_video_generator.Prelude.{
  ℕ, zero, suc, true, false, Option, none, some, [], ◌∷◌, ◌≡◌, refl, sym, ap, ◌∙◌, Text, text_eq,
  text_eq-eq, text_eq_refl, if◌then◌else◌, Bool-cases, inl, inr,
}
use music_video_generator.Events.Metrics.{
  Cell, counted, appended, Tally, bump, bump_own, is_inherited, is_prototype, next_cell, first_cell,
}

-- The own entry of a key.
unfoldable pub cell_at : Text → Tally → Option Cell
unfolding text_eq
cell_at t [] = none
cell_at t ((u, c) ∷ counts) = let rest = cell_at t counts in if text_eq u t then some c else rest

-- What `n` records of a type leave under it: their number, or, under an inherited key, a text with `n`
-- digits behind it, or nothing under the key of the prototype.
unfoldable pub cell_of : Text → ℕ → Option Cell
cell_of t zero = none
cell_of t (suc n) =
    if is_prototype t
    then none
    else if is_inherited t
    then some (appended (suc n))
    else some (counted (suc n))

-- A number of records that leave a number.
abbrev pub number : ℕ → Option Cell
number zero = none
number (suc n) = some (counted (suc n))

pub cell_of-ordinary :
    (t : Text) (n : ℕ) → is_prototype t ≡ false → is_inherited t ≡ false → cell_of t n ≡ number n
unfolding cell_of
cell_of-ordinary t zero p h = refl
cell_of-ordinary t (suc n) p h = rw (p, h) refl

bump_own-other :
    (t u : Text) (counts : Tally)
    → text_eq u t ≡ false
    → cell_at t (bump_own u counts) ≡ cell_at t counts
unfolding cell_at bump_own
bump_own-other t u [] h = rw (h) refl
bump_own-other t u ((v, c) ∷ counts) h = elim (Bool-cases (text_eq v u)) [
  | inl same ↦ let e : v ≡ u = text_eq-eq v u same in rw (same, e, h) refl
  | inr other ↦ elim (Bool-cases (text_eq v t)) [
    | inl found ↦ rw (other, found) refl
    | inr rest ↦ rw (other, rest) (bump_own-other t u counts h)
  ]
]

-- The entry that one more record leaves.
abbrev bumped : Text → Option Cell → Cell
bumped t none = first_cell t
bumped t (some c) = next_cell c

bump_own-same :
    (t : Text) (counts : Tally) → cell_at t (bump_own t counts) ≡ some (bumped t (cell_at t counts))
unfolding cell_at bump_own
bump_own-same t [] = rw (text_eq_refl t) refl
bump_own-same t ((v, c) ∷ counts) = elim (Bool-cases (text_eq v t)) [
  | inl same ↦ rw (same, same) refl
  | inr other ↦ rw (other, other) (bump_own-same t counts)
]

bumped-cell_of :
    (t : Text) (n : ℕ) → is_prototype t ≡ false → some (bumped t (cell_of t n)) ≡ cell_of t (suc n)
unfolding cell_of
bumped-cell_of t n p = elim (Bool-cases (is_inherited t)) [
  | inl function ↦ inherited n function
  | inr ordinary ↦ plain n ordinary
]
  where
    inherited : (n : ℕ) → is_inherited t ≡ true → some (bumped t (cell_of t n)) ≡ cell_of t (suc n)
    inherited zero h = rw (p, h) refl
    inherited (suc n) h = rw (p, h) refl

    plain : (n : ℕ) → is_inherited t ≡ false → some (bumped t (cell_of t n)) ≡ cell_of t (suc n)
    plain zero h = rw (p, h) refl
    plain (suc n) h = rw (p, h) refl

cell_of_prototype : (t : Text) (n : ℕ) → is_prototype t ≡ true → cell_of t n ≡ none
unfolding cell_of
cell_of_prototype t zero p = refl
cell_of_prototype t (suc n) p = rw (p) refl

-- A record under a type adds one to what is found under it, and changes no other entry.
pub cell_at-bump :
    (t u : Text) (n : ℕ) (counts : Tally)
    → cell_at t counts ≡ cell_of t n
    → cell_at t (bump u counts) ≡ cell_of t (if text_eq u t then suc n else n)
unfolding bump
cell_at-bump t u n counts h = elim (Bool-cases (text_eq u t)) [
  | inl same ↦
      let e : u ≡ t = text_eq-eq u t same in
      elim (Bool-cases (is_prototype t)) [
        | inl p ↦
            rw (same, bump, e, p)
              (h ∙ cell_of_prototype t n p ∙ sym (cell_of_prototype t (suc n) p))
        | inr p ↦
            rw (same, bump, e, p)
              (bump_own-same t counts ∙ ap (λ o. some (bumped t o)) h ∙ bumped-cell_of t n p)
      ]
  | inr other ↦ elim (Bool-cases (is_prototype u)) [
    | inl p ↦ rw (other, bump, p) h
    | inr p ↦ rw (other, bump, p) (bump_own-other t u counts other ∙ h)
  ]
]
