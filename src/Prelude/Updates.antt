-- ===== src/Prelude/Updates.antt =====
-- What a rewrite of the rows that pass a test does to the other ways of reading the list.

use mathlib.Core.Path.{◌≡◌, refl}
use mathlib.Core.Bool.{Bool, true, false}
use mathlib.Core.List.{List, [], ◌∷◌}
use mathlib.Core.Option.{some}
use native.Mathlib.Omega.{arith}
use music_video_generator.Prelude.Lists.{any, keep, find, update_where, count_where}

module _ {ℓ} {A : Type ℓ} (p : A → Bool) (f : A → A) (q : A → Bool) where
  -- Where every row that passes `q` is rewritten so that it does not, none is left.
  pub any-update_where :
      ((x : A) → q x ≡ true → p x ≡ true)
      → ((x : A) → p x ≡ true → q (f x) ≡ false)
      → (xs : List A) → any q (update_where p f xs) ≡ false
  any-update_where h k [] = refl
  any-update_where h k (x ∷ xs) = ground (arith, h x, k x, any-update_where h k xs)

  -- Rows that pass `q` are untouched by a rewrite of others.
  pub keep-update_where :
      ((x : A) → p x ≡ true → q x ≡ false)
      → ((x : A) → p x ≡ true → q (f x) ≡ false)
      → (xs : List A) → keep q (update_where p f xs) ≡ keep q xs
  keep-update_where h k [] = refl
  keep-update_where h k (x ∷ xs) = ground (arith, h x, k x, keep-update_where h k xs)

  -- A rewrite that keeps what `q` reads keeps the answer of `any`.
  pub any-update_where_same :
      ((x : A) → q (f x) ≡ q x) → (xs : List A) → any q (update_where p f xs) ≡ any q xs
  any-update_where_same h [] = refl
  any-update_where_same h (x ∷ xs) = ground (arith, h x, any-update_where_same h xs)

module _ {ℓ} {A : Type ℓ} (p : A → Bool) (f : A → A) where
  -- The row that is found by the test of the rewrite is the rewritten one.
  pub find-update_where :
      ((x : A) → p (f x) ≡ p x)
      → (xs : List A) (a : A) → find p xs ≡ some a
      → find p (update_where p f xs) ≡ some (f a)
  find-update_where h [] a e = ground arith
  find-update_where h (x ∷ xs) a e = ground (arith, h x, find-update_where h xs a)

module _ {ℓ} {A : Type ℓ} (p : A → Bool) (f : A → A) (q : A → Bool) where
  -- A rewrite of other rows does not change what `find` returns.
  pub find-update_where_other :
      ((x : A) → q x ≡ true → p x ≡ false)
      → ((x : A) → q (f x) ≡ q x)
      → (xs : List A) → find q (update_where p f xs) ≡ find q xs
  find-update_where_other h k [] = refl
  find-update_where_other h k (x ∷ xs) = ground (arith, h x, k x, find-update_where_other h k xs)

  -- A rewrite that makes no row pass `q` keeps the absence of such rows.
  pub any-update_where-false :
      ((x : A) → p x ≡ true → q (f x) ≡ false)
      → (xs : List A) → any q xs ≡ false
      → any q (update_where p f xs) ≡ false
  any-update_where-false h [] e = refl
  any-update_where-false h (x ∷ xs) e = ground (arith, h x, any-update_where-false h xs)

module _ {ℓ} {A : Type ℓ} (p : A → Bool) (f : A → A) where
  -- A rewrite of no row.
  pub update_where-unused : (xs : List A) → count_where p xs ≡ 0 → update_where p f xs ≡ xs
  update_where-unused [] h = refl
  update_where-unused (x ∷ xs) h = ground (arith, update_where-unused xs)
