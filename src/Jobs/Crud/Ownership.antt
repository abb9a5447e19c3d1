-- ===== src/Jobs/Crud/Ownership.antt =====
-- Whose rows the operations of a user reach.
use music_video_generator.Prelude.{
  ℕ, ◌≤◌, Bool, true, false, not, ◌&&◌, some, List, [], ◌∷◌, ◌≡◌, refl, sym, ap, ◌∙◌, arith, ◌==◌,
  ==_iff, any, keep, find, find_passes, update_where, count_where, Option-cases, inl, inr,
}
use music_video_generator.Schema.{Job}
use music_video_generator.Outcome.{ok, err_ne_ok, ok_injective}
use music_video_generator.Backend.{Backend}
use music_video_generator.Pipeline.Store.{find_job, job_update}
use music_video_generator.Jobs.Crud.{
  UpdateJob, apply_update, owns, find_one_for_user, update_for_user, remove_for_user,
}

-- The lemmas on a test that at most one row passes.
module _ (p o : Job → Bool) where
  count-none : (xs : List Job) → count_where p xs ≡ 0 → any (λ x. p x && not (o x)) xs ≡ false
  count-none [] h = refl
  count-none (x ∷ xs) h = ground (arith, count-none xs)

  count-some : (xs : List Job) (j : Job) → find (λ x. p x && o x) xs ≡ some j → 1 ≤ count_where p xs
  count-some [] j h = ground arith
  count-some (x ∷ xs) j h = ground (arith, count-some xs j)

  only_owned :
      (xs : List Job) (j : Job)
      → count_where p xs ≤ 1
      → find (λ x. p x && o x) xs ≡ some j
      → any (λ x. p x && not (o x)) xs ≡ false
  only_owned [] j c h = refl
  only_owned (x ∷ xs) j c h = ground (arith, only_owned xs j, count-none xs, count-some xs j)

  keep-updated :
      (f : Job → Job) (xs : List Job)
      → ((x : Job) → o (f x) ≡ o x)
      → any (λ x. p x && not (o x)) xs ≡ false
      → keep (λ x. not (o x)) (update_where p f xs) ≡ keep (λ x. not (o x)) xs
  keep-updated f [] k h = refl
  keep-updated f (x ∷ xs) k h = ground (arith, k x, keep-updated f xs k)

  keep-removed :
      (xs : List Job)
      → any (λ x. p x && not (o x)) xs ≡ false
      → keep (λ x. not (o x)) (keep (λ x. not (p x)) xs) ≡ keep (λ x. not (o x)) xs
  keep-removed [] h = refl
  keep-removed (x ∷ xs) h = ground (arith, keep-removed xs)

  any-removed : (xs : List Job) → any p (keep (λ x. not (p x)) xs) ≡ false
  any-removed [] = refl
  any-removed (x ∷ xs) = ground (arith, any-removed xs)

  found-owned :
      (xs : List Job) (j : Job)
      → any (λ x. p x && not (o x)) xs ≡ false
      → find p xs ≡ some j
      → o j ≡ true
  found-owned [] j k h = ground arith
  found-owned (x ∷ xs) j k h = ground (arith, found-owned xs j)

-- The rows of projects that the user does not own.
abbrev pub foreign_jobs : (b : Backend) → ℕ → b.State → List Job → List Job
foreign_jobs b user s = keep (λ j. not (owns b j.project_id user s))

module _ (b : Backend) (id user : ℕ) (s s' : b.State) (r : Job)
    (key : count_where (λ j. j.id == id) (b.view s).jobs ≤ 1) where
  abbrev mine : Job → Bool
  mine j = owns b j.project_id user s

  others :
      (j : Job)
      → find (λ k. k.id == id && mine k) (b.view s).jobs ≡ some j
      → any (λ k. k.id == id && not (mine k)) (b.view s).jobs ≡ false
  others j e = only_owned (λ k. k.id == id) mine (b.view s).jobs j key e

  same_id : (j : Job) → find (λ k. k.id == id && mine k) (b.view s).jobs ≡ some j → j.id ≡ id
  same_id j e = ground (arith, find_passes (λ k. k.id == id && mine k) (b.view s).jobs j e)

  is_mine : (j : Job) → find (λ k. k.id == id && mine k) (b.view s).jobs ≡ some j → mine j ≡ true
  is_mine j e = ground (arith, find_passes (λ k. k.id == id && mine k) (b.view s).jobs j e)

  -- Where at most one row has the id (it is the primary key), an update by a user that succeeds
  -- returns a row of that id in a project of the user, and leaves the jobs of projects that the user
  -- does not own as they were.
  pub update_for_user-owned :
      (u : UpdateJob)
      → update_for_user b id user u s ≡ (ok r, s')
      → (r.id ≡ id)
        × (owns b r.project_id user s ≡ true)
        × (foreign_jobs b user s (b.view s').jobs ≡ foreign_jobs b user s (b.view s).jobs)
  unfolding update_for_user find_one_for_user job_update apply_update
  update_for_user-owned u h =
      elim (Option-cases (find (λ k. k.id == id && mine k) (b.view s).jobs)) [
        | inl e ↦
            absurd (err_ne_ok (ap (λ q. q.0) (rw (update_for_user, find_one_for_user, e) at h)))
        | inr (j, e) ↦
            let h₁ = rw (update_for_user, find_one_for_user, e) at h in
            let same = same_id j e in
            elim (Option-cases (find_job b j.id s)) [
              | inl n ↦ absurd (err_ne_ok (ap (λ q. q.0) (rw (job_update, n) at h₁)))
              | inr (j₀, n) ↦
                  let h₂ = rw (job_update, n) at h₁ in
                  let n' : find (λ k. k.id == id) (b.view s).jobs ≡ some j₀ =
                    ap (λ i. find (λ k. k.id == i) (b.view s).jobs) (sym same) ∙ n in
                  let rows : (b.view s').jobs
                      ≡ update_where (λ k. k.id == id) (apply_update u) (b.view s).jobs =
                    ap (λ q. (b.view q.1).jobs) (sym h₂)
                    ∙ ap (λ t. t.jobs)
                        (b.job_update_many_lem (λ k. k.id == j.id) (apply_update u) s)
                    ∙ ap (λ i. update_where (λ k. k.id == i) (apply_update u) (b.view s).jobs)
                        same in
                  let row : apply_update u j₀ ≡ r = ok_injective (ap (λ q. q.0) h₂) in
                  (
                    ap (λ x. x.id) (sym row)
                        ∙ (==_iff j₀.id id).0 (find_passes (λ k. k.id == id) _ j₀ n'),
                    ap mine (sym row)
                        ∙ found-owned (λ k. k.id == id) mine (b.view s).jobs j₀ (others j e) n',
                    rw rows (
                        keep-updated (λ k. k.id == id) mine (apply_update u) (b.view s).jobs
                          (λ x. refl) (others j e)),
                  )
            ]
      ]

  -- Where at most one row has the id, a removal by a user that succeeds returns a row of that id in a
  -- project of the user, leaves no row of the id, and leaves the jobs of projects that the user does
  -- not own as they were.
  pub remove_for_user-owned :
      remove_for_user b id user s ≡ (ok r, s')
      → (r.id ≡ id)
        × (owns b r.project_id user s ≡ true)
        × (any (λ j. j.id == id) (b.view s').jobs ≡ false)
        × (foreign_jobs b user s (b.view s').jobs ≡ foreign_jobs b user s (b.view s).jobs)
  unfolding remove_for_user find_one_for_user
  remove_for_user-owned h = elim (Option-cases (find (λ k. k.id == id && mine k) (b.view s).jobs)) [
    | inl e ↦ absurd (err_ne_ok (ap (λ q. q.0) (rw (remove_for_user, find_one_for_user, e) at h)))
    | inr (j, e) ↦
        let h₁ = rw (remove_for_user, find_one_for_user, e) at h in
        let same = same_id j e in
        let rows : (b.view s').jobs ≡ keep (λ k. not (k.id == id)) (b.view s).jobs =
          ap (λ q. (b.view q.1).jobs) (sym h₁)
          ∙ ap (λ t. t.jobs) (b.job_delete_many_lem (λ k. k.id == j.id) s)
          ∙ ap (λ n. keep (λ k. not (k.id == n)) (b.view s).jobs) same in
        let row : j ≡ r = ok_injective (ap (λ q. q.0) h₁) in
        (
          ap (λ x. x.id) (sym row) ∙ same,
          ap mine (sym row) ∙ is_mine j e,
          rw rows (any-removed (λ k. k.id == id) mine (b.view s).jobs),
          rw rows (keep-removed (λ k. k.id == id) mine (b.view s).jobs (others j e)),
        )
  ]
