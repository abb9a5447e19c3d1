-- ===== src/Jobs/DeadLetter/Replay.antt =====
-- Whose jobs a replay touches, and what it leaves of them.
use music_video_generator.Prelude.{
  ℕ, true, false, some, ◌≡◌, refl, ap, sym, ◌==◌, ==_iff, find, find_passes, find-update_where,
  Bool-cases, Option-cases, ◌⊎◌, inl, inr,
}
use music_video_generator.Schema.{Job, is_active}
use music_video_generator.Outcome.{
  return, ◌>>◌, Outcome, ok, and_then-eq-ok, err_ne_ok, ok_injective,
}
use music_video_generator.Backend.{Backend, DeadLetter}
use music_video_generator.Pipeline.Store.{find_job}
use music_video_generator.Pipeline.Store.Effects.{job_update_eq}
use music_video_generator.Jobs.Crud.{owns, assert_project_ownership}
use music_video_generator.Jobs.DeadLetter.{
  update_job_data, ReplayResult, already_active, replayed, reset_job, replay_job, replay_for_user,
}

module _ (b : Backend) (dispatch_job : Job → b.State → Outcome (Unit {0}) × b.State) where
  -- What a replay that is answered has found: the entry, its project, which the user owns, and the
  -- original job.
  pub record IsAllowed (id user : ℕ) (s : b.State) (j : Job) : Type 0 where
    pub entry : DeadLetter
    pub project : ℕ
    pub job : ℕ
    pub found : find (λ d. d.id == id) (b.view s).dead_letters ≡ some entry
    pub has_project : entry.project_id ≡ some project
    pub has_job : entry.job_id ≡ some job
    pub owned : owns b project user s ≡ true
    pub original : find_job b job s ≡ some j

  replay_for_user_steps :
      (id user : ℕ) (s s' : b.State) (r : ReplayResult)
      → replay_for_user b dispatch_job id user s ≡ (ok r, s')
      → (j : Job) × IsAllowed id user s j × (replay_job b dispatch_job id j s ≡ (ok r, s'))
  unfolding replay_for_user assert_project_ownership
  replay_for_user_steps id user s s' r h =
      elim (Option-cases (find (λ d. d.id == id) (b.view s).dead_letters)) [
        | inl e ↦ absurd (err_ne_ok (ap (λ x. x.0) (rw (replay_for_user, e) at h)))
        | inr (d, e) ↦ elim (Option-cases d.project_id) [
          | inl e' ↦ absurd (err_ne_ok (ap (λ x. x.0) (rw (replay_for_user, e, e') at h)))
          | inr (pid, e') ↦ elim (Bool-cases (owns b pid user s)) [
            | inr e₂ ↦ absurd (
                err_ne_ok
                  (ap (λ x. x.0) (rw (replay_for_user, e, e', assert_project_ownership, e₂) at h)))
            | inl e₂ ↦ elim (Option-cases d.job_id) [
              | inl e₃ ↦ absurd (
                  err_ne_ok (
                    ap (λ x. x.0)
                      (rw (replay_for_user, e, e', assert_project_ownership, e₂, e₃) at h)))
              | inr (job, e₃) ↦ elim (Option-cases (find_job b job s)) [
                | inl e₄ ↦ absurd (
                    err_ne_ok (
                      ap (λ x. x.0)
                        (rw (replay_for_user, e, e', assert_project_ownership, e₂, e₃, e₄) at h)))
                | inr (j, e₄) ↦ (
                  j,
                  record {
                    entry = d;
                    project = pid;
                    job = job;
                    found = e;
                    has_project = e';
                    has_job = e₃;
                    owned = e₂;
                    original = e₄;
                  },
                  rw (replay_for_user, e, e', assert_project_ownership, e₂, e₃, e₄) at h,
                )
              ]
            ]
          ]
        ]
      ]

  -- The job whose row is reset is dispatched as it then stands.
  replay_job_reset :
      (id : ℕ) (j : Job) (s s' : b.State) (r : ReplayResult)
      → find_job b j.id s ≡ some j
      → is_active j.status ≡ false
      → replay_job b dispatch_job id j s ≡ (ok r, s')
      → (r ≡ replayed id (reset_job j))
        × ((s₁ : b.State) × (find_job b j.id s₁ ≡ some (reset_job j))
            × ((dispatch_job (reset_job j) s₁).0 ≡ ok tt))
  unfolding replay_job update_job_data
  replay_job_reset id j s s' r f e h =
      let s₁ = b.job_update_many (λ k. k.id == j.id) reset_job s in
      let h' = rw (replay_job, e, job_update_eq b j.id reset_job s j f) at h in
      let (_, s₂, sent, h₂) =
        and_then-eq-ok (λ _ w. (do update_job_data b id j.id; return (replayed id (reset_job j))) w)
          (dispatch_job (reset_job j) s₁) h' in
      let v = b.job_update_many_lem (λ k. k.id == j.id) reset_job s in
      (
        sym (ok_injective (ap (λ x. x.0) h₂)),
        (
          s₁,
          rw v (find-update_where (λ k. k.id == j.id) reset_job (λ k. refl) (b.view s).jobs j f),
          ap (λ x. x.0) sent,
        ),
      )

  -- A replay that is answered has found a dead-letter entry with a project that the user owns, and
  -- the entry's job. Where that job is pending or processing the answer says so and nothing is
  -- written; else the answer is the job, reset to pending with no error and no worker, and the job
  -- was dispatched so, without an error, from tables in which its row is reset.
  pub replay_for_user-owned :
      (id user : ℕ) (s s' : b.State) (r : ReplayResult)
      → replay_for_user b dispatch_job id user s ≡ (ok r, s')
      → (j : Job) × IsAllowed id user s j
        × (((is_active j.status ≡ true) × (r ≡ already_active j.id j.status) × (s' ≡ s))
            ⊎ ((is_active j.status ≡ false)
                × (r ≡ replayed id (reset_job j))
                × ((s₁ : b.State) × (find_job b j.id s₁ ≡ some (reset_job j))
                    × ((dispatch_job (reset_job j) s₁).0 ≡ ok tt))))
  unfolding replay_for_user replay_job
  replay_for_user-owned id user s s' r h =
      let (j, allowed, h') = replay_for_user_steps id user s s' r h in
      let same : j.id ≡ allowed.job =
        (==_iff j.id allowed.job).0 (find_passes (λ k. k.id == allowed.job) _ j allowed.original) in
      (
        j,
        allowed,
        elim (Bool-cases (is_active j.status)) [
          | inl e ↦
              let h₁ = rw (replay_job, e) at h' in
              inl (e, sym (ok_injective (ap (λ x. x.0) h₁)), sym (ap (λ x. x.1) h₁))
          | inr e ↦
              let (answer, sent) = replay_job_reset id j s s' r (rw same allowed.original) e h' in
              inr (e, answer, sent)
        ],
      )
