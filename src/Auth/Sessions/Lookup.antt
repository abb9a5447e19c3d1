-- ===== src/Auth/Sessions/Lookup.antt =====
-- Sessions by id, through the writes of the service.
use music_video_generator.Prelude.{
  ℕ, ◌-◌, Bool, true, false, not, none, some, List, [], ◌∷◌, ◌++◌, ◌≡◌, refl, ap, arith, Text, any,
  find, keep, ltb, Bool-cases, inl, inr,
}
use music_video_generator.Env.{Environment}
use music_video_generator.Auth.Tokens.{Jwt}
use music_video_generator.Auth.Sessions.{
  AuthSession, AuthStore, Service, has_id, prunable, find_session, prune_stale_sessions_if_due,
  prune_interval_ms, retention_ms,
}

find-keep :
    (p q : AuthSession → Bool) (xs : List AuthSession) (x : AuthSession)
    → find p xs ≡ some x
    → q x ≡ true
    → find p (keep q xs) ≡ some x
find-keep p q [] x h k = ground arith
find-keep p q (y ∷ ys) x h k = ground (arith, find-keep p q ys x)

any-keep-false :
    (p q : AuthSession → Bool) (xs : List AuthSession)
    → any p xs ≡ false
    → any p (keep q xs) ≡ false
any-keep-false p q [] h = refl
any-keep-false p q (y ∷ ys) h = ground (arith, any-keep-false p q ys)

pub any_of_find_also :
    (p q : AuthSession → Bool) (xs : List AuthSession) (x : AuthSession)
    → find p xs ≡ some x
    → q x ≡ true
    → any q xs ≡ true
any_of_find_also p q [] x h k = ground arith
any_of_find_also p q (y ∷ ys) x h k = ground (arith, any_of_find_also p q ys x)

pub find-append_new :
    (p : AuthSession → Bool) (xs : List AuthSession) (x : AuthSession)
    → find p xs ≡ none
    → p x ≡ true
    → find p (xs ++ x ∷ []) ≡ some x
find-append_new p [] x h k = ground arith
find-append_new p (y ∷ ys) x h k = ground (arith, find-append_new p ys x)

-- A row that is not prunable survives the pruning.
pub prune-find :
    (a : AuthStore) (jwt : Jwt) (env : Environment) (now : ℕ) (w : Service a) (id : Text)
    (x : AuthSession)
    → find_session a id w ≡ some x
    → prunable now (now - retention_ms env) x ≡ false
    → find_session a id (prune_stale_sessions_if_due a jwt env now w) ≡ some x
unfolding prune_stale_sessions_if_due
prune-find a jwt env now w id x h k =
    elim (Bool-cases (ltb (now - w.last_prune_ms) (prune_interval_ms env))) [
      | inl early ↦ rw (prune_stale_sessions_if_due, early) h
      | inr due ↦
          rw (prune_stale_sessions_if_due, due, a.session_delete_many_lem)
            (find-keep (has_id id) (λ y. not (prunable now (now - retention_ms env) y))
              (a.sessions w.db) x h (ap not k))
    ]

pub prune-none :
    (a : AuthStore) (jwt : Jwt) (env : Environment) (now : ℕ) (w : Service a)
    (p : AuthSession → Bool)
    → any p (a.sessions w.db) ≡ false
    → any p (a.sessions (prune_stale_sessions_if_due a jwt env now w).db) ≡ false
unfolding prune_stale_sessions_if_due
prune-none a jwt env now w p h =
    elim (Bool-cases (ltb (now - w.last_prune_ms) (prune_interval_ms env))) [
      | inl early ↦ rw (prune_stale_sessions_if_due, early) h
      | inr due ↦
          rw (prune_stale_sessions_if_due, due, a.session_delete_many_lem)
            (any-keep-false p (λ y. not (prunable now (now - retention_ms env) y)) (a.sessions w.db)
              h)
    ]
