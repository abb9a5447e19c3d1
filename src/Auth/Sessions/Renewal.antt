-- ===== src/Auth/Sessions/Renewal.antt =====
-- What a rotation leaves: a session that the token of the answer refreshes.
use music_video_generator.Prelude.{
  ℕ, ◌+◌, ◌-◌, ◌*◌, ◌/◌, ◌<◌, true, false, none, some, ◌≡◌, refl, sym, ap, subst, ◌∙◌, arith, Text,
  text_eq, text_eq-eq, lower, lower_idem, find, find-update_where, update_where, find_passes,
}
use music_video_generator.Json.{Fields, get, put}
use music_video_generator.Outcome.{◌>>◌, return, ok, ok_injective, from-eq-ok}
use music_video_generator.Env.{Environment}
use music_video_generator.Auth.Settings.{is_uuid, refresh_expiry}
use music_video_generator.Auth.Tokens.{
  Jwt, issued, refresh_claims, sign_access_token, sign_refresh_token, verify_refresh_token,
  hash_token,
}
use music_video_generator.Auth.Tokens.Signing.{
  names_user, reads_user, resolved_user_is_uuid, verify_refresh_token-sign_refresh_token,
  resolve_by_sub,
}
use music_video_generator.Auth.Sessions.{
  AuthSession, AuthStore, SessionContext, TokenPair, Service, has_id, rotated, prunable,
  session_id_of, retention_ms, extract_expiry_date, find_session, rotate, refresh_session,
  update_sessions, pair_of, prune, prune_stale_sessions_if_due,
}
use music_video_generator.Auth.Sessions.Lookup.{prune-find}
use music_video_generator.Auth.Sessions.Rotation.{
  session_id_is_uuid, Names, IsCurrent, refresh_session_named,
}

module _ (a : AuthStore) (jwt : Jwt) (env : Environment) (now : ℕ) where
  -- The time of expiry of a refresh token that is signed now.
  abbrev pub expiry_ms : ℕ
  expiry_ms = (now / 1000 + jwt.lifetime (refresh_expiry env)) * 1000

  pub expiry_is_later : 0 < jwt.lifetime (refresh_expiry env) → now < expiry_ms
  expiry_is_later h = omega (arith)

  module _ (user sid token : Text) (claim : names_user env ≡ true)
      (lives : 0 < jwt.lifetime (refresh_expiry env))
      (signed : sign_refresh_token jwt env user sid now ≡ ok token) where
    pub signed-verifies :
        (now' : ℕ)
        → now' / 1000 < now / 1000 + jwt.lifetime (refresh_expiry env)
        → verify_refresh_token jwt env token now'
          ≡ ok (issued (refresh_claims jwt env user sid) now (jwt.lifetime (refresh_expiry env)))
    signed-verifies now' early =
        verify_refresh_token-sign_refresh_token jwt env now now' token user sid signed early

    pub signed-Names :
        (now' : ℕ)
        → now' / 1000 < now / 1000 + jwt.lifetime (refresh_expiry env)
        → is_uuid user ≡ true
        → is_uuid sid ≡ true
        → Names a jwt env now' token user sid
    unfolding session_id_of get put
    signed-Names now' early u s = record {
      claims = issued (refresh_claims jwt env user sid) now (jwt.lifetime (refresh_expiry env));
      verifies = signed-verifies now' early;
      of_user =
          resolve_by_sub jwt env user now 0 _
            (reads_user jwt env user now (jwt.lifetime (refresh_expiry env)) sid claim) refl u;
      of_session = rw (session_id_of, s) refl;
    }

    -- The expiry that the service reads back from the token that it signed.
    pub signed_expires :
        (fs : Fields) (expires : ℕ)
        → verify_refresh_token jwt env token now ≡ ok fs
        → extract_expiry_date fs ≡ ok expires
        → expires ≡ expiry_ms
    unfolding extract_expiry_date get put
    signed_expires fs expires v e =
        let same : fs
            ≡ issued (refresh_claims jwt env user sid) now (jwt.lifetime (refresh_expiry env)) =
          ok_injective (sym v ∙ signed-verifies now (omega (arith, lives))) in
        sym (ok_injective (rw (same) at e))

  pub fresh_is_not_prunable :
      (x : AuthSession)
      → now < x.expires_at
      → x.revoked_at ≡ none
      → prunable now (now - retention_ms env) x ≡ false
  unfolding text_eq
  fresh_is_not_prunable x later unrevoked = ground arith

  -- The end of a rotation: the row takes the hash and the expiry of the next token.
  stored_rotation :
      (user sid access next : Text) (expires : ℕ) (context : SessionContext) (x : AuthSession)
      (w w' : Service a) (pair : TokenPair)
      → find_session a sid w ≡ some x
      → now < expires
      → (update_sessions a (has_id x.id) (rotated (hash_token jwt env next) expires context)
            >> (prune a jwt env now >> return (pair_of a jwt env now user access next)))
          w
        ≡ (ok pair, w')
      → (next ≡ pair.refresh_token)
        × (find_session a sid w' ≡ some (rotated (hash_token jwt env next) expires context x))
  unfolding prune_stale_sessions_if_due prune
  stored_rotation user sid access next expires context x w w' pair found later h =
      let renew : AuthSession → AuthSession = rotated (hash_token jwt env next) expires context in
      let new : AuthSession = renew x in
      let w₁ : Service a = record w { db = a.session_update_many (has_id x.id) renew w.db } in
      let same : lower x.id ≡ lower sid =
        ap lower (text_eq-eq x.id (lower sid) (find_passes (has_id sid) (a.sessions w.db) x found))
        ∙ lower_idem sid in
      let there : find_session a sid w₁ ≡ some new = rw (a.session_update_many_lem) (
        subst
          (λ i.
            find (has_id sid) (update_where (λ y. text_eq y.id i) renew (a.sessions w.db))
            ≡ some new)
          (sym same)
          (find-update_where (has_id sid) renew (λ y. refl) (a.sessions w.db) x found)) in
      let kept = prune-find a jwt env now w₁ sid new there (fresh_is_not_prunable new later refl) in
      let final : prune_stale_sessions_if_due a jwt env now w₁ ≡ w' = ap (λ q. q.1) h in
      (ap (λ p. p.refresh_token) (ok_injective (ap (λ q. q.0) h)), rw (sym final) kept)

  rotated_is_found :
      (user sid : Text) (context : SessionContext) (x : AuthSession) (w w' : Service a)
      (pair : TokenPair)
      → names_user env ≡ true
      → 0 < jwt.lifetime (refresh_expiry env)
      → find_session a sid w ≡ some x
      → rotate a jwt env now user sid context x w ≡ (ok pair, w')
      → (sign_refresh_token jwt env user sid now ≡ ok pair.refresh_token)
        × (find_session a sid w'
            ≡ some (rotated (hash_token jwt env pair.refresh_token) expiry_ms context x))
  unfolding rotate
  rotated_is_found user sid context x w w' pair claim lives found h =
      let (access, _, h₁) = from-eq-ok (sign_access_token jwt env user now) _ w h in
      let (next, signed, h₂) = from-eq-ok (sign_refresh_token jwt env user sid now) _ w h₁ in
      let (fs, v, h₃) = from-eq-ok (verify_refresh_token jwt env next now) _ w h₂ in
      let (expires, e, h₄) = from-eq-ok (extract_expiry_date fs) _ w h₃ in
      let at_expiry : expires ≡ expiry_ms =
        signed_expires user sid next claim lives signed fs expires v e in
      let later : now < expires = rw (at_expiry) (expiry_is_later lives) in
      let (named, stored) =
        stored_rotation user sid access next expires context x w w' pair found later h₄ in
      (
        signed ∙ ap ok named,
        stored
            ∙ ap some (
                subst
                  (λ t.
                    rotated (hash_token jwt env next) expires context x
                    ≡ rotated (hash_token jwt env t) expiry_ms context x)
                  named (ap (λ t. rotated (hash_token jwt env next) t context x) at_expiry)),
      )

  -- The row of a session under the token that it was signed for.
  pub IsCurrent-fresh :
      (w : Service a) (user sid token : Text) (x : AuthSession)
      → 0 < jwt.lifetime (refresh_expiry env)
      → find_session a sid w ≡ some x
      → x.user_id ≡ user
      → x.revoked_at ≡ none
      → x.expires_at ≡ expiry_ms
      → x.token_hash ≡ hash_token jwt env token
      → IsCurrent a jwt env now w token user sid x
  IsCurrent-fresh w user sid token x lives found owner unrevoked expires hash = record {
    found = found;
    owner = owner;
    not_revoked = unrevoked;
    not_expired = rw (expires) (expiry_is_later lives);
    latest = sym hash;
  }

  -- A refresh answers with a refresh token that names the same user and session and is current for
  -- it, and the session expires with the token, where the user claim is `sub` and refresh tokens live
  -- a second at least.
  pub refresh_session-renews :
      (token user sid : Text) (context : SessionContext) (w w' : Service a) (pair : TokenPair)
      → names_user env ≡ true
      → 0 < jwt.lifetime (refresh_expiry env)
      → Names a jwt env now token user sid
      → refresh_session a jwt env now token context w ≡ (ok pair, w')
      → (x : AuthSession) × Names a jwt env now pair.refresh_token user sid
        × IsCurrent a jwt env now w' pair.refresh_token user sid x
        × (x.expires_at ≡ (now / 1000 + jwt.lifetime (refresh_expiry env)) * 1000)
  refresh_session-renews token user sid context w w' pair claim lives n h =
      let (x, current, r) =
        refresh_session_named a jwt env now token user sid context w w' pair n h in
      let (signed, stored) =
        rotated_is_found user sid context x w w' pair claim lives current.found r in
      let next : AuthSession =
        rotated (hash_token jwt env pair.refresh_token) expiry_ms context x in
      (
        next,
        signed-Names user sid pair.refresh_token claim lives signed now (omega (arith, lives))
            (resolved_user_is_uuid env n.claims user n.of_user)
            (session_id_is_uuid n.claims sid n.of_session),
        IsCurrent-fresh w' user sid pair.refresh_token next lives stored current.owner refl refl
            refl,
        refl,
      )
