-- ===== src/Auth/Sessions/Logins.antt =====
-- What a login leaves: a session that the token of the answer refreshes, where the user id is in lower
-- case.
use music_video_generator.Prelude.{
  ℕ, ◌+◌, ◌/◌, ◌<◌, true, false, ◌&&◌, none, some, ◌≡◌, refl, sym, ap, subst, ◌∙◌, arith, Text,
  codes, trim, truthy, or_empty, text_eq, text_eq_refl, lower, if◌then◌else◌, Bool-cases, inl, inr,
}
use music_video_generator.Outcome.{
  ok, err, invalid_refresh_session, err_ne_ok, ok_injective, from-eq-ok, and_then-eq-ok,
}
use music_video_generator.Env.{Environment}
use music_video_generator.Auth.Settings.{
  LoginDev, is_uuid, env_user_id, default_user_id, refresh_expiry, assert_dev_auth_endpoint_allowed,
  resolve_dev_user_id,
}
use music_video_generator.Auth.Tokens.{
  Jwt, sign_access_token, sign_refresh_token, verify_refresh_token, hash_token,
}
use music_video_generator.Auth.Tokens.Signing.{names_user}
use music_video_generator.Auth.Sessions.{
  AuthSession, AuthStore, SessionContext, TokenPair, Service, stored_row, check_session, has_id,
  extract_expiry_date, find_session, refresh_session, login_dev, issue_token_pair, new_session,
  pair_of, prune, prune_stale_sessions_if_due,
}
use music_video_generator.Auth.Sessions.Lookup.{prune-find, find-append_new}
use music_video_generator.Auth.Sessions.Rotation.{Names, IsCurrent}
use music_video_generator.Auth.Sessions.Renewal.{
  signed_expires, expiry_is_later, fresh_is_not_prunable, signed-Names, IsCurrent-fresh, expiry_ms,
}

default_user_id-is_uuid : is_uuid default_user_id ≡ true
unfolding is_uuid
default_user_id-is_uuid = refl

uuid_or_default :
    (id : Text) → is_uuid (if truthy id && is_uuid id then id else default_user_id) ≡ true
uuid_or_default id = elim (Bool-cases (is_uuid id)) [
  | inl valid ↦ elim (Bool-cases (truthy id)) [
    | inl given ↦ rw (valid, given) valid
    | inr absent ↦ rw (absent) default_user_id-is_uuid
  ]
  | inr invalid ↦ elim (Bool-cases (truthy id)) [
    | inl given ↦ rw (invalid, given) default_user_id-is_uuid
    | inr absent ↦ rw (absent) default_user_id-is_uuid
  ]
]

env_user_id-is_uuid : (env : Environment) → is_uuid (env_user_id env) ≡ true
unfolding env_user_id
env_user_id-is_uuid env = uuid_or_default (trim (or_empty (env.variable (codes "DEV_USER_ID"))))

-- A development user is a UUID.
resolve_dev_user_id-is_uuid :
    (env : Environment) (dto : LoginDev) (user : Text)
    → resolve_dev_user_id env dto ≡ ok user
    → is_uuid user ≡ true
unfolding resolve_dev_user_id
resolve_dev_user_id-is_uuid env dto user h =
    elim (Bool-cases (truthy (trim (or_empty dto.user_id)))) [
      | inl given ↦ elim (Bool-cases (is_uuid (trim (or_empty dto.user_id)))) [
        | inl valid ↦
            let same : trim (or_empty dto.user_id) ≡ user =
              ok_injective (rw (resolve_dev_user_id, given, valid) at h) in
            rw (sym same) valid
        | inr invalid ↦ absurd (err_ne_ok (rw (resolve_dev_user_id, given, invalid) at h))
      ]
      | inr absent ↦
          let same : env_user_id env ≡ user =
            ok_injective (rw (resolve_dev_user_id, absent) at h) in
          rw (sym same) (env_user_id-is_uuid env)
    ]

module _ (a : AuthStore) (jwt : Jwt) (env : Environment) (now : ℕ) where
  issued_is_found :
      (user sid : Text) (context : SessionContext) (w w' : Service a) (pair : TokenPair)
      → names_user env ≡ true
      → 0 < jwt.lifetime (refresh_expiry env)
      → find_session a sid w ≡ none
      → issue_token_pair a jwt env now sid context user w ≡ (ok pair, w')
      → (sign_refresh_token jwt env user sid now ≡ ok pair.refresh_token)
        × (pair.user_id ≡ user)
        × (find_session a sid w'
            ≡ some (
                stored_row (
                  new_session a jwt env now sid user
                    (hash_token jwt env pair.refresh_token)
                    (expiry_ms a jwt env now)
                    context)))
  unfolding issue_token_pair
  issued_is_found user sid context w w' pair claim lives unused h =
      let (access, _, h₁) = from-eq-ok (sign_access_token jwt env user now) _ w h in
      let (next, signed, h₂) = from-eq-ok (sign_refresh_token jwt env user sid now) _ w h₁ in
      let (fs, v, h₃) = from-eq-ok (verify_refresh_token jwt env next now) _ w h₂ in
      let (expires, e, h₄) = from-eq-ok (extract_expiry_date fs) _ w h₃ in
      let at_expiry : expires ≡ (expiry_ms a jwt env now) =
        signed_expires a jwt env now user sid next claim lives signed fs expires v e in
      let answer : pair_of a jwt env now user access next ≡ pair =
        ok_injective (ap (λ q. q.0) h₄) in
      let named : next ≡ pair.refresh_token = ap (λ p. p.refresh_token) answer in
      let row : Text → ℕ → AuthSession =
        λ t n. stored_row (new_session a jwt env now sid user (hash_token jwt env t) n context) in
      let fresh : AuthSession =
        new_session a jwt env now sid user (hash_token jwt env next) expires context in
      let there : find_session a sid (record w { db = a.session_create fresh w.db })
          ≡ some (row next expires) =
        rw (a.session_create_lem) (
          find-append_new (has_id sid) (a.sessions w.db) (row next expires) unused
            (text_eq_refl (lower sid))) in
      let final : record w { db = a.session_create fresh w.db } ≡ w' = ap (λ q. q.1) h₄ in
      (
        signed ∙ ap ok named,
        sym (ap (λ p. p.user_id) answer),
        subst (λ s. find_session a sid s ≡ some (row next expires)) final there
            ∙ ap some (ap (row next) at_expiry ∙ ap (λ t. row t (expiry_ms a jwt env now)) named),
      )

  login_ends :
      (user sid : Text) (context : SessionContext) (w w' : Service a) (made pair : TokenPair)
      → 0 < jwt.lifetime (refresh_expiry env)
      → find_session a sid w
        ≡ some (
            stored_row (
              new_session a jwt env now sid user
                (hash_token jwt env made.refresh_token)
                (expiry_ms a jwt env now)
                context))
      → made.user_id ≡ user
      → made ≡ pair
      → prune_stale_sessions_if_due a jwt env now w ≡ w'
      → sign_refresh_token jwt env user sid now ≡ ok made.refresh_token
      → is_uuid user ≡ true
      → (sign_refresh_token jwt env pair.user_id sid now ≡ ok pair.refresh_token)
        × (is_uuid pair.user_id ≡ true)
        × (find_session a sid w'
            ≡ some (
                stored_row (
                  new_session a jwt env now sid pair.user_id
                    (hash_token jwt env pair.refresh_token)
                    (expiry_ms a jwt env now)
                    context)))
  login_ends user sid context w w' made pair lives stored named same final signed valid =
      let row : Text → Text → AuthSession = λ v t. stored_row (
        new_session a jwt env now sid v (hash_token jwt env t) (expiry_ms a jwt env now) context) in
      let kept : find_session a sid w' ≡ some (row user made.refresh_token) =
        subst (λ v. find_session a sid v ≡ some (row user made.refresh_token)) final
          (prune-find a jwt env now w sid (row user made.refresh_token) stored (
            fresh_is_not_prunable a jwt env now (row user made.refresh_token)
              (expiry_is_later a jwt env now lives) refl)) in
      let user_is : user ≡ pair.user_id = sym named ∙ ap (λ p. p.user_id) same in
      let token_is : made.refresh_token ≡ pair.refresh_token = ap (λ p. p.refresh_token) same in
      (
        subst (λ v. sign_refresh_token jwt env v sid now ≡ ok pair.refresh_token) user_is
            (signed ∙ ap ok token_is),
        subst (λ v. is_uuid v ≡ true) user_is valid,
        kept
            ∙ ap some (ap (λ v. row v made.refresh_token) user_is ∙ ap (row pair.user_id) token_is),
      )

  -- What a login leaves: the token of its answer is signed for the user and the session, and the row
  -- of the session is as the database keeps it.
  pub login_dev_stores :
      (sid : Text) (dto : LoginDev) (context : SessionContext) (w w' : Service a) (pair : TokenPair)
      → names_user env ≡ true
      → 0 < jwt.lifetime (refresh_expiry env)
      → find_session a sid w ≡ none
      → login_dev a jwt env now sid dto context w ≡ (ok pair, w')
      → (sign_refresh_token jwt env pair.user_id sid now ≡ ok pair.refresh_token)
        × (is_uuid pair.user_id ≡ true)
        × (find_session a sid w'
            ≡ some (
                stored_row (
                  new_session a jwt env now sid pair.user_id
                    (hash_token jwt env pair.refresh_token)
                    (expiry_ms a jwt env now)
                    context)))
  unfolding login_dev prune
  login_dev_stores sid dto context w w' pair claim lives unused h =
      let (_, _, h₁) = from-eq-ok (assert_dev_auth_endpoint_allowed env) _ w h in
      let (user, u, h₂) = from-eq-ok (resolve_dev_user_id env dto) _ w h₁ in
      let w₁ : Service a = record w { db = a.user_upsert user dto.name dto.email w.db } in
      let (issued_pair, w₂, i, h₃) =
        and_then-eq-ok _ (issue_token_pair a jwt env now sid context user w₁) h₂ in
      let (signed, named, stored) =
        issued_is_found user sid context w₁ w₂ issued_pair claim lives
          (rw (a.user_upsert_lem) unused) i in
      login_ends user sid context w₂ w' issued_pair pair lives stored named
        (ok_injective (ap (λ q. q.0) h₃)) (ap (λ q. q.1) h₃) signed
        (resolve_dev_user_id-is_uuid env dto user u)

  module _ (sid : Text) (dto : LoginDev) (context : SessionContext) (w w' : Service a)
      (pair : TokenPair) (claim : names_user env ≡ true)
      (lives : 0 < jwt.lifetime (refresh_expiry env)) (valid : is_uuid sid ≡ true)
      (unused : find_session a sid w ≡ none)
      (run : login_dev a jwt env now sid dto context w ≡ (ok pair, w')) where
    -- A login answers with a refresh token that names its user and the session it opened, and the
    -- token is current for it, where the id of the user is in lower case, refresh tokens live a
    -- second at least, the drawn session id is an unused UUID, and the configured user claim is not
    -- one that the refresh tokens use for other things (`sid`, `type`).
    pub login_dev-renews :
        lower pair.user_id ≡ pair.user_id
        → (x : AuthSession) × Names a jwt env now pair.refresh_token pair.user_id sid
          × IsCurrent a jwt env now w' pair.refresh_token pair.user_id sid x
    login_dev-renews plain =
        let (signed, user_valid, stored) =
          login_dev_stores sid dto context w w' pair claim lives unused run in
        (
          _,
          signed-Names a jwt env now pair.user_id sid pair.refresh_token claim lives signed now
              (omega (arith, lives)) user_valid valid,
          IsCurrent-fresh a jwt env now w' pair.user_id sid pair.refresh_token _ lives stored plain
              refl refl refl,
        )

    -- A login of a user whose id is not in lower case, which the check of the id allows, answers with
    -- a refresh token that is refused at every time before its expiry, under the conditions on the
    -- settings and the session id under which other logins can be refreshed.
    pub login_dev-refused :
        (now' : ℕ) (context' : SessionContext)
        → text_eq (lower pair.user_id) pair.user_id ≡ false
        → now' / 1000 < now / 1000 + jwt.lifetime (refresh_expiry env)
        → refresh_session a jwt env now' pair.refresh_token context' w'
          ≡ (err invalid_refresh_session, w')
    unfolding refresh_session check_session
    login_dev-refused now' context' upper early =
        let (signed, user_valid, stored) =
          login_dev_stores sid dto context w w' pair claim lives unused run in
        let n =
          signed-Names a jwt env now pair.user_id sid pair.refresh_token claim lives signed now'
            early user_valid valid in
        rw (refresh_session, n.verifies, n.of_user, n.of_session, stored, check_session, upper) refl
