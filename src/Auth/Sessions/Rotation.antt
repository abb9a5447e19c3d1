-- ===== src/Auth/Sessions/Rotation.antt =====
-- Which refresh tokens a session accepts.
use music_video_generator.Prelude.{
  ℕ, ◌<◌, true, Option, none, some, ◌≡◌, sym, ap, subst, ◌∙◌, arith, Text, codes, text_eq,
  text_eq-eq, Bool-cases, Option-cases, inl, inr,
}
use music_video_generator.Json.{Fields, get, as_string}
use music_video_generator.Outcome.{Outcome, ok, and_then, from-eq-ok, err_ne_ok, ok_injective}
use music_video_generator.Env.{Environment}
use music_video_generator.Auth.Settings.{is_uuid}
use music_video_generator.Auth.Tokens.{
  Jwt, verify_refresh_token, hash_token, resolve_user_id_from_payload,
}
use music_video_generator.Auth.Sessions.{
  AuthSession, AuthStore, SessionContext, TokenPair, Service, session_id_of, find_session,
  check_session, check_hash, rotate, refresh_session, required_session_id,
}

-- A session id that is read from claims is a UUID.
pub session_id_is_uuid :
    (fs : Fields) (sid : Text) → session_id_of fs ≡ some sid → is_uuid sid ≡ true
unfolding session_id_of
session_id_is_uuid fs sid h = elim (Option-cases (as_string (get (codes "sid") fs))) [
  | inl q ↦ absurd (let dead : none ≡ some sid = rw (session_id_of, q) at h in cc)
  | inr (t, q) ↦ elim (Bool-cases (is_uuid t)) [
    | inl valid ↦
        let same : some t ≡ some sid = rw (session_id_of, q, valid) at h in
        let named : t ≡ sid = cc in rw (sym named) valid
    | inr invalid ↦ absurd (let dead : none ≡ some sid = rw (session_id_of, q, invalid) at h in cc)
  ]
]

module _ (a : AuthStore) (jwt : Jwt) (env : Environment) (now : ℕ) where
  -- What a token shows of its session: the token verifies, and it names the user and the session.
  pub record Names (token user sid : Text) : Type 0 where
    pub claims : Fields
    pub verifies : verify_refresh_token jwt env token now ≡ ok claims
    pub of_user : resolve_user_id_from_payload env claims ≡ ok user
    pub of_session : session_id_of claims ≡ some sid

  -- A session that the user may refresh with the token.
  pub record IsCurrent (w : Service a) (token user sid : Text) (x : AuthSession) : Type 0 where
    pub found : find_session a sid w ≡ some x
    pub owner : x.user_id ≡ user
    pub not_revoked : x.revoked_at ≡ none
    pub not_expired : now < x.expires_at
    pub latest : hash_token jwt env token ≡ x.token_hash

  pub check_session_passes :
      (user : Text) (o : Option AuthSession) (x : AuthSession)
      → check_session a jwt env now user o ≡ ok x
      → (o ≡ some x) × (x.user_id ≡ user) × (x.revoked_at ≡ none) × (now < x.expires_at)
  unfolding check_session
  check_session_passes user none x h = absurd (err_ne_ok h)
  check_session_passes user (some y) x h = ground (arith, text_eq-eq y.user_id user)

  required_session_id_given :
      (o : Option Text) (sid : Text) → required_session_id a jwt env now o ≡ ok sid → o ≡ some sid
  required_session_id_given none sid h = absurd (err_ne_ok h)
  required_session_id_given (some s) sid h = ap some (ok_injective h)

  check_hash_passes :
      (hash : Text) (x : AuthSession) (w : Service a)
      (k : Unit {0} → Service a → Outcome TokenPair × Service a) {pair : TokenPair} {w' : Service a}
      → and_then k (check_hash a jwt env now hash x w) ≡ (ok pair, w')
      → (hash ≡ x.token_hash) × (k tt w ≡ (ok pair, w'))
  unfolding check_hash
  check_hash_passes hash x w k h = elim (Bool-cases (text_eq hash x.token_hash)) [
    | inl same ↦ (text_eq-eq hash x.token_hash same, rw (check_hash, same) at h)
    | inr other ↦ absurd (err_ne_ok (ap (λ q. q.0) (rw (check_hash, other) at h)))
  ]

  -- A refresh succeeds only with the latest token of a session of the token's user that is neither
  -- revoked nor expired, and the answer and the state are those of the rotation of that session.
  pub refresh_session-IsCurrent :
      (token : Text) (context : SessionContext) (w w' : Service a) (pair : TokenPair)
      → refresh_session a jwt env now token context w ≡ (ok pair, w')
      → (user sid : Text) × (x : AuthSession) × Names token user sid
        × IsCurrent w token user sid x
        × (rotate a jwt env now user sid context x w ≡ (ok pair, w'))
  unfolding refresh_session
  refresh_session-IsCurrent token context w w' pair h =
      let (fs, v, h₁) = from-eq-ok (verify_refresh_token jwt env token now) _ w h in
      let (user, u, h₂) = from-eq-ok (resolve_user_id_from_payload env fs) _ w h₁ in
      let (sid, s, h₃) = from-eq-ok (required_session_id a jwt env now (session_id_of fs)) _ w h₂ in
      let (x, c, h₄) =
        from-eq-ok (check_session a jwt env now user (find_session a sid w)) _ w h₃ in
      let (latest, h₅) = check_hash_passes (hash_token jwt env token) x w _ h₄ in
      let (found, owner, not_revoked, not_expired) =
        check_session_passes user (find_session a sid w) x c in
      (
        user,
        sid,
        x,
        record {
          claims = fs;
          verifies = v;
          of_user = u;
          of_session = required_session_id_given (session_id_of fs) sid s;
        },
        record {
          found = found;
          owner = owner;
          not_revoked = not_revoked;
          not_expired = not_expired;
          latest = latest;
        },
        h₅,
      )

  -- A token names one user and one session.
  pub Names-unique :
      (token user sid user' sid' : Text)
      → Names token user sid
      → Names token user' sid'
      → (user' ≡ user) × (sid' ≡ sid)
  Names-unique token user sid user' sid' n m =
      let same : m.claims ≡ n.claims = ok_injective (sym m.verifies ∙ n.verifies) in
      let of_user : resolve_user_id_from_payload env n.claims ≡ ok user' = rw (same) at m.of_user in
      let of_session : session_id_of n.claims ≡ some sid' = rw (same) at m.of_session in
      (ok_injective (sym of_user ∙ n.of_user), cc)

  -- A refresh ends at the session that the token names.
  pub refresh_session_named :
      (token user sid : Text) (context : SessionContext) (w w' : Service a) (pair : TokenPair)
      → Names token user sid
      → refresh_session a jwt env now token context w ≡ (ok pair, w')
      → (x : AuthSession) × IsCurrent w token user sid x
        × (rotate a jwt env now user sid context x w ≡ (ok pair, w'))
  refresh_session_named token user sid context w w' pair n h =
      let (user', sid', x, m, current, done) =
        refresh_session-IsCurrent token context w w' pair h in
      let (same_user, same_sid) = Names-unique token user sid user' sid' n m in
      (
        x,
        subst (λ u. IsCurrent w token u sid x) same_user
            (subst (λ s. IsCurrent w token user' s x) same_sid current),
        subst (λ u. rotate a jwt env now u sid context x w ≡ (ok pair, w')) same_user
            (subst (λ s. rotate a jwt env now user' s context x w ≡ (ok pair, w')) same_sid done),
      )
