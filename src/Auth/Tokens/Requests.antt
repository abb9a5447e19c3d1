-- ===== src/Auth/Tokens/Requests.antt =====
-- Who a request is authenticated as.
use music_video_generator.Prelude.{
  ℕ, ◌+◌, ◌/◌, ◌<◌, true, false, Option, none, some, ◌≡◌, ◌⊎◌, refl, sym, ap, subst, Text, codes,
  truthy, or_empty, Option-cases, inl, inr,
}
use music_video_generator.Json.{Fields, get, put}
use music_video_generator.Outcome.{Outcome, Outcome-cases, ok, err, err_ne_ok, ok_injective}
use music_video_generator.Env.{Environment}
use music_video_generator.Auth.Settings.{
  is_uuid, is_production, is_dev_bypass_enabled, resolve_dev_fallback_user_id, access_secret,
  refresh_secret, refresh_expiry, user_id_claim,
}
use music_video_generator.Auth.Tokens.{
  Jwt, issued, AuthenticatedUser, Handshake, refresh_claims, with_user,
  resolve_user_id_from_payload, sign_refresh_token, verify_access_token, verify_refresh_token,
  authenticate_token, authenticate, authenticate_request, authenticate_socket, extract_bearer_token,
  extract_socket_token,
}
use music_video_generator.Auth.Tokens.Signing.{
  verify_refresh_token-sign_refresh_token, resolve_by_sub, resolved_user_is_uuid,
}

module _ (jwt : Jwt) (env : Environment) where
  -- A token that the access secret verifies, and the user that its claims name.
  pub record IsVerified (now : ℕ) (u : AuthenticatedUser) : Type 0 where
    pub verifies : verify_access_token jwt env u.token now ≡ ok u.claims
    pub names : resolve_user_id_from_payload env u.claims ≡ ok u.user_id
    pub valid : is_uuid u.user_id ≡ true

  with_user-IsVerified :
      (token : Text) (fs : Fields) (now : ℕ) (o : Outcome Text) (u : AuthenticatedUser)
      → verify_access_token jwt env token now ≡ ok fs
      → resolve_user_id_from_payload env fs ≡ o
      → with_user jwt env token fs o ≡ ok u
      → (u.token ≡ token) × IsVerified now u
  with_user-IsVerified token fs now (err f) u v r h = absurd (err_ne_ok h)
  with_user-IsVerified token fs now (ok id) u v r h =
      subst (λ y. (y.token ≡ token) × IsVerified now y) (ok_injective h)
        (refl, record { verifies = v; names = r; valid = resolved_user_is_uuid env fs id r })

  authenticate_token-IsVerified :
      (token : Text) (now : ℕ) (u : AuthenticatedUser)
      → authenticate_token jwt env token now ≡ ok u
      → (u.token ≡ token) × IsVerified now u
  unfolding authenticate_token
  authenticate_token-IsVerified token now u h =
      elim (Outcome-cases (verify_access_token jwt env token now)) [
        | inl (f, e) ↦ absurd (err_ne_ok (rw (authenticate_token, e) at h))
        | inr (fs, e) ↦
            with_user-IsVerified token fs now (resolve_user_id_from_payload env fs) u e refl
              (rw (authenticate_token, e) at h)
      ]

  -- No fallback user in production.
  production_has_no_fallback : is_production env ≡ true → resolve_dev_fallback_user_id env ≡ none
  unfolding resolve_dev_fallback_user_id is_dev_bypass_enabled
  production_has_no_fallback p = rw (resolve_dev_fallback_user_id, is_dev_bypass_enabled, p) refl

  authenticate-IsVerified :
      (o : Option Text) (now : ℕ) (u : AuthenticatedUser)
      → is_production env ≡ true
      → authenticate jwt env o now ≡ ok u
      → (o ≡ some u.token) × IsVerified now u
  unfolding authenticate
  authenticate-IsVerified none now u p h =
      absurd (err_ne_ok (rw (authenticate, production_has_no_fallback p) at h))
  authenticate-IsVerified (some token) now u p h =
      let (same, verified) = authenticate_token-IsVerified token now u h in
      (ap some (sym same), verified)

  -- In production every request and every socket that is authenticated carries the token of its
  -- user: the token verifies with the access secret and its claims name the user, a UUID.
  pub authenticated-IsVerified :
      (header : Option Text) (h : Handshake) (now : ℕ) (u : AuthenticatedUser)
      → is_production env ≡ true
      → (authenticate_request jwt env header now ≡ ok u)
        ⊎ (authenticate_socket jwt env h now ≡ ok u)
      → ((extract_bearer_token header ≡ some u.token) ⊎ (extract_socket_token h ≡ some u.token))
        × IsVerified now u
  unfolding authenticate_request authenticate_socket
  authenticated-IsVerified header h now u p (inl r) =
      let (carried, verified) = authenticate-IsVerified (extract_bearer_token header) now u p r in
      (inl carried, verified)
  authenticated-IsVerified header h now u p (inr r) =
      let (carried, verified) = authenticate-IsVerified (extract_socket_token h) now u p r in
      (inr carried, verified)

  shared_secret :
      truthy (or_empty (env.variable (codes "JWT_REFRESH_SECRET"))) ≡ false
      → refresh_secret env ≡ access_secret env
  unfolding refresh_secret
  shared_secret h = rw (refresh_secret, h) refl

  verifies_alike :
      (token : Text) (now : ℕ) (fs : Fields)
      → refresh_secret env ≡ access_secret env
      → verify_refresh_token jwt env token now ≡ ok fs
      → verify_access_token jwt env token now ≡ ok fs
  unfolding verify_refresh_token verify_access_token
  verifies_alike token now fs same h = elim (Outcome-cases (refresh_secret env)) [
    | inl (f, e) ↦ absurd (err_ne_ok (rw (verify_refresh_token, e) at h))
    | inr (secret, e) ↦ elim (Option-cases (jwt.verify secret token now)) [
      | inl q ↦ absurd (err_ne_ok (rw (verify_refresh_token, e, q) at h))
      | inr (gs, q) ↦
          let found : ok gs ≡ ok fs = rw (verify_refresh_token, e, q) at h in
          rw (verify_access_token, sym same, e, q) found
    ]
  ]

  -- Without a refresh secret of its own, and where the user claim is `sub`, a refresh token is
  -- accepted as an access token for as long as it lives.
  pub refresh_token_authenticates :
      (user sid token : Text) (now now' : ℕ)
      → truthy (or_empty (env.variable (codes "JWT_REFRESH_SECRET"))) ≡ false
      → user_id_claim env ≡ codes "sub"
      → is_uuid user ≡ true
      → sign_refresh_token jwt env user sid now ≡ ok token
      → now' / 1000 < now / 1000 + jwt.lifetime (refresh_expiry env)
      → authenticate_token jwt env token now'
        ≡ ok (record {
          user_id = user;
          token = token;
          claims = issued (refresh_claims jwt env user sid) now (jwt.lifetime (refresh_expiry env));
        })
  unfolding authenticate_token get put
  refresh_token_authenticates user sid token now now' unset claim valid signed early =
      let claims : Fields =
        issued (refresh_claims jwt env user sid) now (jwt.lifetime (refresh_expiry env)) in
      let verifies : verify_access_token jwt env token now' ≡ ok claims =
        verifies_alike token now' claims (shared_secret unset)
          (verify_refresh_token-sign_refresh_token jwt env now now' token user sid signed early) in
      let named : resolve_user_id_from_payload env claims ≡ ok user =
        resolve_by_sub jwt env user now 0 claims (inr (rw (claim) refl)) refl valid in
      rw (authenticate_token, verifies, named) refl
