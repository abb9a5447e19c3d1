-- ===== src/Auth/Tokens/Signing.antt =====
-- A token that the service signs, as the service reads it back.
use music_video_generator.Prelude.{
  ℕ, ◌+◌, ◌/◌, ◌<◌, Bool, true, false, not, ◌&&◌, arith, Option, none, some, List, [], ◌∷◌, ◌≡◌,
  ◌⊎◌, refl, sym, ap, ◌∙◌, Text, codes, text_eq, text_eq-eq, Bool-cases, Option-cases, inl, inr,
}
use music_video_generator.Json.{
  Json, str, Fields, end, field, get, put, as_string, get-put, get-put_other,
}
use music_video_generator.Outcome.{Outcome, ok, err, err_ne_ok, ok_injective}
use music_video_generator.Env.{Environment}
use music_video_generator.Auth.Settings.{
  Expiry, is_uuid, access_secret, refresh_secret, access_expiry, refresh_expiry, user_id_claim,
}
use music_video_generator.Auth.Tokens.{
  Jwt, issued, signed, first_string, valid_user, resolve_user_id_from_payload, access_claims,
  refresh_claims, sign_access_token, sign_refresh_token, verify_access_token, verify_refresh_token,
  authenticate_token,
}

-- The configured user claim is neither the session nor the kind of a refresh token.
abbrev pub names_user : Environment → Bool
unfolding text_eq
names_user env =
    not (text_eq (codes "sid") (user_id_claim env))
    && not (text_eq (codes "type") (user_id_claim env))

valid_user-is_uuid : (o : Option Text) (user : Text) → valid_user o ≡ ok user → is_uuid user ≡ true
valid_user-is_uuid none user h = absurd (err_ne_ok h)
valid_user-is_uuid (some id) user h = elim (Bool-cases (is_uuid id)) [
  | inl valid ↦
      let same : id ≡ user = ok_injective (rw (valid_user, valid) at h) in rw (sym same) valid
  | inr invalid ↦ absurd (err_ne_ok (rw (valid_user, invalid) at h))
]

-- A user that is read from claims is a UUID.
pub resolved_user_is_uuid :
    (env : Environment) (fs : Fields) (user : Text)
    → resolve_user_id_from_payload env fs ≡ ok user
    → is_uuid user ≡ true
unfolding resolve_user_id_from_payload
resolved_user_is_uuid env fs user h =
    valid_user-is_uuid
      (first_string (
        get (user_id_claim env) fs
        ∷ get (codes "sub") fs
        ∷ get (codes "userId") fs
        ∷ get (codes "user_id") fs
        ∷ get (codes "uid") fs
        ∷ []))
      user h

module _ (jwt : Jwt) (env : Environment) where
  signed_by :
      (o : Outcome Text) (claims : Fields) (e : Expiry) (now : ℕ) (token : Text)
      → signed jwt env o claims e now ≡ ok token
      → (secret : Text) × (o ≡ ok secret) × (jwt.sign secret claims e now ≡ some token)
  signed_by (err f) claims e now token h = absurd (err_ne_ok h)
  signed_by (ok secret) claims e now token h = elim (Option-cases (jwt.sign secret claims e now)) [
    | inl q ↦ absurd (err_ne_ok (rw (signed, q) at h))
    | inr (t, q) ↦ (secret, refl, q ∙ ap some (ok_injective (rw (signed, q) at h)))
  ]

  module _ (now now' : ℕ) (token : Text) where
    -- Before its expiry a refresh token verifies, with the claims that it was signed with.
    pub verify_refresh_token-sign_refresh_token :
        (user sid : Text)
        → sign_refresh_token jwt env user sid now ≡ ok token
        → now' / 1000 < now / 1000 + jwt.lifetime (refresh_expiry env)
        → verify_refresh_token jwt env token now'
          ≡ ok (issued (refresh_claims jwt env user sid) now (jwt.lifetime (refresh_expiry env)))
    unfolding sign_refresh_token verify_refresh_token
    verify_refresh_token-sign_refresh_token user sid h early =
        let (secret, s, t) = signed_by (refresh_secret env) _ _ now token h in
        rw (verify_refresh_token, s, jwt.verify-sign secret _ _ now now' token t early) refl

    pub verify_access_token-sign_access_token :
        (user : Text)
        → sign_access_token jwt env user now ≡ ok token
        → now' / 1000 < now / 1000 + jwt.lifetime (access_expiry env)
        → verify_access_token jwt env token now'
          ≡ ok (issued (access_claims jwt env user) now (jwt.lifetime (access_expiry env)))
    unfolding sign_access_token verify_access_token
    verify_access_token-sign_access_token user h early =
        let (secret, s, t) = signed_by (access_secret env) _ _ now token h in
        rw (verify_access_token, s, jwt.verify-sign secret _ _ now now' token t early) refl

  first_or_sub :
      (user : Text) (o : Option Json) (os : List (Option Json))
      → (as_string o ≡ none) ⊎ (o ≡ some (str user))
      → first_string (o ∷ some (str user) ∷ os) ≡ some user
  first_or_sub user o os (inl h) = rw (first_string, h) refl
  first_or_sub user o os (inr h) = rw (first_string, h) refl

  module _ (user : Text) (now lifetime : ℕ) where
    -- The claim that the access token carries under the configured name.
    configured_claim :
        (c : Text) (fs : Fields)
        → (as_string (get c (issued (put c (str user) fs) now lifetime)) ≡ none)
          ⊎ (get c (issued (put c (str user) fs) now lifetime) ≡ some (str user))
    configured_claim c fs = elim (Bool-cases (text_eq (codes "exp") c)) [
      | inl exp ↦
          let e : codes "exp" ≡ c = text_eq-eq (codes "exp") c exp in inl (rw (sym e, get-put) refl)
      | inr exp ↦ elim (Bool-cases (text_eq (codes "iat") c)) [
        | inl iat ↦
            let e : codes "iat" ≡ c = text_eq-eq (codes "iat") c iat in
            inl (rw (get-put_other c (codes "exp") _ _ exp, sym e, get-put) refl)
        | inr iat ↦ inr (
            rw
              (
                get-put_other c (codes "exp") _ _ exp,
                get-put_other c (codes "iat") _ _ iat,
                get-put,
              )
              refl)
      ]
    ]

    pub resolve_by_sub :
        (fs : Fields)
        → (as_string (get (user_id_claim env) fs) ≡ none)
          ⊎ (get (user_id_claim env) fs ≡ some (str user))
        → get (codes "sub") fs ≡ some (str user)
        → is_uuid user ≡ true
        → resolve_user_id_from_payload env fs ≡ ok user
    unfolding resolve_user_id_from_payload
    resolve_by_sub fs first sub valid =
        let rest : List (Option Json) =
          get (codes "userId") fs ∷ get (codes "user_id") fs ∷ get (codes "uid") fs ∷ [] in
        let found : first_string (get (user_id_claim env) fs ∷ get (codes "sub") fs ∷ rest)
            ≡ some user =
          rw (sub) (first_or_sub user (get (user_id_claim env) fs) rest first) in
        ap valid_user found ∙ rw (valid_user, valid) refl

    -- The configured user claim is another one than the session and the kind of a refresh token, so
    -- that these are not read as its user.
    pub reads_user :
        (sid : Text)
        → names_user env ≡ true
        → (as_string
              (get (user_id_claim env) (issued (refresh_claims jwt env user sid) now lifetime))
            ≡ none)
          ⊎ (get (user_id_claim env) (issued (refresh_claims jwt env user sid) now lifetime)
              ≡ some (str user))
    unfolding get put
    reads_user sid h =
        let c = user_id_claim env in
        let not_sid : text_eq (codes "sid") c ≡ false = ground arith in
        let not_type : text_eq (codes "type") c ≡ false = ground arith in
        elim (Bool-cases (text_eq (codes "exp") c)) [
          | inl exp ↦
              let e : codes "exp" ≡ c = text_eq-eq (codes "exp") c exp in inl (rw (sym e) refl)
          | inr exp ↦ elim (Bool-cases (text_eq (codes "iat") c)) [
            | inl iat ↦
                let e : codes "iat" ≡ c = text_eq-eq (codes "iat") c iat in inl (rw (sym e) refl)
            | inr iat ↦ elim (Bool-cases (text_eq (codes "sub") c)) [
              | inl sub ↦
                  let e : codes "sub" ≡ c = text_eq-eq (codes "sub") c sub in inr (rw (sym e) refl)
              | inr sub ↦ inl (rw (sub, not_sid, not_type, iat, exp) refl)
            ]
          ]
        ]

    -- The user of an access token is read back from its claims, whatever claim the environment names.
    pub resolve_user_id-access_claims :
        is_uuid user ≡ true
        → resolve_user_id_from_payload env (issued (access_claims jwt env user) now lifetime)
          ≡ ok user
    unfolding access_claims get put
    resolve_user_id-access_claims valid =
        elim (Bool-cases (text_eq (user_id_claim env) (codes "sub"))) [
          | inl sub ↦
              let named = text_eq-eq (user_id_claim env) (codes "sub") sub in
              resolve_by_sub _ (inr (rw (access_claims, named) refl))
                (rw (access_claims, named) refl) valid
          | inr other ↦
              let base : Fields =
                field (codes "sub") (str user) (field (codes "role") (str (codes "user")) end) in
              resolve_by_sub _
                (rw (access_claims, other) (configured_claim (user_id_claim env) base))
                (rw
                  (
                    access_claims,
                    other,
                    get-put_other (codes "sub") (codes "exp") _ _ refl,
                    get-put_other (codes "sub") (codes "iat") _ _ refl,
                    get-put_other (codes "sub") (user_id_claim env) _ _ other,
                  )
                  refl)
                valid
        ]

  -- The user that an access token is signed for is the user that its bearer is authenticated as,
  -- until the token expires.
  pub authenticate_token-sign_access_token :
      (user : Text) (now now' : ℕ) (token : Text)
      → is_uuid user ≡ true
      → sign_access_token jwt env user now ≡ ok token
      → now' / 1000 < now / 1000 + jwt.lifetime (access_expiry env)
      → authenticate_token jwt env token now'
        ≡ ok (record {
          user_id = user;
          token = token;
          claims = issued (access_claims jwt env user) now (jwt.lifetime (access_expiry env));
        })
  unfolding authenticate_token
  authenticate_token-sign_access_token user now now' token valid h early =
      rw
        (
          authenticate_token,
          verify_access_token-sign_access_token now now' token user h early,
          resolve_user_id-access_claims user now (jwt.lifetime (access_expiry env)) valid,
        )
        refl
