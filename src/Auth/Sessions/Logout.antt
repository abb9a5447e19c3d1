-- ===== src/Auth/Sessions/Logout.antt =====
-- A logout against the later uses of its session's tokens: runs of the requests that the service
-- answers (modules/auth/auth.controller.ts), each with its time.
use music_video_generator.Prelude.{
  ℕ, Bool, true, false, not, ◌&&◌, ◌||◌, Option, none, some, List, [], ◌∷◌, ◌≡◌, ◌≢◌, refl, sym, ap,
  ◌∙◌, arith, Text, text_eq, text_eq-eq, lower, lower_idem, truthy, any, every, update_where,
  any-update_where-false, any-append_false, is_none, Bool-cases, Option-cases, find_passes, inl,
  inr,
}
use music_video_generator.Outcome.{Outcome-cases, ok, from-keeps, and_then-keeps}
use music_video_generator.Env.{Environment}
use music_video_generator.Auth.Settings.{
  LoginDev, assert_dev_auth_endpoint_allowed, resolve_dev_user_id,
}
use music_video_generator.Auth.Tokens.{
  Jwt, sign_access_token, sign_refresh_token, verify_refresh_token, hash_token,
  resolve_user_id_from_payload,
}
use music_video_generator.Auth.Sessions.{
  AuthSession, AuthStore, SessionContext, TokenPair, Service, has_id, open_session, revoke, rotated,
  session_id_of, extract_expiry_date, find_session, check_session, check_hash, rotate,
  refresh_session, login_dev, issue_token_pair, logout, logout_token, revoke_open,
  required_session_id,
}
use music_video_generator.Auth.Sessions.Lookup.{prune-none, any_of_find_also}
use music_video_generator.Auth.Sessions.Rotation.{
  Names, refresh_session_named, check_session_passes,
}

-- A session with the id that is not revoked.
abbrev pub live : Text → AuthSession → Bool
live sid x = has_id sid x && is_none x.revoked_at

-- A row with the id is the user's.
abbrev pub owned : Text → Text → AuthSession → Bool
owned sid user x = not (has_id sid x) || text_eq x.user_id (lower user)

-- The requests on sessions; a login has the id that it draws.
pub data Request : Type 0 where
  login : Text → LoginDev → SessionContext → Request
  refresh : Text → SessionContext → Request
  leave : Option Text → Request

module _ (a : AuthStore) (jwt : Jwt) (env : Environment) where
  abbrev pub serve : ℕ → Request → Service a → Service a
  unfolding login_dev refresh_session logout
  serve now (login sid dto context) w = (login_dev a jwt env now sid dto context w).1
  serve now (refresh token context) w = (refresh_session a jwt env now token context w).1
  serve now (leave token) w = logout a jwt env now token w

  unfoldable pub serve_all : List (ℕ × Request) → Service a → Service a
  unfolding serve
  serve_all [] w = w
  serve_all ((now, r) ∷ rs) w = serve_all rs (serve now r w)

  -- No session with the id is live.
  abbrev pub IsClosed : Text → Service a → Type 0
  IsClosed sid w = any (live sid) (a.sessions w.db) ≡ false

  -- No later login draws the id again.
  unfoldable pub is_fresh : Text → List (ℕ × Request) → Bool
  unfolding text_eq lower
  is_fresh sid [] = true
  is_fresh sid ((now, login sid' dto context) ∷ rs) =
      not (text_eq (lower sid') (lower sid)) && is_fresh sid rs
  is_fresh sid ((now, r) ∷ rs) = is_fresh sid rs

  module _ (now : ℕ) (sid : Text) where
    pub update-IsClosed :
        (p : AuthSession → Bool) (f : AuthSession → AuthSession)
        → ((x : AuthSession) → p x ≡ true → live sid (f x) ≡ false)
        → (w : Service a) → IsClosed sid w
        → IsClosed sid (record w { db = a.session_update_many p f w.db })
    update-IsClosed p f k w h =
        rw (a.session_update_many_lem) (any-update_where-false p f (live sid) k (a.sessions w.db) h)

    pub revoked_is_not_live : (x : AuthSession) → live sid (revoke now x) ≡ false
    unfolding text_eq
    revoked_is_not_live x = ground arith

    logout-IsClosed :
        (token : Option Text) (w : Service a)
        → IsClosed sid w
        → IsClosed sid (logout a jwt env now token w)
    unfolding logout logout_token revoke_open
    logout-IsClosed none w h = h
    logout-IsClosed (some token) w h = elim (Bool-cases (truthy token)) [
      | inl t ↦ elim (Outcome-cases (verify_refresh_token jwt env token now)) [
        | inl (f, e) ↦ rw (logout, t, e) (prune-none a jwt env now w (live sid) h)
        | inr (fs, e) ↦ elim (Outcome-cases (resolve_user_id_from_payload env fs)) [
          | inl (f, u) ↦
              rw (logout, t, e, logout_token, u) (prune-none a jwt env now w (live sid) h)
          | inr (user, u) ↦ elim (Option-cases (session_id_of fs)) [
            | inl s ↦ rw (logout, t, e, logout_token, u, s) h
            | inr (id, s) ↦
                rw (logout, t, e, logout_token, u, s)
                  (prune-none a jwt env now _ (live sid) (
                    update-IsClosed (open_session id user) (revoke now)
                      (λ x _. revoked_is_not_live x) w h))
          ]
        ]
      ]
      | inr t ↦ rw (logout, t) h
    ]

    issue-IsClosed :
        (sid' : Text) (context : SessionContext) (user : Text) (w : Service a)
        → text_eq (lower sid') (lower sid) ≡ false
        → IsClosed sid w
        → IsClosed sid (issue_token_pair a jwt env now sid' context user w).1
    unfolding issue_token_pair
    issue-IsClosed sid' context user w k h =
        from-keeps (IsClosed sid) _ (sign_access_token jwt env user now) w h (λ access _.
          from-keeps (IsClosed sid) _ (sign_refresh_token jwt env user sid' now) w h (λ refresh _.
            from-keeps (IsClosed sid) _ (verify_refresh_token jwt env refresh now) w h (λ fs _.
              from-keeps (IsClosed sid) _ (extract_expiry_date fs) w h (λ expires _.
                rw (a.session_create_lem)
                  (any-append_false (live sid) (a.sessions w.db) _ h (rw (k) refl))))))

    login-IsClosed :
        (sid' : Text) (dto : LoginDev) (context : SessionContext) (w : Service a)
        → text_eq (lower sid') (lower sid) ≡ false
        → IsClosed sid w
        → IsClosed sid (login_dev a jwt env now sid' dto context w).1
    unfolding login_dev
    login-IsClosed sid' dto context w k h =
        from-keeps (IsClosed sid) _ (assert_dev_auth_endpoint_allowed env) w h (λ _ _.
          from-keeps (IsClosed sid) _ (resolve_dev_user_id env dto) w h (λ user _.
            and_then-keeps (IsClosed sid) _ (issue_token_pair a jwt env now sid' context user _)
              (issue-IsClosed sid' context user _ k (rw (a.user_upsert_lem) h))
              (λ pair w' h'. prune-none a jwt env now w' (live sid) h')))

    -- A row that is found and not revoked has another id than a closed session.
    pub found_is_other :
        (id : Text) (x : AuthSession) (w : Service a)
        → IsClosed sid w
        → find_session a id w ≡ some x
        → x.revoked_at ≡ none
        → text_eq x.id (lower sid) ≡ false
    found_is_other id x w h found opened = elim (Bool-cases (text_eq x.id (lower sid))) [
      | inl same ↦
          let alive =
            any_of_find_also (has_id id) (live sid) (a.sessions w.db) x found
              (rw (same, opened) refl) in
          cc
      | inr other ↦ other
    ]

    -- The id of a row that is found is in lower case.
    found_is_lower :
        (id : Text) (x : AuthSession) (w : Service a)
        → find_session a id w ≡ some x
        → lower x.id ≡ x.id
    found_is_lower id x w found =
        let same : x.id ≡ lower id =
          text_eq-eq x.id (lower id) (find_passes (has_id id) (a.sessions w.db) x found) in
        rw (same) (lower_idem id)

    rotate-IsClosed :
        (user id : Text) (context : SessionContext) (x : AuthSession) (w : Service a)
        → text_eq x.id (lower sid) ≡ false
        → lower x.id ≡ x.id
        → IsClosed sid w
        → IsClosed sid (rotate a jwt env now user id context x w).1
    unfolding rotate
    rotate-IsClosed user id context x w other plain h =
        from-keeps (IsClosed sid) _ (sign_access_token jwt env user now) w h (λ access _.
          from-keeps (IsClosed sid) _ (sign_refresh_token jwt env user id now) w h (λ next _.
            from-keeps (IsClosed sid) _ (verify_refresh_token jwt env next now) w h (λ fs _.
              from-keeps (IsClosed sid) _ (extract_expiry_date fs) w h (λ expires _.
                prune-none a jwt env now _ (live sid) (
                  update-IsClosed (has_id x.id) (rotated (hash_token jwt env next) expires context)
                    (λ y k.
                      let same : y.id ≡ x.id = text_eq-eq y.id (lower x.id) k ∙ plain in
                      rw (same, other) refl)
                    w h)))))

    check_hash-IsClosed :
        (hash : Text) (x : AuthSession) (w : Service a)
        → IsClosed sid w
        → IsClosed sid (check_hash a jwt env now hash x w).1
    unfolding check_hash
    check_hash-IsClosed hash x w h = elim (Bool-cases (text_eq hash x.token_hash)) [
      | inl same ↦ rw (check_hash, same) h
      | inr other ↦
          rw (check_hash, other)
            (update-IsClosed (has_id x.id) (revoke now) (λ y _. revoked_is_not_live y) w h)
    ]

    refresh-IsClosed :
        (token : Text) (context : SessionContext) (w : Service a)
        → IsClosed sid w
        → IsClosed sid (refresh_session a jwt env now token context w).1
    unfolding refresh_session
    refresh-IsClosed token context w h =
        from-keeps (IsClosed sid) _ (verify_refresh_token jwt env token now) w h (λ fs _.
          from-keeps (IsClosed sid) _ (resolve_user_id_from_payload env fs) w h (λ user _.
            from-keeps (IsClosed sid) _ (required_session_id a jwt env now (session_id_of fs)) w h
              (λ id _.
                from-keeps (IsClosed sid) _ (check_session a jwt env now user (find_session a id w))
                  w h
                  (λ x c.
                    let (found, owner, not_revoked, not_expired) =
                      check_session_passes a jwt env now user (find_session a id w) x c in
                    and_then-keeps (IsClosed sid) _
                      (check_hash a jwt env now (hash_token jwt env token) x w)
                      (check_hash-IsClosed (hash_token jwt env token) x w h)
                      (λ _ w'.
                        rotate-IsClosed user id context x w'
                          (found_is_other id x w h found not_revoked)
                          (found_is_lower id x w found))))))

  serve-IsClosed :
      (now : ℕ) (sid : Text) (r : Request) (rs : List (ℕ × Request)) (w : Service a)
      → is_fresh sid ((now, r) ∷ rs) ≡ true
      → IsClosed sid w
      → IsClosed sid (serve now r w) × (is_fresh sid rs ≡ true)
  unfolding is_fresh serve login_dev refresh_session logout
  serve-IsClosed now sid (login sid' dto context) rs w f h =
      elim (Bool-cases (text_eq (lower sid') (lower sid))) [
        | inl same ↦ absurd (let dead : false ≡ true = rw (is_fresh, same) at f in cc)
        | inr other ↦ (login-IsClosed now sid sid' dto context w other h, rw (is_fresh, other) at f)
      ]
  serve-IsClosed now sid (refresh token context) rs w f h =
      (refresh-IsClosed now sid token context w h, f)
  serve-IsClosed now sid (leave token) rs w f h = (logout-IsClosed now sid token w h, f)

  -- A closed session stays closed.
  pub serve_all-IsClosed :
      (sid : Text) (rs : List (ℕ × Request)) (w : Service a)
      → is_fresh sid rs ≡ true
      → IsClosed sid w
      → IsClosed sid (serve_all rs w)
  unfolding serve_all
  serve_all-IsClosed sid [] w f h = h
  serve_all-IsClosed sid ((now, r) ∷ rs) w f h =
      let (closed, fresh) = serve-IsClosed now sid r rs w f h in
      serve_all-IsClosed sid rs (serve now r w) fresh closed

  module _ (now : ℕ) (token user sid : Text) where
    revoke_closes :
        (xs : List AuthSession)
        → every (owned sid user) xs ≡ true
        → any (live sid) (update_where (open_session sid user) (revoke now) xs) ≡ false
    unfolding text_eq
    revoke_closes [] o = refl
    revoke_closes (x ∷ xs) o = ground (arith, revoke_closes xs)

    logout_closes :
        (w : Service a)
        → truthy token ≡ true
        → Names a jwt env now token user sid
        → every (owned sid user) (a.sessions w.db) ≡ true
        → IsClosed sid (logout a jwt env now (some token) w)
    unfolding logout logout_token revoke_open
    logout_closes w t n o =
        rw (logout, t, n.verifies, logout_token, n.of_user, n.of_session)
          (prune-none a jwt env now _ (live sid)
            (rw (a.session_update_many_lem) (revoke_closes (a.sessions w.db) o)))

  -- No token refreshes a closed session.
  pub IsClosed-refresh_session :
      (now : ℕ) (token user sid : Text) (context : SessionContext) (w : Service a)
      (pair : TokenPair)
      → Names a jwt env now token user sid
      → IsClosed sid w
      → (refresh_session a jwt env now token context w).0 ≢ ok pair
  IsClosed-refresh_session now token user sid context w pair n closed h =
      let answer = refresh_session a jwt env now token context w in
      let (x, current, r) =
        refresh_session_named a jwt env now token user sid context w answer.1 pair n
          (ap (λ o. (o, answer.1)) h) in
      let other : text_eq x.id (lower sid) ≡ false =
        found_is_other now sid sid x w closed current.found current.not_revoked in
      let same : text_eq x.id (lower sid) ≡ true =
        find_passes (has_id sid) (a.sessions w.db) x current.found in
      let dead : true ≡ false = sym same ∙ other in cc

-- A logout is final: where the row of the session is the user's, after a logout with a refresh
-- token and any later requests, of which no login draws the id again, a refresh with a token that
-- names the session fails, whenever it comes.
pub logout_is_final :
    (a : AuthStore) (jwt : Jwt) (env : Environment) (now now' : ℕ)
    (token token' user user' sid : Text) (context : SessionContext) (rs : List (ℕ × Request))
    (w : Service a) (pair : TokenPair)
    → truthy token ≡ true
    → Names a jwt env now token user sid
    → every (owned sid user) (a.sessions w.db) ≡ true
    → is_fresh a jwt env sid rs ≡ true
    → Names a jwt env now' token' user' sid
    → (refresh_session a jwt env now' token' context
        (serve_all a jwt env rs (logout a jwt env now (some token) w))).0
      ≢ ok pair
logout_is_final a jwt env now now' token token' user user' sid context rs w pair t n o f n' =
    IsClosed-refresh_session a jwt env now' token' user' sid context _ pair n'
      (serve_all-IsClosed a jwt env sid rs _ f (logout_closes a jwt env now token user sid w t n o))
