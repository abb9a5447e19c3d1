-- ===== src/Examples/AuthRuns.antt =====
-- A login, rotations, a replay and a logout of one user.
use music_video_generator.Prelude.{
  ℕ, none, some, Option, List, [], ◌∷◌, ◌++◌, ◌≡◌, ◌≢◌, ◌⊎◌, refl, arith, Text, codes, text_eq,
  lower, inl,
}
use music_video_generator.Json.{get, put}
use music_video_generator.Outcome.{ok, err, invalid_refresh_session}
use music_video_generator.Auth.Settings.{
  is_uuid, user_id_claim, access_expiry, refresh_expiry, is_production,
}
use music_video_generator.Auth.Tokens.{
  issued, access_claims, refresh_claims, sign_refresh_token, sign_access_token, authenticate_token,
  AuthenticatedUser, authenticate_request, extract_bearer_token, extract_socket_token, Handshake,
  verify_refresh_token, resolve_user_id_from_payload,
}
use music_video_generator.Auth.Tokens.Requests.{
  IsVerified, authenticated-IsVerified, refresh_token_authenticates,
}
use music_video_generator.Auth.Tokens.Signing.{authenticate_token-sign_access_token}
use music_video_generator.Auth.Sessions.{
  AuthSession, Service, TokenPair, login_dev, refresh_session, rotate, logout, session_id_of,
}
use music_video_generator.Auth.Sessions.Rotation.{Names, IsCurrent, refresh_session-IsCurrent}
use music_video_generator.Auth.Sessions.Logout.{
  Request, login, refresh, serve_all, is_fresh, logout_is_final,
}
use music_video_generator.Auth.Sessions.Logins.{login_dev-renews, login_dev-refused}
use music_video_generator.Examples.AuthWorld.{
  session_list, alice, session_one, toy_jwt, one_secret, in_production, at_home, as_alice, carol,
  as_carol, no_sessions, refresh_token_at, access_token_at,
}

-- The answer to a login or a refresh in a second.
abbrev pair_at : ℕ → TokenPair
pair_at t = record {
  user_id = alice;
  access_token = access_token_at t;
  refresh_token = refresh_token_at t;
  access_expires_in = access_expiry one_secret;
  refresh_expires_in = refresh_expiry one_secret;
}

abbrev logged_in : Service session_list
unfolding login_dev
logged_in =
    (login_dev session_list toy_jwt one_secret 1000000 session_one as_alice at_home no_sessions).1

abbrev rotated_once : Service session_list
unfolding refresh_session logged_in
rotated_once =
    (refresh_session session_list toy_jwt one_secret 1001000 (refresh_token_at 1000) at_home
      logged_in).1

login_dev-renews_example :
    (x : AuthSession) × Names session_list toy_jwt one_secret 1000000
      (refresh_token_at 1000)
      alice
      session_one
    × IsCurrent session_list toy_jwt one_secret 1000000 logged_in
        (refresh_token_at 1000)
        alice
        session_one
        x
unfolding toy_jwt logged_in login_dev is_uuid user_id_claim lower text_eq
login_dev-renews_example =
    login_dev-renews session_list toy_jwt one_secret 1000000 session_one as_alice at_home
      no_sessions logged_in (pair_at 1000) refl (omega arith) refl refl refl refl

abbrev carol_token : Text
carol_token = 3 ∷ 1000 ∷ codes "top"

abbrev carol_in : Service session_list
unfolding login_dev
carol_in =
    (login_dev session_list toy_jwt one_secret 1000000 session_one as_carol at_home no_sessions).1

login_dev-refused_example :
    refresh_session session_list toy_jwt one_secret 2000000 carol_token at_home carol_in
    ≡ (err invalid_refresh_session, carol_in)
unfolding toy_jwt carol_in login_dev is_uuid user_id_claim lower text_eq
login_dev-refused_example =
    login_dev-refused session_list toy_jwt one_secret 1000000 session_one as_carol at_home
      no_sessions carol_in
      (record {
        user_id = carol;
        access_token = 2 ∷ 1000 ∷ codes "top";
        refresh_token = carol_token;
        access_expires_in = access_expiry one_secret;
        refresh_expires_in = refresh_expiry one_secret;
      })
      refl (omega arith) refl refl refl 2000000 at_home refl (omega arith)

-- The tokens of the login and of the rotation.
first_token :
    (now : ℕ)
    → verify_refresh_token toy_jwt one_secret (refresh_token_at 1000) now
      ≡ ok (issued (refresh_claims toy_jwt one_secret alice session_one) 1000000 3600)
    → Names session_list toy_jwt one_secret now (refresh_token_at 1000) alice session_one
unfolding toy_jwt user_id_claim verify_refresh_token resolve_user_id_from_payload session_id_of get
    put
first_token now verifies = record {
  claims = issued (refresh_claims toy_jwt one_secret alice session_one) 1000000 3600;
  verifies = verifies;
  of_user = refl;
  of_session = refl;
}

refresh_session-IsCurrent_example :
    (user sid : Text) × (x : AuthSession) × Names session_list toy_jwt one_secret 1001000
      (refresh_token_at 1000)
      user
      sid
    × IsCurrent session_list toy_jwt one_secret 1001000 logged_in (refresh_token_at 1000) user sid x
    × (rotate session_list toy_jwt one_secret 1001000 user sid at_home x logged_in
        ≡ (ok (pair_at 1001), rotated_once))
unfolding toy_jwt logged_in rotated_once refresh_session user_id_claim
refresh_session-IsCurrent_example =
    refresh_session-IsCurrent session_list toy_jwt one_secret 1001000 (refresh_token_at 1000)
      at_home logged_in rotated_once (pair_at 1001) refl

authenticate_token-sign_access_token_example :
    authenticate_token toy_jwt one_secret (access_token_at 1000) 2000000
    ≡ ok (record {
      user_id = alice;
      token = access_token_at 1000;
      claims = issued (access_claims toy_jwt one_secret alice) 1000000 3600;
    })
unfolding toy_jwt is_uuid sign_access_token access_claims
authenticate_token-sign_access_token_example =
    authenticate_token-sign_access_token toy_jwt one_secret alice 1000000 2000000
      (access_token_at 1000) refl refl (omega arith)

refresh_token_authenticates_example :
    authenticate_token toy_jwt one_secret (refresh_token_at 1000) 2000000
    ≡ ok (record {
      user_id = alice;
      token = refresh_token_at 1000;
      claims = issued (refresh_claims toy_jwt one_secret alice session_one) 1000000 3600;
    })
unfolding toy_jwt is_uuid sign_refresh_token user_id_claim
refresh_token_authenticates_example =
    refresh_token_authenticates toy_jwt one_secret alice session_one (refresh_token_at 1000) 1000000
      2000000 refl refl refl refl (omega arith)

abbrev bearer_header : Option Text
bearer_header = some (codes "Bearer " ++ access_token_at 1000)

abbrev no_handshake : Handshake
no_handshake = record { auth_token = none; auth_authorization = none; header_authorization = none }

abbrev alice_by_token : AuthenticatedUser
unfolding access_claims
alice_by_token = record {
  user_id = alice;
  token = access_token_at 1000;
  claims = issued (access_claims toy_jwt in_production alice) 1000000 3600;
}

authenticated-IsVerified_example :
    ((extract_bearer_token bearer_header ≡ some (access_token_at 1000))
      ⊎ (extract_socket_token no_handshake ≡ some (access_token_at 1000)))
    × IsVerified toy_jwt in_production 2000000 alice_by_token
unfolding toy_jwt is_production authenticate_request alice_by_token user_id_claim
authenticated-IsVerified_example =
    authenticated-IsVerified toy_jwt in_production bearer_header no_handshake 2000000 alice_by_token
      refl (inl refl)

-- Another login and an attempt to refresh, after a logout or a replay.
abbrev later_requests : List (ℕ × Request)
later_requests =
    (1002000, refresh (refresh_token_at 1000) at_home)
    ∷ (1003000, login (codes "22222222-2222-4222-8222-222222222222") as_alice at_home)
    ∷ []

logout_is_final_example :
    (refresh_session session_list toy_jwt one_secret 1004000 (refresh_token_at 1000) at_home (
      serve_all session_list toy_jwt one_secret later_requests (
        logout session_list toy_jwt one_secret 1001000 (some (refresh_token_at 1000)) logged_in))).0
    ≢ ok (pair_at 1004)
unfolding toy_jwt logged_in is_fresh text_eq lower user_id_claim verify_refresh_token
logout_is_final_example =
    logout_is_final session_list toy_jwt one_secret 1001000 1004000 (refresh_token_at 1000)
      (refresh_token_at 1000) alice alice session_one at_home later_requests logged_in
      (pair_at 1004) refl (first_token 1001000 refl) refl refl (first_token 1004000 refl)
