-- ===== src/Auth/Sessions.antt =====
-- The refresh sessions of modules/auth/auth.service.ts: login, rotation, logout and pruning. A
-- session's times and `now` are in milliseconds; the fresh session id is given.
pub mod Lookup
pub mod Rotation
pub mod Logout
pub mod Renewal
pub mod Logins
pub mod Replay
use music_video_generator.Prelude.{
  ℕ, ◌-◌, ◌*◌, Bool, true, false, not, ◌&&◌, ◌||◌, Option, none, some, List, [], ◌∷◌, ◌++◌, ◌≡◌,
  Text, codes, text_eq, lower, truthy, or_default, ltb, leb, find, keep, update_where, is_none,
  if◌then◌else◌,
}
use music_video_generator.Json.{Json, num, Fields, get, as_string}
use music_video_generator.Outcome.{
  Outcome, ok, err, Failure, invalid_refresh_token, invalid_refresh_session,
  refresh_session_expired, missing_exp_claim, ◌>>=◌, ◌>>◌, and_then, from, return,
}
use music_video_generator.Env.{Environment, parse_positive_int_env}
use music_video_generator.Auth.Settings.{
  LoginDev, Expiry, is_uuid, assert_dev_auth_endpoint_allowed, resolve_dev_user_id, access_expiry,
  refresh_expiry,
}
use music_video_generator.Auth.Tokens.{
  Jwt, sign_access_token, sign_refresh_token, verify_refresh_token, hash_token,
  resolve_user_id_from_payload,
}

-- A row of `AuthSession` (prisma/schema.prisma).
pub record AuthSession : Type 0 where
  pub id : Text
  pub user_id : Text
  pub token_hash : Text
  pub expires_at : ℕ
  pub revoked_at : Option ℕ
  pub ip_address : Option Text
  pub user_agent : Option Text

-- The row as the database keeps it: `id` and `userId` are columns of type `uuid`, which hold and
-- return a UUID in lower case, however it was written.
abbrev pub stored_row : AuthSession → AuthSession
stored_row x = record x { id = lower x.id; user_id = lower x.user_id }

-- The database client on the tables of sessions and users. `user_upsert` takes the id, the name and
-- the email.
pub record AuthStore : Type 1 where
  pub State : Type 0
  pub sessions : State → List AuthSession
  pub session_update_many : (AuthSession → Bool) → (AuthSession → AuthSession) → State → State
  pub session_delete_many : (AuthSession → Bool) → State → State
  pub session_create : AuthSession → State → State
  pub user_upsert : Text → Option Text → Option Text → State → State
  pub session_update_many_lem :
      (p : AuthSession → Bool) (f : AuthSession → AuthSession) (s : State)
      → sessions (session_update_many p f s) ≡ update_where p f (sessions s)
  pub session_delete_many_lem :
      (p : AuthSession → Bool) (s : State)
      → sessions (session_delete_many p s) ≡ keep (λ x. not (p x)) (sessions s)
  pub session_create_lem :
      (x : AuthSession) (s : State)
      → sessions (session_create x s) ≡ sessions s ++ stored_row x ∷ []
  pub user_upsert_lem :
      (id : Text) (name email : Option Text) (s : State)
      → sessions (user_upsert id name email s) ≡ sessions s

pub record SessionContext : Type 0 where
  pub ip_address : Option Text
  pub user_agent : Option Text

pub record TokenPair : Type 0 where
  pub user_id : Text
  pub access_token : Text
  pub refresh_token : Text
  pub access_expires_in : Expiry
  pub refresh_expires_in : Expiry

pub record DevToken : Type 0 where
  pub token : Text
  pub user_id : Text
  pub expires_in : Expiry

unfoldable pub extract_expiry_date : Fields → Outcome ℕ
unfolding get
extract_expiry_date fs = elim (get (codes "exp") fs) [
  | some (num exp) ↦ ok (exp * 1000)
  | _ ↦ err missing_exp_claim
]

-- The claim `sid`, where it is a UUID.
unfoldable pub session_id_of : Fields → Option Text
unfolding get is_uuid
session_id_of fs = elim (as_string (get (codes "sid") fs)) [
  | none ↦ none
  | some sid ↦ if is_uuid sid then some sid else none
]

abbrev given_or {ℓ} : {A : Type ℓ} → Option A → Option A → Option A
given_or none old = old
given_or (some a) old = some a

-- A value that a `uuid` column is compared with is read as a UUID first.
abbrev pub has_id : Text → AuthSession → Bool
has_id id x = text_eq x.id (lower id)

-- `where: { id, userId, revokedAt: null }`.
abbrev pub open_session : Text → Text → AuthSession → Bool
open_session sid user x = has_id sid x && text_eq x.user_id (lower user) && is_none x.revoked_at

abbrev pub revoke : ℕ → AuthSession → AuthSession
revoke now x = record x { revoked_at = some now }

-- The `data` of the rotation.
abbrev pub rotated : Text → ℕ → SessionContext → AuthSession → AuthSession
rotated hash expires context x = record x {
  token_hash = hash;
  expires_at = expires;
  revoked_at = none;
  ip_address = given_or context.ip_address x.ip_address;
  user_agent = given_or context.user_agent x.user_agent;
}

abbrev lt_option : Option ℕ → ℕ → Bool
lt_option none n = false
lt_option (some t) n = ltb t n

-- The `where` of the pruning; `cutoff` is the end of the retention of revoked sessions.
abbrev pub prunable : ℕ → ℕ → AuthSession → Bool
prunable now cutoff x = ltb x.expires_at now || lt_option x.revoked_at cutoff

abbrev retention_ms : Environment → ℕ
retention_ms env =
    parse_positive_int_env env (codes "AUTH_SESSION_REVOKED_RETENTION_DAYS") 30
    * 24
    * 60
    * 60
    * 1000

abbrev prune_interval_ms : Environment → ℕ
prune_interval_ms env =
    parse_positive_int_env env (codes "AUTH_SESSION_PRUNE_INTERVAL_MS") (10 * 60 * 1000)

module _ (a : AuthStore) where
  -- The database, and the field `lastSessionPruneAtMs`.
  pub record Service : Type 0 where
    pub db : a.State
    pub last_prune_ms : ℕ

  abbrev pub find_session : Text → Service → Option AuthSession
  find_session id w = find (has_id id) (a.sessions w.db)

  abbrev pub update_sessions :
      (AuthSession → Bool) → (AuthSession → AuthSession) → Service → Outcome (Unit {0}) × Service
  update_sessions p f w = (ok tt, record w { db = a.session_update_many p f w.db })

  module _ (jwt : Jwt) (env : Environment) (now : ℕ) where
    unfoldable pub prune_stale_sessions_if_due : Service → Service
    unfolding parse_positive_int_env
    prune_stale_sessions_if_due w =
        if ltb (now - w.last_prune_ms) (prune_interval_ms env) then w else record {
          db = a.session_delete_many (prunable now (now - retention_ms env)) w.db;
          last_prune_ms = now;
        }

    abbrev pub prune : Service → Outcome (Unit {0}) × Service
    unfolding prune_stale_sessions_if_due
    prune w = (ok tt, prune_stale_sessions_if_due w)

    abbrev pub upsert_dev_user : Text → LoginDev → Service → Outcome (Unit {0}) × Service
    upsert_dev_user user dto w =
        (ok tt, record w { db = a.user_upsert user dto.name dto.email w.db })

    abbrev pub create_session : AuthSession → Service → Outcome (Unit {0}) × Service
    create_session x w = (ok tt, record w { db = a.session_create x w.db })

    abbrev pub new_session : Text → Text → Text → ℕ → SessionContext → AuthSession
    new_session sid user hash expires context = record {
      id = sid;
      user_id = user;
      token_hash = hash;
      expires_at = expires;
      revoked_at = none;
      ip_address = context.ip_address;
      user_agent = context.user_agent;
    }

    abbrev pub pair_of : Text → Text → Text → TokenPair
    pair_of user access refresh = record {
      user_id = user;
      access_token = access;
      refresh_token = refresh;
      access_expires_in = access_expiry env;
      refresh_expires_in = refresh_expiry env;
    }

    unfoldable pub issue_token_pair :
        Text → SessionContext → Text → Service → Outcome TokenPair × Service
    unfolding sign_access_token sign_refresh_token verify_refresh_token extract_expiry_date
        hash_token
    issue_token_pair sid context user = do
      access ← from (sign_access_token jwt env user now)
      refresh ← from (sign_refresh_token jwt env user sid now)
      fs ← from (verify_refresh_token jwt env refresh now)
      expires ← from (extract_expiry_date fs)
      create_session (new_session sid user (hash_token jwt env refresh) expires context)
      return (pair_of user access refresh)

    unfoldable pub issue_dev_token : LoginDev → Service → Outcome DevToken × Service
    unfolding assert_dev_auth_endpoint_allowed resolve_dev_user_id sign_access_token
    issue_dev_token dto = do
      from (assert_dev_auth_endpoint_allowed env)
      user ← from (resolve_dev_user_id env dto)
      upsert_dev_user user dto
      token ← from (sign_access_token jwt env user now)
      return (record { token = token; user_id = user; expires_in = access_expiry env })

    unfoldable pub login_dev :
        Text → LoginDev → SessionContext → Service → Outcome TokenPair × Service
    unfolding assert_dev_auth_endpoint_allowed resolve_dev_user_id issue_token_pair prune
    login_dev sid dto context = do
      from (assert_dev_auth_endpoint_allowed env)
      user ← from (resolve_dev_user_id env dto)
      upsert_dev_user user dto
      pair ← issue_token_pair sid context user
      prune
      return pair

    -- The tests of `refreshSession` on the row; `none` passes.
    unfoldable pub check_session : Text → Option AuthSession → Outcome AuthSession
    unfolding text_eq
    check_session user none = err invalid_refresh_session
    check_session user (some x) =
        if not (text_eq x.user_id user)
        then err invalid_refresh_session
        else if not (is_none x.revoked_at) || leb x.expires_at now
        then err refresh_session_expired
        else ok x

    abbrev pub required_session_id : Option Text → Outcome Text
    required_session_id none = err invalid_refresh_token
    required_session_id (some sid) = ok sid

    -- A token that is not the session's latest revokes the session.
    abbrev pub check_hash : Text → AuthSession → Service → Outcome (Unit {0}) × Service
    unfolding text_eq
    check_hash hash x =
        if not (text_eq hash x.token_hash)
        then (do update_sessions (has_id x.id) (revoke now); from (err invalid_refresh_token))
        else return tt

    abbrev pub rotate :
        Text → Text → SessionContext → AuthSession → Service → Outcome TokenPair × Service
    unfolding sign_access_token sign_refresh_token verify_refresh_token extract_expiry_date
        hash_token prune
    rotate user sid context x = do
      access ← from (sign_access_token jwt env user now)
      next ← from (sign_refresh_token jwt env user sid now)
      fs ← from (verify_refresh_token jwt env next now)
      expires ← from (extract_expiry_date fs)
      update_sessions (has_id x.id) (rotated (hash_token jwt env next) expires context)
      prune
      return (pair_of user access next)

    unfoldable pub refresh_session : Text → SessionContext → Service → Outcome TokenPair × Service
    unfolding verify_refresh_token resolve_user_id_from_payload session_id_of check_session
        hash_token check_hash rotate
    refresh_session token context w =
        (do
          fs ← from (verify_refresh_token jwt env token now)
          user ← from (resolve_user_id_from_payload env fs)
          sid ← from (required_session_id (session_id_of fs))
          x ← from (check_session user (find_session sid w))
          check_hash (hash_token jwt env token) x
          rotate user sid context x)
          w

    abbrev pub revoke_open : Text → Option Text → Service → Service
    unfolding prune_stale_sessions_if_due
    revoke_open user none w = w
    revoke_open user (some sid) w =
        prune_stale_sessions_if_due
          (record w { db = a.session_update_many (open_session sid user) (revoke now) w.db })

    -- The body of the `try` of `logout`; an exception is swallowed, before the pruning.
    abbrev pub logout_token : Outcome Fields → Service → Service
    unfolding prune_stale_sessions_if_due resolve_user_id_from_payload session_id_of revoke_open
    logout_token (err f) w = prune_stale_sessions_if_due w
    logout_token (ok fs) w = elim (resolve_user_id_from_payload env fs) [
      | err f ↦ prune_stale_sessions_if_due w
      | ok user ↦ revoke_open user (session_id_of fs) w
    ]

    -- The answer is always `{ success: true }`.
    unfoldable pub logout : Option Text → Service → Service
    unfolding verify_refresh_token logout_token
    logout none w = w
    logout (some token) w =
        if truthy token then logout_token (verify_refresh_token jwt env token now) w else w
