-- ===== src/Auth/Tokens.antt =====
-- The tokens of modules/auth/auth.service.ts: how they are signed, verified and read from a request
-- (modules/auth/jwt-auth.guard.ts) or a socket. The token library (jsonwebtoken) and the digest are
-- given. `now` is the time in milliseconds.
pub mod Signing
pub mod Requests
use music_video_generator.Prelude.{
  ℕ, ◌+◌, ◌/◌, ◌<◌, Bool, true, false, not, ◌&&◌, ◌||◌, Option, none, some, List, [], ◌∷◌, ◌++◌,
  Text, codes, trim, trim_start, lower, text_eq, starts_with, truthy, or_empty, is_space, any, ◌==◌,
  ◌≡◌, if◌then◌else◌,
}
use music_video_generator.Json.{Json, str, num, Fields, end, field, get, put, as_string}
use music_video_generator.Outcome.{
  Outcome, ok, err, invalid_access_token, invalid_refresh_token, missing_user_claim,
  missing_exp_claim, missing_token, missing_authenticated_user, expiry_unreadable,
}
use music_video_generator.Env.{Environment}
use music_video_generator.Auth.Settings.{
  Expiry, is_uuid, access_secret, refresh_secret, access_expiry, refresh_expiry, user_id_claim,
  token_pepper, resolve_dev_fallback_user_id,
}

-- The payload of a signed token: the claims, the time of issue and the time of expiry, in seconds.
abbrev pub issued : Fields → ℕ → ℕ → Fields
issued claims now lifetime =
    put (codes "exp") (num (now / 1000 + lifetime)) (put (codes "iat") (num (now / 1000)) claims)

-- `sign` throws (`none`) on a span that it cannot read, and `verify` on a token that it rejects; a
-- payload that is a text counts as rejected, since the callers reject it too. `digest` is the
-- hexadecimal SHA-256.
pub record Jwt : Type 0 where
  pub sign : Text → Fields → Expiry → ℕ → Option Text
  pub verify : Text → Text → ℕ → Option Fields
  pub lifetime : Expiry → ℕ
  pub digest : Text → Text
  pub verify-sign :
      (secret : Text) (claims : Fields) (e : Expiry) (now now' : ℕ) (token : Text)
      → sign secret claims e now ≡ some token
      → now' / 1000 < now / 1000 + lifetime e
      → verify secret token now' ≡ some (issued claims now (lifetime e))

pub record AuthenticatedUser : Type 0 where
  pub user_id : Text
  pub token : Text
  pub claims : Fields

abbrev first_string : List (Option Json) → Option Text
first_string [] = none
first_string (o ∷ os) =
    let rest = first_string os in elim (as_string o) [ some t ↦ some t | none ↦ rest ]

abbrev valid_user : Option Text → Outcome Text
valid_user none = err missing_user_claim
valid_user (some id) = if is_uuid id then ok id else err missing_user_claim

-- An empty text is no UUID, so the test `!userId` adds nothing.
unfoldable pub resolve_user_id_from_payload : Environment → Fields → Outcome Text
unfolding get is_uuid
resolve_user_id_from_payload env fs = valid_user (
    first_string (
      get (user_id_claim env) fs
      ∷ get (codes "sub") fs
      ∷ get (codes "userId") fs
      ∷ get (codes "user_id") fs
      ∷ get (codes "uid") fs
      ∷ []))

-- A text without the line terminators that `.` does not match.
abbrev is_line_end : ℕ → Bool
is_line_end c = c == 10 || c == 13 || c == 0x2028 || c == 0x2029

abbrev nonempty : Text → Option Text
nonempty [] = none
nonempty (c ∷ t) = some (c ∷ t)

unfoldable pub drop_prefix : Text → Text → Text
drop_prefix [] t = t
drop_prefix (p ∷ ps) [] = []
drop_prefix (p ∷ ps) (c ∷ t) = drop_prefix ps t

-- What follows `Bearer`: white space, and then the token on one line.
unfoldable pub bearer_rest : Text → Option Text
unfolding trim trim_start is_space
bearer_rest [] = none
bearer_rest (c ∷ t) =
    let rest = trim_start t in
    if is_space c && truthy rest && not (any is_line_end rest) then nonempty (trim rest) else none

-- `/^Bearer\s+(.+)$/i` on the trimmed text.
unfoldable pub extract_bearer_token : Option Text → Option Text
unfolding trim lower starts_with drop_prefix bearer_rest
extract_bearer_token value =
    let t = trim (or_empty value) in
    if starts_with (lower t) (codes "bearer")
    then bearer_rest (drop_prefix (codes "bearer") t)
    else none

-- The texts of a socket's handshake: `auth.token`, `auth.authorization`, and the header.
pub record Handshake : Type 0 where
  pub auth_token : Option Text
  pub auth_authorization : Option Text
  pub header_authorization : Option Text

abbrev or_else {ℓ} : {A : Type ℓ} → Option A → Option A → Option A
or_else none o = o
or_else (some a) o = some a

unfoldable pub extract_socket_token : Handshake → Option Text
unfolding trim extract_bearer_token
extract_socket_token h =
    let token = trim (or_empty h.auth_token) in
    let authorization = trim (or_empty h.auth_authorization) in
    let header = trim (or_empty h.header_authorization) in
    if truthy token
    then some token
    else extract_bearer_token (some (if truthy authorization then authorization else header))

module _ (jwt : Jwt) (env : Environment) where
  -- The `catch` turns a missing secret into the same error.
  unfoldable pub verify_access_token : Text → ℕ → Outcome Fields
  unfolding access_secret
  verify_access_token token now = elim (access_secret env) [
    | err e ↦ err invalid_access_token
    | ok secret ↦ elim (jwt.verify secret token now) [
      | none ↦ err invalid_access_token
      | some fs ↦ ok fs
    ]
  ]

  unfoldable pub verify_refresh_token : Text → ℕ → Outcome Fields
  unfolding refresh_secret
  verify_refresh_token token now = elim (refresh_secret env) [
    | err e ↦ err invalid_refresh_token
    | ok secret ↦ elim (jwt.verify secret token now) [
      | none ↦ err invalid_refresh_token
      | some fs ↦ ok fs
    ]
  ]

  unfoldable pub access_claims : Text → Fields
  unfolding text_eq put user_id_claim
  access_claims user =
      let claim = user_id_claim env in
      let claims = field (codes "sub") (str user) (field (codes "role") (str (codes "user")) end) in
      if text_eq claim (codes "sub") then claims else put claim (str user) claims

  abbrev pub refresh_claims : Text → Text → Fields
  refresh_claims user sid =
      field (codes "sub") (str user)
        (field (codes "sid") (str sid) (field (codes "type") (str (codes "refresh")) end))

  abbrev signed : Outcome Text → Fields → Expiry → ℕ → Outcome Text
  signed (err f) claims e now = err f
  signed (ok secret) claims e now = elim (jwt.sign secret claims e now) [
    | none ↦ err expiry_unreadable
    | some token ↦ ok token
  ]

  unfoldable pub sign_access_token : Text → ℕ → Outcome Text
  unfolding access_claims access_secret
  sign_access_token user now =
      signed (access_secret env) (access_claims user) (access_expiry env) now

  unfoldable pub sign_refresh_token : Text → Text → ℕ → Outcome Text
  unfolding refresh_secret
  sign_refresh_token user sid now =
      signed (refresh_secret env) (refresh_claims user sid) (refresh_expiry env) now

  unfoldable pub hash_token : Text → Text
  unfolding token_pepper
  hash_token token = jwt.digest (token ++ token_pepper env)

  abbrev pub with_user : Text → Fields → Outcome Text → Outcome AuthenticatedUser
  with_user token fs (err f) = err f
  with_user token fs (ok id) = ok (record { user_id = id; token = token; claims = fs })

  unfoldable pub authenticate_token : Text → ℕ → Outcome AuthenticatedUser
  unfolding verify_access_token resolve_user_id_from_payload
  authenticate_token token now = elim (verify_access_token token now) [
    | err f ↦ err f
    | ok fs ↦ with_user token fs (resolve_user_id_from_payload env fs)
  ]

  abbrev pub bypass : Option Text → Outcome AuthenticatedUser
  bypass none = err missing_token
  bypass (some id) = ok (record {
    user_id = id;
    token = codes "__dev_bypass__";
    claims = field (codes "sub") (str id) (field (codes "source") (str (codes "dev-bypass")) end);
  })

  abbrev pub authenticate : Option Text → ℕ → Outcome AuthenticatedUser
  unfolding authenticate_token resolve_dev_fallback_user_id
  authenticate (some token) now = authenticate_token token now
  authenticate none now = bypass (resolve_dev_fallback_user_id env)

  -- The argument is the header `authorization`.
  unfoldable pub authenticate_request : Option Text → ℕ → Outcome AuthenticatedUser
  unfolding extract_bearer_token authenticate
  authenticate_request header now = authenticate (extract_bearer_token header) now

  unfoldable pub authenticate_socket : Handshake → ℕ → Outcome AuthenticatedUser
  unfolding extract_socket_token authenticate
  authenticate_socket h now = authenticate (extract_socket_token h) now

  -- `JwtAuthGuard`: the user that the request carries on.
  unfoldable pub can_activate : Bool → Option Text → ℕ → Outcome (Option AuthenticatedUser)
  unfolding authenticate_request
  can_activate public header now =
      if public
      then ok none
      else elim (authenticate_request header now) [ err f ↦ err f | ok u ↦ ok (some u) ]

  unfoldable pub get_user_id_from_request : Option AuthenticatedUser → Outcome Text
  get_user_id_from_request none = err missing_authenticated_user
  get_user_id_from_request (some u) =
      if truthy u.user_id then ok u.user_id else err missing_authenticated_user
