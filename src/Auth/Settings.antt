-- ===== src/Auth/Settings.antt =====
-- What modules/auth/auth.service.ts reads from the environment, and its test of UUIDs.
use music_video_generator.Prelude.{
  ℕ, ◌+◌, ◌-◌, ◌*◌, Bool, true, false, not, ◌&&◌, ◌||◌, Option, none, some, List, [], ◌∷◌, Text,
  codes, between, trim, lower, text_eq, truthy, or_empty, or_default, every, ◌==◌, if◌then◌else◌,
}
use music_video_generator.Outcome.{
  Outcome, ok, err, dev_auth_in_production, invalid_dev_user_id, auth_not_configured,
}
use music_video_generator.Env.{Environment}

abbrev is_hex : ℕ → Bool
is_hex c = between b'a' b'f' c || between b'0' b'9' c

abbrev is_dash : ℕ → Bool
is_dash c = c == b'-'

-- The characters of a text, one by one, against a pattern of tests.
unfoldable pub matches : List (ℕ → Bool) → Text → Bool
matches [] [] = true
matches (p ∷ ps) (c ∷ t) = p c && matches ps t
matches _ _ = false

-- `uuidRegex`, on the text in lower case (the flag `i`).
abbrev uuid_pattern : List (ℕ → Bool)
uuid_pattern =
    is_hex
    ∷ is_hex
    ∷ is_hex
    ∷ is_hex
    ∷ is_hex
    ∷ is_hex
    ∷ is_hex
    ∷ is_hex
    ∷ is_dash
    ∷ is_hex
    ∷ is_hex
    ∷ is_hex
    ∷ is_hex
    ∷ is_dash
    ∷ between b'1' b'5'
    ∷ is_hex
    ∷ is_hex
    ∷ is_hex
    ∷ is_dash
    ∷ (λ c. between b'8' b'9' c || between b'a' b'b' c)
    ∷ is_hex
    ∷ is_hex
    ∷ is_hex
    ∷ is_dash
    ∷ is_hex
    ∷ is_hex
    ∷ is_hex
    ∷ is_hex
    ∷ is_hex
    ∷ is_hex
    ∷ is_hex
    ∷ is_hex
    ∷ is_hex
    ∷ is_hex
    ∷ is_hex
    ∷ is_hex
    ∷ []

unfoldable pub is_uuid : Text → Bool
unfolding matches lower
is_uuid t = matches uuid_pattern (lower t)

abbrev pub default_user_id : Text
default_user_id = codes "00000000-0000-4000-8000-000000000001"

-- `(process.env.NODE_ENV || 'development') === 'production'`.
unfoldable pub is_production : Environment → Bool
unfolding text_eq
is_production env =
    text_eq (or_default (env.variable (codes "NODE_ENV")) (codes "development"))
      (codes "production")

unfoldable pub assert_dev_auth_endpoint_allowed : Environment → Outcome (Unit {0})
unfolding is_production
assert_dev_auth_endpoint_allowed env =
    if is_production env then err dev_auth_in_production else ok tt

unfoldable pub is_dev_bypass_enabled : Environment → Bool
unfolding is_production text_eq lower
is_dev_bypass_enabled env =
    if is_production env then false else elim (env.variable (codes "ALLOW_DEV_AUTH_BYPASS")) [
      | none ↦ false
      | some value ↦ text_eq (lower value) (codes "true")
    ]

unfoldable pub resolve_dev_fallback_user_id : Environment → Option Text
unfolding is_dev_bypass_enabled is_uuid
resolve_dev_fallback_user_id env =
    let id = or_default (env.variable (codes "DEV_USER_ID")) default_user_id in
    if not (is_dev_bypass_enabled env) then none else if is_uuid id then some id else none

-- `LoginDevDto`.
pub record LoginDev : Type 0 where
  pub user_id : Option Text
  pub name : Option Text
  pub email : Option Text

-- The part of `resolveDevUserId` below the user id of the request.
unfoldable pub env_user_id : Environment → Text
unfolding trim is_uuid
env_user_id env =
    let id = trim (or_empty (env.variable (codes "DEV_USER_ID"))) in
    if truthy id && is_uuid id then id else default_user_id

unfoldable pub resolve_dev_user_id : Environment → LoginDev → Outcome Text
unfolding trim is_uuid env_user_id
resolve_dev_user_id env dto =
    let id = trim (or_empty dto.user_id) in
    if truthy id
    then if is_uuid id then ok id else err invalid_dev_user_id
    else ok (env_user_id env)

-- An unset or empty `JWT_SECRET` is no secret.
unfoldable pub access_secret : Environment → Outcome Text
access_secret env =
    let secret = or_empty (env.variable (codes "JWT_SECRET")) in
    if truthy secret then ok secret else err auth_not_configured

unfoldable pub refresh_secret : Environment → Outcome Text
unfolding access_secret
refresh_secret env =
    let secret = or_empty (env.variable (codes "JWT_REFRESH_SECRET")) in
    if truthy secret then ok secret else access_secret env

unfoldable pub token_pepper : Environment → Text
token_pepper env = or_default (env.variable (codes "JWT_REFRESH_TOKEN_PEPPER")) (
    or_default (env.variable (codes "JWT_REFRESH_SECRET"))
      (or_empty (env.variable (codes "JWT_SECRET"))))

-- `expiresIn`: a number of seconds, or a time span that the token library reads.
pub data Expiry : Type 0 where
  seconds : ℕ → Expiry
  span : Text → Expiry

-- `Number` on decimal digits, the value of those before given.
unfoldable pub digits_value : ℕ → Text → ℕ
digits_value acc [] = acc
digits_value acc (c ∷ t) = digits_value (acc * 10 + (c - b'0')) t

unfoldable pub resolve_jwt_expiry : Option Text → Text → Expiry
unfolding trim digits_value
resolve_jwt_expiry value fallback =
    let t = trim (or_default value fallback) in
    if truthy t && every (between b'0' b'9') t then seconds (digits_value 0 t) else span t

abbrev pub access_expiry : Environment → Expiry
access_expiry env = resolve_jwt_expiry (env.variable (codes "JWT_EXPIRES_IN")) (codes "1h")

abbrev pub refresh_expiry : Environment → Expiry
refresh_expiry env =
    resolve_jwt_expiry (env.variable (codes "JWT_REFRESH_EXPIRES_IN")) (codes "30d")

-- `(process.env.JWT_USER_ID_CLAIM || 'sub').trim()`.
unfoldable pub user_id_claim : Environment → Text
unfolding trim
user_id_claim env = trim (or_default (env.variable (codes "JWT_USER_ID_CLAIM")) (codes "sub"))
