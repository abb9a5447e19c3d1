-- ===== src/Examples/AuthWorld.antt =====
-- Sessions that are a list in memory, and tokens that show their kind, second of issue and secret.
use music_video_generator.Prelude.{
  ℕ, ◌+◌, ◌/◌, ◌<◌, Bool, true, false, not, ◌&&◌, none, some, Option, List, [], ◌∷◌, ◌++◌, ◌≡◌,
  refl, sym, arith, Text, codes, text_eq, text_eq_refl, text_eq-eq, ltb, ◌==◌, keep, update_where,
  Bool-cases, inl, inr, if◌then◌else◌,
}
use music_video_generator.Json.{str, num, Fields, end, field, put}
use music_video_generator.Env.{Environment}
use music_video_generator.Auth.Settings.{Expiry, LoginDev, default_user_id}
use music_video_generator.Auth.Tokens.{Jwt, issued}
use music_video_generator.Auth.Sessions.{
  AuthSession, AuthStore, SessionContext, Service, stored_row,
}

abbrev pub session_list : AuthStore
session_list = record {
  State = List AuthSession;
  sessions = λ s. s;
  session_update_many = update_where;
  session_delete_many = λ p s. keep (λ x. not (p x)) s;
  session_create = λ x s. s ++ stored_row x ∷ [];
  user_upsert = λ id name email s. s;
  session_update_many_lem = λ p f s. refl;
  session_delete_many_lem = λ p s. refl;
  session_create_lem = λ x s. refl;
  user_upsert_lem = λ id name email s. refl;
}

abbrev pub alice : Text
alice = default_user_id

abbrev pub session_one : Text
session_one = codes "11111111-1111-4111-8111-111111111111"

abbrev pub refresh_of_alice : Fields
refresh_of_alice =
    field (codes "sub") (str alice)
      (field (codes "sid") (str session_one) (field (codes "type") (str (codes "refresh")) end))

abbrev pub access_of_alice : Fields
access_of_alice = field (codes "sub") (str alice) (field (codes "role") (str (codes "user")) end)

-- A user whose id is written in upper case.
abbrev pub carol : Text
carol = codes "AAAAAAAA-AAAA-4AAA-8AAA-AAAAAAAAAAAA"

abbrev pub refresh_of_carol : Fields
refresh_of_carol =
    field (codes "sub") (str carol)
      (field (codes "sid") (str session_one) (field (codes "type") (str (codes "refresh")) end))

abbrev pub access_of_carol : Fields
access_of_carol = field (codes "sub") (str carol) (field (codes "role") (str (codes "user")) end)

abbrev pub same_fields : Fields → Fields → Bool
unfolding text_eq
same_fields end end = true
same_fields (field k (str v) fs) (field j (str w) gs) =
    text_eq k j && text_eq v w && same_fields fs gs
same_fields _ _ = false

same_fields-eq : (fs gs : Fields) → same_fields fs gs ≡ true → fs ≡ gs
unfolding same_fields
same_fields-eq end end h = refl
same_fields-eq (field k (str v) fs) (field j (str w) gs) h =
    let keys : text_eq k j ≡ true = ground arith in
    let values : text_eq v w ≡ true = ground arith in
    let rest : same_fields fs gs ≡ true = ground arith in
    let k_is : k ≡ j = text_eq-eq k j keys in
    let v_is : v ≡ w = text_eq-eq v w values in
    let fs_is : fs ≡ gs = same_fields-eq fs gs rest in cc
same_fields-eq _ _ h = cc

abbrev pub claims_of : ℕ → Fields
claims_of k =
    if k == 1
    then refresh_of_alice
    else if k == 2
    then access_of_carol
    else if k == 3
    then refresh_of_carol
    else access_of_alice

abbrev pub toy_sign : Text → Fields → Expiry → ℕ → Option Text
unfolding same_fields
toy_sign secret claims e now =
    if same_fields claims refresh_of_alice
    then some (1 ∷ now / 1000 ∷ secret)
    else if same_fields claims access_of_alice
    then some (0 ∷ now / 1000 ∷ secret)
    else if same_fields claims access_of_carol
    then some (2 ∷ now / 1000 ∷ secret)
    else if same_fields claims refresh_of_carol
    then some (3 ∷ now / 1000 ∷ secret)
    else none

abbrev pub toy_verify : Text → Text → ℕ → Option Fields
unfolding text_eq put
toy_verify secret (k ∷ t ∷ s) now =
    if text_eq s secret && ltb (now / 1000) (t + 3600)
    then some (put (codes "exp") (num (t + 3600)) (put (codes "iat") (num t) (claims_of k)))
    else none
toy_verify secret _ now = none

read_back :
    (secret : Text) (k now now' : ℕ)
    → now' / 1000 < now / 1000 + 3600
    → toy_verify secret (k ∷ now / 1000 ∷ secret) now' ≡ some (issued (claims_of k) now 3600)
unfolding toy_verify
read_back secret k now now' early =
    let young : ltb (now' / 1000) (now / 1000 + 3600) ≡ true = ground arith in
    rw (toy_verify, text_eq_refl, young) refl

pub toy_verify-toy_sign :
    (secret : Text) (claims : Fields) (e : Expiry) (now now' : ℕ) (token : Text)
    → toy_sign secret claims e now ≡ some token
    → now' / 1000 < now / 1000 + 3600
    → toy_verify secret token now' ≡ some (issued claims now 3600)
unfolding toy_sign toy_verify
toy_verify-toy_sign secret claims e now now' token h early =
    elim (Bool-cases (same_fields claims refresh_of_alice)) [
      | inl r ↦
          let made : some (1 ∷ now / 1000 ∷ secret) ≡ some token = rw (toy_sign, r) at h in
          let is : 1 ∷ now / 1000 ∷ secret ≡ token = cc in
          rw (sym is, same_fields-eq claims refresh_of_alice r) (read_back secret 1 now now' early)
      | inr r ↦ elim (Bool-cases (same_fields claims access_of_alice)) [
        | inl s ↦
            let made : some (0 ∷ now / 1000 ∷ secret) ≡ some token = rw (toy_sign, r, s) at h in
            let is : 0 ∷ now / 1000 ∷ secret ≡ token = cc in
            rw (sym is, same_fields-eq claims access_of_alice s) (read_back secret 0 now now' early)
        | inr s ↦ elim (Bool-cases (same_fields claims access_of_carol)) [
          | inl u ↦
              let made : some (2 ∷ now / 1000 ∷ secret) ≡ some token =
                rw (toy_sign, r, s, u) at h in
              let is : 2 ∷ now / 1000 ∷ secret ≡ token = cc in
              rw (sym is, same_fields-eq claims access_of_carol u)
                (read_back secret 2 now now' early)
          | inr u ↦ elim (Bool-cases (same_fields claims refresh_of_carol)) [
            | inl v ↦
                let made : some (3 ∷ now / 1000 ∷ secret) ≡ some token =
                  rw (toy_sign, r, s, u, v) at h in
                let is : 3 ∷ now / 1000 ∷ secret ≡ token = cc in
                rw (sym is, same_fields-eq claims refresh_of_carol v)
                  (read_back secret 3 now now' early)
            | inr v ↦ absurd (let dead : none ≡ some token = rw (toy_sign, r, s, u, v) at h in cc)
          ]
        ]
      ]
    ]

unfoldable pub toy_jwt : Jwt
unfolding toy_sign toy_verify
toy_jwt = record {
  sign = toy_sign;
  verify = toy_verify;
  lifetime = λ e. 3600;
  digest = λ t. t;
  verify-sign = toy_verify-toy_sign;
}

-- One secret for both kinds of token.
abbrev pub one_secret : Environment
unfolding text_eq
one_secret = record {
  variable = λ k. if text_eq k (codes "JWT_SECRET") then some (codes "top") else none;
  number = λ t. none;
}

abbrev pub in_production : Environment
unfolding text_eq
in_production = record {
  variable = λ k.
      if text_eq k (codes "NODE_ENV")
      then some (codes "production")
      else if text_eq k (codes "JWT_SECRET")
      then some (codes "top")
      else none;
  number = λ t. none;
}

abbrev pub at_home : SessionContext
at_home = record { ip_address = some (codes "::1"); user_agent = none }

abbrev pub as_alice : LoginDev
as_alice = record { user_id = some alice; name = none; email = none }

abbrev pub no_sessions : Service session_list
no_sessions = record { db = []; last_prune_ms = 0 }

abbrev pub as_carol : LoginDev
as_carol = record { user_id = some carol; name = none; email = none }

-- The refresh token that is signed in a second.
abbrev pub refresh_token_at : ℕ → Text
refresh_token_at t = 1 ∷ t ∷ codes "top"

abbrev pub access_token_at : ℕ → Text
access_token_at t = 0 ∷ t ∷ codes "top"
