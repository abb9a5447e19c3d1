-- ===== src/Env.antt =====
-- common/utils/env-parsers.ts: settings from the environment. `Number(text)` belongs to the
-- JavaScript engine: it is given as a function into fractions of two naturals, `none` where the
-- result is negative or not finite (both take the fallback).
pub mod Positive
use music_video_generator.Prelude.{
  ℕ, ◌/◌, Bool, true, false, Option, none, some, List, [], ◌∷◌, Text, codes, trim, lower, one_of,
  ltb, if◌then◌else◌,
}

pub record JsNumber : Type 0 where
  pub numerator : ℕ
  pub denominator : ℕ

-- `process.env`, and `Number` on texts.
pub record Environment : Type 0 where
  pub variable : Text → Option Text
  pub number : Text → Option JsNumber

-- `Number.isFinite(parsed) && parsed > 0 ? Math.floor(parsed) : fallback`.
unfoldable pub floor_or : Option JsNumber → ℕ → ℕ
floor_or none fallback = fallback
floor_or (some q) fallback = if ltb 0 q.numerator then q.numerator / q.denominator else fallback

unfoldable pub parse_positive : Environment → Option Text → ℕ → ℕ
unfolding floor_or
parse_positive env none fallback = fallback
parse_positive env (some []) fallback = fallback
parse_positive env (some (c ∷ t)) fallback = floor_or (env.number (c ∷ t)) fallback

unfoldable pub parse_positive_int_env : Environment → Text → ℕ → ℕ
unfolding parse_positive
parse_positive_int_env env key fallback = parse_positive env (env.variable key) fallback

unfoldable pub parse_boolean : Option Text → Bool → Bool
unfolding trim lower one_of
parse_boolean none fallback = fallback
parse_boolean (some []) fallback = fallback
parse_boolean (some (c ∷ t)) fallback =
    let word = lower (trim (c ∷ t)) in
    if one_of word (codes "1" ∷ codes "true" ∷ codes "yes" ∷ codes "on" ∷ [])
    then true
    else if one_of word (codes "0" ∷ codes "false" ∷ codes "no" ∷ codes "off" ∷ [])
    then false
    else fallback

unfoldable pub parse_boolean_env : Environment → Text → Bool → Bool
unfolding parse_boolean
parse_boolean_env env key fallback = parse_boolean (env.variable key) fallback
