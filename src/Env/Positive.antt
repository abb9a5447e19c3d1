-- ===== src/Env/Positive.antt =====
-- When a setting read by `parsePositiveIntEnv` is positive: not for a fraction below 1.
use music_video_generator.Prelude.{
  ℕ, ◌≤◌, ◌<◌, ◌/◌, Option, none, some, [], ◌∷◌, Text, ◌≡◌, ◌⊎◌, refl, arith,
}
use music_video_generator.Env.{
  JsNumber, Environment, floor_or, parse_positive, parse_positive_int_env,
}

-- The number is 0 or at least 1.
abbrev pub IsWhole : JsNumber → Type 0
IsWhole q = (q.numerator ≡ 0) ⊎ ((0 < q.denominator) × (q.denominator ≤ q.numerator))

div-pos : (a d : ℕ) → 0 < d → d ≤ a → 0 < a / d
div-pos a d h k = grind arith

floor_or-pos :
    (o : Option JsNumber) (fallback : ℕ)
    → 0 < fallback
    → ((q : JsNumber) → o ≡ some q → IsWhole q)
    → 0 < floor_or o fallback
unfolding floor_or
floor_or-pos none fallback h k = h
floor_or-pos (some q) fallback h k = ground (arith, k q refl, div-pos q.numerator q.denominator)

parse_positive-pos :
    (env : Environment) (o : Option Text) (fallback : ℕ)
    → 0 < fallback
    → ((t : Text) (q : JsNumber) → env.number t ≡ some q → IsWhole q)
    → 0 < parse_positive env o fallback
unfolding parse_positive
parse_positive-pos env none fallback h k = h
parse_positive-pos env (some []) fallback h k = h
parse_positive-pos env (some (c ∷ t)) fallback h k =
    floor_or-pos (env.number (c ∷ t)) fallback h (k (c ∷ t))

-- A setting with a positive fallback is positive where no text reads as a fraction between 0 and 1.
pub parse_positive_int_env-pos :
    (env : Environment) (key : Text) (fallback : ℕ)
    → 0 < fallback
    → ((t : Text) (q : JsNumber) → env.number t ≡ some q → IsWhole q)
    → 0 < parse_positive_int_env env key fallback
unfolding parse_positive_int_env
parse_positive_int_env-pos env key fallback h k =
    parse_positive-pos env (env.variable key) fallback h k

div-small : (a d : ℕ) → a < d → a / d ≡ 0
div-small a d h = grind arith

-- A setting that reads as a fraction between 0 and 1 yields 0, whatever the fallback.
pub parse_positive_int_env-fraction :
    (env : Environment) (key : Text) (fallback c : ℕ) (t : Text) (q : JsNumber)
    → env.variable key ≡ some (c ∷ t)
    → env.number (c ∷ t) ≡ some q
    → 0 < q.numerator
    → q.numerator < q.denominator
    → parse_positive_int_env env key fallback ≡ 0
unfolding parse_positive_int_env
parse_positive_int_env-fraction env key fallback c t q v n pos small =
    rw (v, n) (ground (arith, div-small q.numerator q.denominator))
