-- ===== src/Json.antt =====
-- JSON values, as the code reads them from the `inputData`, `outputData` and `analysisResult`
-- columns and from the results of scripts (typed `unknown` there). A number that the code compares
-- is a natural one.
use music_video_generator.Prelude.{
  ℕ, Bool, false, ◌≡◌, Option, none, some, List, [], ◌∷◌, Text, text_eq, text_eq_refl, text_eq-eq,
  Bool-cases, inl, inr, refl, if◌then◌else◌,
}

mutual
  pub data Json : Type 0 where
    null : Json
    bool : Bool → Json
    num : ℕ → Json
    str : Text → Json
    arr : Items → Json
    obj : Fields → Json

  pub data Items : Type 0 where
    nil : Items
    cons : Json → Items → Items

  pub data Fields : Type 0 where
    end : Fields
    field : Text → Json → Fields → Fields

-- A property of an object; `none` is `undefined`.
unfoldable pub get : Text → Fields → Option Json
unfolding text_eq
get k end = none
get k (field j v fs) = if text_eq j k then some v else get k fs

-- Assignment to a property keeps its place, or adds it at the end.
unfoldable pub put : Text → Json → Fields → Fields
unfolding text_eq
put k v end = field k v end
put k v (field j w fs) = if text_eq j k then field j v fs else field j w (put k v fs)

-- The `delete` operator on a property.
unfoldable pub remove : Text → Fields → Fields
unfolding text_eq
remove k end = end
remove k (field j w fs) = if text_eq j k then remove k fs else field j w (remove k fs)

-- The string items of an array.
unfoldable pub strings : Items → List Text
strings nil = []
strings (cons (str t) xs) = t ∷ strings xs
strings (cons _ xs) = strings xs

unfoldable pub from_strings : List Text → Items
from_strings [] = nil
from_strings (t ∷ ts) = cons (str t) (from_strings ts)

-- `typeof value === 'string' ? value : undefined`.
abbrev pub as_string : Option Json → Option Text
as_string (some (str t)) = some t
as_string _ = none

abbrev pub as_bool : Option Json → Option Bool
as_bool (some (bool b)) = some b
as_bool _ = none

-- The properties that `value && typeof value === 'object'` lets the code read: of an array the
-- code reads no property by the names that it asks for.
abbrev pub payload : Json → Option Fields
payload (obj fs) = some fs
payload (arr xs) = some end
payload _ = none

-- The same with `!Array.isArray(value)`.
abbrev pub plain_object : Option Json → Option Fields
plain_object (some (obj fs)) = some fs
plain_object _ = none

pub get-put : (k : Text) (v : Json) (fs : Fields) → get k (put k v fs) ≡ some v
unfolding get put
get-put k v end = rw (get, text_eq_refl) refl
get-put k v (field j w fs) = elim (Bool-cases (text_eq j k)) [
  | inl same ↦ rw (put, same, get, same) refl
  | inr other ↦ rw (put, other, get, other) (get-put k v fs)
]

pub get-put_other :
    (k j : Text) (v : Json) (fs : Fields) → text_eq j k ≡ false → get k (put j v fs) ≡ get k fs
unfolding get put
get-put_other k j v end h = rw (h) refl
get-put_other k j v (field i w fs) h = elim (Bool-cases (text_eq i j)) [
  | inl same ↦ let e : i ≡ j = text_eq-eq i j same in rw (e, text_eq_refl, h) refl
  | inr other ↦ elim (Bool-cases (text_eq i k)) [
    | inl found ↦ rw (other, found) refl
    | inr rest ↦ rw (other, rest) (get-put_other k j v fs h)
  ]
]
