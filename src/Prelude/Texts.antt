-- ===== src/Prelude/Texts.antt =====
-- Texts as their UTF-16 code units, and the string methods that the code calls.
use Prim.Native.Nat.{ℕ, ◌+◌}
use Prim.Native.Char.{code}
use Prim.Native.String.{String}
use mathlib.Core.Path.{◌≡◌, refl}
use native.Mathlib.Omega.{arith}
use mathlib.Core.Bool.{Bool, true, false, ◌&&◌, ◌||◌}
use mathlib.Core.List.{List, [], ◌∷◌, map, reverse}
use mathlib.Core.Option.{Option, none, some}
use music_video_generator.Prelude.Tests.{leb, ◌==◌, if◌then◌else◌}

abbrev pub Text : Type 0
Text = List ℕ

-- A literal of the source (ASCII) as its code units.
abbrev pub codes : String → Text
codes String.[] = []
codes (String.◌∷◌ c s) = code c ∷ codes s

abbrev pub between : ℕ → ℕ → ℕ → Bool
between lo hi c = leb lo c && leb c hi

-- The white space and line terminators of ECMAScript.
unfoldable pub is_space : ℕ → Bool
is_space c =
    between 9 13 c
    || c == 32
    || c == 0xa0
    || c == 0x1680
    || between 0x2000 0x200a c
    || between 0x2028 0x2029 c
    || c == 0x202f
    || c == 0x205f
    || c == 0x3000
    || c == 0xfeff

unfoldable pub trim_start : Text → Text
unfolding is_space
trim_start [] = []
trim_start (c ∷ t) = let rest = trim_start t in if is_space c then rest else c ∷ t

-- `String.prototype.trim`.
unfoldable pub trim : Text → Text
unfolding trim_start
trim t = reverse (trim_start (reverse (trim_start t)))

-- `toLowerCase` on ASCII letters; other characters stay as they are.
abbrev lower_char : ℕ → ℕ
lower_char c = if between 65 90 c then c + 32 else c

unfoldable pub lower : Text → Text
lower = map lower_char

-- A text that is lowered stays as it is when it is lowered again.
lower_char_idem : (c : ℕ) → lower_char (lower_char c) ≡ lower_char c
lower_char_idem c = ground arith

pub lower_idem : (t : Text) → lower (lower t) ≡ lower t
unfolding lower
lower_idem [] = refl
lower_idem (c ∷ t) = rw (lower_char_idem c, lower_idem t) refl

unfoldable pub text_eq : Text → Text → Bool
text_eq [] [] = true
text_eq (a ∷ s) (b ∷ t) = a == b && text_eq s t
text_eq _ _ = false

unfoldable pub starts_with : Text → Text → Bool
starts_with t [] = true
starts_with [] (p ∷ ps) = false
starts_with (c ∷ t) (p ∷ ps) = c == p && starts_with t ps

-- `String.prototype.includes`.
unfoldable pub includes : Text → Text → Bool
unfolding starts_with
includes [] needle = starts_with [] needle
includes (c ∷ t) needle = starts_with (c ∷ t) needle || includes t needle

-- A text as a condition: the empty text is falsy.
abbrev pub truthy : Text → Bool
truthy [] = false
truthy (c ∷ t) = true

-- `text || ''`.
abbrev pub or_empty : Option Text → Text
or_empty none = []
or_empty (some t) = t

-- `value || fallback`.
abbrev pub or_default : Option Text → Text → Text
or_default none d = d
or_default (some []) d = d
or_default (some (c ∷ t)) d = c ∷ t

-- `['a', 'b', ...].includes(text)`.
unfoldable pub one_of : Text → List Text → Bool
unfolding text_eq
one_of t [] = false
one_of t (u ∷ us) = text_eq t u || one_of t us
