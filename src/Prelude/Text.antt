-- ===== src/Prelude/Text.antt =====
-- Python's `str.strip`, and the test `not text.strip()` by which blank names are refused.
use Prim.Native.Nat.{ℕ, compare, Ordering}
use Prim.Native.Char.{Char, code}
use Prim.Native.String.{String, ◌++◌}
use mathlib.Core.Path.{◌≡◌, refl}
use mathlib.Core.Bool.{Bool, true, false, ◌&&◌, ◌||◌}
use native.Mathlib.Omega.{arith}
use responsibility_pathway_r.Prelude.Tests.{leb, if◌then◌else◌}

abbrev equal_to : ℕ → ℕ → Bool
equal_to a b = elim (compare a b) [ Ordering.eq ↦ true | _ ↦ false ]

-- The code points for which Python's `str.isspace` holds.
unfoldable pub is_space : ℕ → Bool
is_space c =
    (leb 9 c && leb c 13)
    || (leb 28 c && leb c 32)
    || equal_to c 133
    || equal_to c 160
    || equal_to c 5760
    || (leb 8192 c && leb c 8202)
    || equal_to c 8232
    || equal_to c 8233
    || equal_to c 8239
    || equal_to c 8287
    || equal_to c 12288

-- `a + b`
abbrev pub concat : String → String → String
concat a b = a ++ b

abbrev pub is_empty : String → Bool
is_empty String.[] = true
is_empty (String.◌∷◌ _ _) = false

-- `not text.strip()`
unfoldable pub is_blank : String → Bool
unfolding is_space
is_blank String.[] = true
is_blank (String.◌∷◌ c s) = is_space (code c) && is_blank s

unfoldable pub strip_left : String → String
unfolding is_space
strip_left String.[] = String.[]
strip_left (String.◌∷◌ c s) = if is_space (code c) then strip_left s else String.◌∷◌ c s

unfoldable pub keep_right : Char → String → String
unfolding is_space
keep_right c rest = if is_empty rest && is_space (code c) then String.[] else String.◌∷◌ c rest

unfoldable pub strip_right : String → String
unfolding keep_right
strip_right String.[] = String.[]
strip_right (String.◌∷◌ c s) = keep_right c (strip_right s)

unfoldable pub strip : String → String
unfolding strip_left strip_right
strip s = strip_right (strip_left s)

is_empty-strip_right : (s : String) → is_empty (strip_right s) ≡ is_blank s
unfolding strip_right is_blank keep_right
is_empty-strip_right String.[] = refl
is_empty-strip_right (String.◌∷◌ c s) = ground (arith, is_empty-strip_right s)

is_blank-strip_left : (s : String) → is_blank (strip_left s) ≡ is_blank s
unfolding strip_left is_blank
is_blank-strip_left String.[] = refl
is_blank-strip_left (String.◌∷◌ c s) = ground (arith, is_blank-strip_left s)

-- A text is blank exactly when nothing of it is left by `strip`.
pub is_empty-strip : (s : String) → is_empty (strip s) ≡ is_blank s
unfolding strip
is_empty-strip s = ground (arith, is_empty-strip_right (strip_left s), is_blank-strip_left s)
