-- ===== src/Base/Text.antt =====
-- C strings: lists of character codes without the terminating NUL, and the functions of string.h
-- that the program calls on them. Past its end a string reads as NUL.
use Prim.Native.Nat.{ℕ, zero, suc, ◌<◌, ◌≤◌}
use Prim.Native.Char.{code}
use Prim.Native.String.{String}
use mathlib.Core.Path.{◌≡◌, refl}
use mathlib.Core.Logic.{◌≢◌}
use mathlib.Core.Bool.{Bool, true, false, not, ◌&&◌}
use mathlib.Core.List.{List, [], ◌∷◌, ◌++◌}
use mathlib.Core.Option.{Option, none, some}
use native.Mathlib.Omega.{arith}
use rt_csp.Base.Tests.{◌==◌, if◌then◌else◌}
use rt_csp.Base.Lists.{length, get_or}

-- The codes of a text, for constants.
abbrev pub codes : String → List ℕ
codes String.[] = []
codes (String.◌∷◌ c s) = code c ∷ codes s

abbrev pub char_at : List ℕ → ℕ → ℕ
char_at s i = get_or s i 0

-- Where `c` first stands among the first `n` characters: memchr.
abbrev pub memchr : List ℕ → ℕ → ℕ → Option ℕ
memchr [] c n = none
memchr (x ∷ xs) c zero = none
memchr (x ∷ xs) c (suc n) =
    if x == c then some 0 else elim (memchr xs c n) [ none ↦ none | some i ↦ some (suc i) ]

-- strcmp(a, b) == 0
abbrev pub str_eq : List ℕ → List ℕ → Bool
str_eq [] [] = true
str_eq [] (y ∷ ys) = false
str_eq (x ∷ xs) [] = false
str_eq (x ∷ xs) (y ∷ ys) = (x == y) && str_eq xs ys

-- strncmp(a, b, n) == 0: the first `n` characters are equal, or all up to a common end.
abbrev pub strncmp_eq : List ℕ → List ℕ → ℕ → Bool
strncmp_eq xs ys zero = true
strncmp_eq [] [] (suc n) = true
strncmp_eq [] (y ∷ ys) (suc n) = false
strncmp_eq (x ∷ xs) [] (suc n) = false
strncmp_eq (x ∷ xs) (y ∷ ys) (suc n) = (x == y) && strncmp_eq xs ys n

-- No character is NUL, as in every C string.
abbrev pub IsText : List ℕ → Type 0
IsText [] = Unit {0}
IsText (x ∷ xs) = (x ≢ 0) × IsText xs

pub char_at-zero : (s : List ℕ) (i : ℕ) → IsText s → char_at s i ≡ 0 → length s ≤ i
char_at-zero [] i t e = omega arith
char_at-zero (x ∷ xs) zero t e = absurd (t.0 e)
char_at-zero (x ∷ xs) (suc i) t e = omega (arith, char_at-zero xs i t.1 e)

pub char_at-ne_zero : (s : List ℕ) (i : ℕ) → char_at s i ≢ 0 → i < length s
char_at-ne_zero [] i ne = absurd (ne refl)
char_at-ne_zero (x ∷ xs) zero ne = omega arith
char_at-ne_zero (x ∷ xs) (suc i) ne = omega (arith, char_at-ne_zero xs i ne)

pub str_eq_refl : (s : List ℕ) → str_eq s s ≡ true
str_eq_refl [] = refl
str_eq_refl (x ∷ xs) = ground (arith, str_eq_refl xs)

pub str_eq_sound : (s t : List ℕ) → str_eq s t ≡ true → s ≡ t
str_eq_sound [] [] e = refl
str_eq_sound [] (y ∷ ys) e = cc
str_eq_sound (x ∷ xs) [] e = cc
str_eq_sound (x ∷ xs) (y ∷ ys) e = ground (arith, str_eq_sound xs ys)

pub strncmp_eq_refl : (s t : List ℕ) → strncmp_eq (s ++ t) s (length s) ≡ true
strncmp_eq_refl [] t = refl
strncmp_eq_refl (x ∷ xs) t = ground (arith, strncmp_eq_refl xs t)

-- The test that there is no NUL.
abbrev pub is_text : List ℕ → Bool
is_text [] = true
is_text (x ∷ xs) = not (x == 0) && is_text xs

pub is_text-IsText : (s : List ℕ) → is_text s ≡ true → IsText s
is_text-IsText [] e = tt
is_text-IsText (x ∷ xs) e = (ground arith, is_text-IsText xs (ground arith))
