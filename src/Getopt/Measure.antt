-- ===== src/Getopt/Measure.antt =====
-- What is left of the command line, the measure by which the option loop goes forward, and what its
-- states and option tables satisfy.
use rt_csp.Base.{
  ℕ, zero, suc, ◌+◌, ◌-◌, ◌<◌, ◌≤◌, ◌≡◌, ◌≢◌, true, false, Option, none, some, List, [], ◌∷◌, arith,
  ◌==◌, if◌then◌else◌, length, get_elem?, if_cases,
}
use native.Mathlib.Numerals.{towards_suc}
use rt_csp.Getopt.{
  Opt, State, Result, eof, code, outside, find_long, find_short, is_long, matches_long,
}

-- The characters from argument `i` on, one more for each argument.
unfoldable pub remaining : List (List ℕ) → ℕ → ℕ
remaining [] i = 0
remaining (x ∷ xs) zero = suc (length x) + remaining xs zero
remaining (x ∷ xs) (suc i) = remaining xs i

remaining-suc :
    (argv : List (List ℕ)) (i : ℕ) (arg : List ℕ)
    → get_elem? argv i ≡ some arg
    → remaining argv i ≡ suc (length arg) + remaining argv (suc i)
unfolding remaining
remaining-suc [] i arg e = cc
remaining-suc (x ∷ []) zero arg e = ground arith
remaining-suc (x ∷ y ∷ xs) zero arg e = ground arith
remaining-suc (x ∷ xs) (suc i) arg e = remaining-suc xs i arg e

remaining_le : (argv : List (List ℕ)) (i : ℕ) → remaining argv (suc i) ≤ remaining argv i
unfolding remaining
remaining_le [] i = omega arith
remaining_le (x ∷ []) zero = omega arith
remaining_le (x ∷ y ∷ xs) zero = omega arith
remaining_le (x ∷ xs) (suc i) = remaining_le xs i

pub remaining_add :
    (argv : List (List ℕ)) (i : ℕ)
    → (remaining argv (i + 1) ≤ remaining argv i)
      × (remaining argv (i + 2) ≤ remaining argv (i + 1))
remaining_add argv i = simp towards_suc (remaining_le argv i, remaining_le argv (suc i))

pub remaining_at :
    (argv : List (List ℕ)) (i : ℕ) (arg : List ℕ)
    → get_elem? argv i ≡ some arg
    → remaining argv i ≡ suc (length arg) + remaining argv (i + 1)
remaining_at argv i arg e = simp towards_suc (remaining-suc argv i arg e)

-- Inside a cluster `-abc` the current character lies within the current argument.
unfoldable pub IsState : List (List ℕ) → State → Type 0
IsState argv s =
    s.dash ≡ true
    → (arg : List ℕ) × (get_elem? argv s.optind ≡ some arg)
      × (1 ≤ s.optchr)
      × (s.optchr < length arg)
      × (is_long arg ≡ false)

-- What is left of the command line.
unfoldable pub left_over : List (List ℕ) → State → ℕ
left_over argv s = remaining argv s.optind - (if s.dash then s.optchr else 0)

-- The end, or an option has been returned and less than `m` is left.
unfoldable pub Below : List (List ℕ) → ℕ → Option (State × Result) → Type 0
Below argv m none = ⊥
Below argv m (some (s, eof)) = Unit {0}
Below argv m (some (s, code c)) = IsState argv s × (left_over argv s < m)

-- The option table ends with an option `-`.
unfoldable pub IsTerminated : List Opt → Type 0
IsTerminated [] = ⊥
IsTerminated (o ∷ os) = (o.opt_char == b'-') ≡ false → IsTerminated os

pub find_long-terminated :
    (opts : List Opt) (name : List ℕ) (n idx : ℕ)
    → IsTerminated opts
    → find_long opts name n idx ≢ outside
unfolding find_long IsTerminated
find_long-terminated [] name n idx t = absurd t
find_long-terminated (o ∷ os) name n idx t =
    if_cases (λ f. f ≢ outside) (o.opt_char == b'-') _ _ (λ _ e. cc)
      (λ z.
        if_cases (λ f. f ≢ outside) (matches_long name n o.opt_name) _ _ (λ _ e. cc)
          (λ _. find_long-terminated os name n (suc idx) (t z)))

pub find_short-terminated :
    (opts : List Opt) (c idx : ℕ) → IsTerminated opts → find_short opts c idx ≢ outside
unfolding find_short IsTerminated
find_short-terminated [] c idx t = absurd t
find_short-terminated (o ∷ os) c idx t =
    if_cases (λ f. f ≢ outside) (o.opt_char == b'-') _ _ (λ _ e. cc)
      (λ z.
        if_cases (λ f. f ≢ outside) (c == o.opt_char) _ _ (λ _ e. cc)
          (λ _. find_short-terminated os c (suc idx) (t z)))

pub within_of_some {ℓ} :
    {A : Type ℓ} (xs : List A) (i : ℕ) (a : A) → get_elem? xs i ≡ some a → i < length xs
within_of_some [] i a e = cc
within_of_some (x ∷ xs) zero a e = omega arith
within_of_some (x ∷ xs) (suc i) a e = omega (arith, within_of_some xs i a e)

pub some_of_within {ℓ} : {A : Type ℓ} (xs : List A) (i : ℕ) → i < length xs → get_elem? xs i ≢ none
some_of_within [] i h e = absurd (omega arith)
some_of_within (x ∷ xs) zero h e = cc
some_of_within (x ∷ xs) (suc i) h e = some_of_within xs i (omega arith) e
