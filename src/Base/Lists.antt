-- ===== src/Base/Lists.antt =====
-- Lists measured and indexed by native numbers, under the library's names.
use Prim.Native.Nat.{ℕ, zero, suc, ◌+◌, ◌<◌}
use mathlib.Core.Path.{◌≡◌, refl, ap, subst}
use mathlib.Core.Logic.{◌≢◌}
use mathlib.Core.List.{List, [], ◌∷◌, ◌++◌}
use mathlib.Core.Option.{Option, none, some}
use native.Mathlib.Omega.{arith}
use rt_csp.Base.Tests.{◌==◌, if◌then◌else◌}

module _ {ℓ} {A : Type ℓ} where
  abbrev pub length : List A → ℕ
  length [] = 0
  length (x ∷ xs) = suc (length xs)

  abbrev pub get_elem? : List A → ℕ → Option A
  get_elem? [] i = none
  get_elem? (x ∷ xs) zero = some x
  get_elem? (x ∷ xs) (suc i) = get_elem? xs i

  -- A write out of bounds changes nothing.
  abbrev pub set : List A → ℕ → A → List A
  set [] i v = []
  set (x ∷ xs) zero v = v ∷ xs
  set (x ∷ xs) (suc i) v = x ∷ set xs i v

  abbrev pub get_or : List A → ℕ → A → A
  get_or [] i d = d
  get_or (x ∷ xs) zero d = x
  get_or (x ∷ xs) (suc i) d = get_or xs i d

  abbrev pub drop : ℕ → List A → List A
  drop zero xs = xs
  drop (suc n) [] = []
  drop (suc n) (x ∷ xs) = drop n xs

  abbrev pub take : ℕ → List A → List A
  take zero xs = []
  take (suc n) [] = []
  take (suc n) (x ∷ xs) = x ∷ take n xs

  abbrev pub replicate : ℕ → A → List A
  replicate zero a = []
  replicate (suc n) a = a ∷ replicate n a

module _ {ℓ} {A : Type ℓ} where
  pub length-append : (xs ys : List A) → length (xs ++ ys) ≡ length xs + length ys
  length-append [] ys = omega arith
  length-append (x ∷ xs) ys = omega (arith, length-append xs ys)

  pub length-set : (xs : List A) (i : ℕ) (v : A) → length (set xs i v) ≡ length xs
  length-set [] i v = refl
  length-set (x ∷ xs) zero v = refl
  length-set (x ∷ xs) (suc i) v = ap suc (length-set xs i v)

  pub length-replicate : (n : ℕ) (a : A) → length (replicate n a) ≡ n
  length-replicate zero a = refl
  length-replicate (suc n) a = ap suc (length-replicate n a)

  pub get_elem?-set_self :
      (xs : List A) (i : ℕ) (v : A) → i < length xs → get_elem? (set xs i v) i ≡ some v
  get_elem?-set_self [] i v h = elim h [ ]
  get_elem?-set_self (x ∷ xs) zero v h = refl
  get_elem?-set_self (x ∷ xs) (suc i) v h = get_elem?-set_self xs i v (omega arith)

  pub get_elem?-set_ne :
      (xs : List A) (i j : ℕ) (v : A) → i ≢ j → get_elem? (set xs i v) j ≡ get_elem? xs j
  get_elem?-set_ne [] i j v h = refl
  get_elem?-set_ne (x ∷ xs) zero zero v h = absurd (h refl)
  get_elem?-set_ne (x ∷ xs) zero (suc j) v h = refl
  get_elem?-set_ne (x ∷ xs) (suc i) zero v h = refl
  get_elem?-set_ne (x ∷ xs) (suc i) (suc j) v h = get_elem?-set_ne xs i j v (λ e. h (ap suc e))

  pub drop-append : (xs ys : List A) → drop (length xs) (xs ++ ys) ≡ ys
  drop-append [] ys = refl
  drop-append (x ∷ xs) ys = drop-append xs ys

  pub take-append : (xs ys : List A) → take (length xs) (xs ++ ys) ≡ xs
  take-append [] ys = refl
  take-append (x ∷ xs) ys = ap (λ t. x ∷ t) (take-append xs ys)

-- How often a number stands in a list.
abbrev pub occurs : ℕ → List ℕ → ℕ
occurs c [] = 0
occurs c (b ∷ bs) = (if b == c then 1 else 0) + occurs c bs

pub occurs-append : (c : ℕ) (bs cs : List ℕ) → occurs c (bs ++ cs) ≡ occurs c bs + occurs c cs
occurs-append c [] cs = omega arith
occurs-append c (b ∷ bs) cs = let rest = occurs-append c bs cs in omega arith

module _ {ℓ} {A : Type ℓ} where
  pub get_or-set :
      (xs : List A) (i j : ℕ) (v d : A)
      → i < length xs
      → get_or (set xs i v) j d ≡ (if i == j then v else get_or xs j d)
  get_or-set [] i j v d h = elim h [ ]
  get_or-set (x ∷ xs) zero zero v d h = ground arith
  get_or-set (x ∷ xs) zero (suc j) v d h = ground arith
  get_or-set (x ∷ xs) (suc i) zero v d h = ground arith
  get_or-set (x ∷ xs) (suc i) (suc j) v d h = ground (arith, get_or-set xs i j v d (omega arith))

  pub get_or-replicate : (n i : ℕ) (a : A) → get_or (replicate n a) i a ≡ a
  get_or-replicate zero i a = refl
  get_or-replicate (suc n) zero a = refl
  get_or-replicate (suc n) (suc i) a = get_or-replicate n i a

  -- A map from numbers, changed at one place.
  abbrev pub update : (ℕ → A) → ℕ → A → ℕ → A
  update f k v a = if a == k then v else f a

-- The sum of a number for each element.
module _ {ℓ} {A : Type ℓ} where
  abbrev pub tally : (A → ℕ) → List A → ℕ
  tally w [] = 0
  tally w (x ∷ xs) = w x + tally w xs

  pub tally-set :
      (w : A → ℕ) (xs : List A) (i : ℕ) (a b : A)
      → get_elem? xs i ≡ some a
      → tally w (set xs i b) + w a ≡ tally w xs + w b
  tally-set w [] i a b e = cc
  tally-set w (x ∷ xs) zero a b e = ground arith
  tally-set w (x ∷ xs) (suc i) a b e = omega (arith, tally-set w xs i a b e)

  pub tally-replicate : (w : A → ℕ) (n : ℕ) (a : A) → w a ≡ 0 → tally w (replicate n a) ≡ 0
  tally-replicate w zero a e = refl
  tally-replicate w (suc n) a e = omega (arith, tally-replicate w n a e)

  pub tally-append : (w : A → ℕ) (xs ys : List A) → tally w (xs ++ ys) ≡ tally w xs + tally w ys
  tally-append w [] ys = omega arith
  tally-append w (x ∷ xs) ys = omega (arith, tally-append w xs ys)

-- What holds of a result holds of what it is known to be.
pub some_rule {ℓ κ} : {A : Type ℓ} (P : A → Type κ) (x y : A) → P x → some x ≡ some y → P y
some_rule P x y h e = subst P (ap (λ o. elim o [ none ↦ x | some z ↦ z ]) e) h

module _ {ℓ} {A : Type ℓ} where
  pub set-append : (xs ys : List A) (x y : A) → set (xs ++ x ∷ ys) (length xs) y ≡ xs ++ y ∷ ys
  set-append [] ys x y = refl
  set-append (z ∷ xs) ys x y = ap (λ t. z ∷ t) (set-append xs ys x y)
