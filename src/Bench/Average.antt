-- ===== src/Bench/Average.antt =====
-- The sums of the last ten seconds against the history of all seconds.
use rt_csp.Base.{
  ℕ, zero, suc, ◌+◌, ◌%◌, ◌<◌, ◌≡◌, refl, ap, sym, ◌∙◌, List, [], ◌∷◌, ◌++◌, append_assoc,
  append-nil, length, length-set, inl, inr, ◌⊎◌, set, drop, take, arith,
}
use mathlib.Core.Path.{ap₂}
use rt_csp.Queue.Fifo.{rest}
use rt_csp.Bench.Window.{avg_seconds}

-- The array from the oldest second to the newest.
abbrev pub oldest_first : List ℕ → ℕ → List ℕ
oldest_first xs i = drop i xs ++ take i xs

abbrev pub sum : List ℕ → ℕ
sum [] = 0
sum (x ∷ xs) = x + sum xs

pub sum-append : (xs ys : List ℕ) → sum (xs ++ ys) ≡ sum xs + sum ys
sum-append [] ys = omega arith
sum-append (x ∷ xs) ys = omega (arith, sum-append xs ys)

drop-length : (xs : List ℕ) → drop (length xs) xs ≡ []
drop-length [] = refl
drop-length (x ∷ xs) = drop-length xs

take-length : (xs : List ℕ) → take (length xs) xs ≡ xs
take-length [] = refl
take-length (x ∷ xs) = ap (λ ys. x ∷ ys) (take-length xs)

drop-set : (xs : List ℕ) (i n : ℕ) → drop (suc i) (set xs i n) ≡ drop (suc i) xs
drop-set [] i n = refl
drop-set (x ∷ xs) zero n = refl
drop-set (x ∷ xs) (suc i) n = drop-set xs i n

take-set : (xs : List ℕ) (i n : ℕ) → i < length xs → take (suc i) (set xs i n) ≡ take i xs ++ n ∷ []
take-set [] i n h = absurd (omega arith)
take-set (x ∷ xs) zero n h = refl
take-set (x ∷ xs) (suc i) n h = ap (λ ys. x ∷ ys) (take-set xs i n (omega arith))

rest-drop :
    (xs ys : List ℕ) (i : ℕ) → i < length xs → rest (drop i xs ++ ys) ≡ drop (suc i) xs ++ ys
rest-drop [] ys i h = absurd (omega arith)
rest-drop (x ∷ xs) ys zero h = refl
rest-drop (x ∷ xs) ys (suc i) h = rest-drop xs ys i (omega arith)

oldest_first-set :
    (xs : List ℕ) (i n : ℕ)
    → i < length xs
    → oldest_first (set xs i n) (suc i) ≡ rest (oldest_first xs i) ++ n ∷ []
oldest_first-set xs i n h =
    ap₂ (λ (a b : List ℕ). a ++ b) (drop-set xs i n) (take-set xs i n h)
    ∙ sym (append_assoc (drop (suc i) xs) (take i xs) (n ∷ []))
    ∙ ap (λ ys. ys ++ n ∷ []) (sym (rest-drop xs (take i xs) i h))

oldest_first-whole : (xs : List ℕ) → oldest_first xs (length xs) ≡ oldest_first xs 0
oldest_first-whole xs =
    rw append-nil (ap₂ (λ (a b : List ℕ). a ++ b) (drop-length xs) (take-length xs))

-- The next index, which wraps around at the end of the array.
next_index-cases :
    (i : ℕ)
    → i < avg_seconds
    → ((i + 1) % avg_seconds ≡ suc i) ⊎ ((suc i ≡ avg_seconds) × ((i + 1) % avg_seconds ≡ 0))
next_index-cases i h = ground arith

-- Writing at the oldest place and going on by one is a turn of the queue.
pub oldest_first-next :
    (xs : List ℕ) (i n : ℕ)
    → length xs ≡ avg_seconds
    → i < avg_seconds
    → oldest_first (set xs i n) ((i + 1) % avg_seconds) ≡ rest (oldest_first xs i) ++ n ∷ []
oldest_first-next xs i n size h = elim (next_index-cases i h) [
  | inl e ↦ rw e (oldest_first-set xs i n (omega arith))
  | inr (last, e) ↦ rw e (
      sym (oldest_first-whole (set xs i n))
      ∙ ap (oldest_first (set xs i n)) (length-set xs i n ∙ size ∙ sym last)
      ∙ oldest_first-set xs i n (omega arith))
]

pub sum-oldest_first : (xs : List ℕ) (i : ℕ) → sum (oldest_first xs i) ≡ sum xs
sum-oldest_first [] zero = refl
sum-oldest_first [] (suc i) = refl
sum-oldest_first (x ∷ xs) zero = ap sum (append-nil (x ∷ xs))
sum-oldest_first (x ∷ xs) (suc i) = omega (
  arith,
  sum-append (drop i xs) (x ∷ take i xs),
  sum-append (drop i xs) (take i xs),
  sum-oldest_first xs i,
)
