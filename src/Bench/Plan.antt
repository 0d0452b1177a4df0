-- ===== src/Bench/Plan.antt =====
-- The order in which bench_event.c goes through the `recvs` of all modules.
use rt_csp.Base.{
  ℕ, zero, suc, ◌-◌, ◌<◌, ◌≤◌, ◌≡◌, refl, ap, none, some, List, [], ◌∷◌, ◌++◌, length, get_elem?,
  get_or, drop, arith,
}
use rt_csp.Queue.Fifo.{rest}

-- The entries of one module, so many from index `i` on.
abbrev row : ℕ → ℕ → ℕ → List (ℕ × ℕ)
row m i zero = []
row m i (suc n) = (m, i) ∷ row m (suc i) n

abbrev plan_from : ℕ → List ℕ → List (ℕ × ℕ)
plan_from m [] = []
plan_from m (len ∷ lens) = row m 0 len ++ plan_from (suc m) lens

-- All entries of modules with so many `recvs`, module by module.
abbrev pub plan : List ℕ → List (ℕ × ℕ)
plan lens = plan_from 0 lens

-- What is left of the plan at entry `i` of module `m`.
abbrev pub remaining : List ℕ → ℕ → ℕ → List (ℕ × ℕ)
remaining lens m i = row m i (get_or lens m 0 - i) ++ plan_from (suc m) (drop (suc m) lens)

module _ {ℓ} {A : Type ℓ} where
  pub drop-suc : (n : ℕ) (xs : List A) → drop (suc n) xs ≡ rest (drop n xs)
  drop-suc zero [] = refl
  drop-suc zero (x ∷ xs) = refl
  drop-suc (suc n) [] = refl
  drop-suc (suc n) (x ∷ xs) = drop-suc n xs

  pub get_elem?-drop :
      (n : ℕ) (xs ys : List A) (y : A) → drop n xs ≡ y ∷ ys → get_elem? xs n ≡ some y
  get_elem?-drop zero [] ys y e = absurd cc
  get_elem?-drop zero (x ∷ xs) ys y e = ap (λ t. get_elem? t 0) e
  get_elem?-drop (suc n) [] ys y e = absurd cc
  get_elem?-drop (suc n) (x ∷ xs) ys y e = get_elem?-drop n xs ys y e

  pub length-drop_nil : (n : ℕ) (xs : List A) → drop n xs ≡ [] → length xs ≤ n
  length-drop_nil zero [] e = omega arith
  length-drop_nil zero (x ∷ xs) e = absurd cc
  length-drop_nil (suc n) [] e = omega arith
  length-drop_nil (suc n) (x ∷ xs) e = omega (arith, length-drop_nil n xs e)

pub get_elem?-get_or : (xs : List ℕ) (i : ℕ) → i < length xs → get_elem? xs i ≡ some (get_or xs i 0)
get_elem?-get_or [] i h = absurd (omega arith)
get_elem?-get_or (x ∷ xs) zero h = refl
get_elem?-get_or (x ∷ xs) (suc i) h = get_elem?-get_or xs i (omega arith)

drop-get_or : (xs : List ℕ) (i : ℕ) → i < length xs → drop i xs ≡ get_or xs i 0 ∷ drop (suc i) xs
drop-get_or [] i h = absurd (omega arith)
drop-get_or (x ∷ xs) zero h = refl
drop-get_or (x ∷ xs) (suc i) h = drop-get_or xs i (omega arith)

drop-beyond : (xs : List ℕ) (i : ℕ) → length xs ≤ i → drop i xs ≡ []
drop-beyond [] zero h = refl
drop-beyond [] (suc i) h = refl
drop-beyond (x ∷ xs) zero h = absurd (omega arith)
drop-beyond (x ∷ xs) (suc i) h = drop-beyond xs i (omega arith)

row_left : (m i n : ℕ) → i < n → row m i (n - i) ≡ (m, i) ∷ row m (suc i) (n - suc i)
row_left m i n h = let e : n - i ≡ suc (n - suc i) = omega arith in rw e refl

row_done : (m i n : ℕ) → n ≤ i → row m i (n - i) ≡ []
row_done m i n h = let e : n - i ≡ 0 = omega arith in rw e refl

-- The plan at an entry begins with it.
pub remaining-head :
    (lens : List ℕ) (m i : ℕ)
    → i < get_or lens m 0
    → remaining lens m i ≡ (m, i) ∷ rest (remaining lens m i)
remaining-head lens m i h = rw (row_left m i (get_or lens m 0) h) refl

pub remaining-next :
    (lens : List ℕ) (m i : ℕ)
    → i < get_or lens m 0
    → rest (remaining lens m i) ≡ remaining lens m (suc i)
remaining-next lens m i h = rw (row_left m i (get_or lens m 0) h) refl

-- After the last entry of a module comes the first of the next.
pub remaining-turn :
    (lens : List ℕ) (m i : ℕ)
    → get_or lens m 0 ≤ i
    → suc m < length lens
    → remaining lens m i ≡ remaining lens (suc m) 0
remaining-turn lens m i last h =
    let whole : get_or lens (suc m) 0 - 0 ≡ get_or lens (suc m) 0 = omega arith in
    rw (row_done m i (get_or lens m 0) last, drop-get_or lens (suc m) h, whole) refl

pub remaining-end :
    (lens : List ℕ) (m i : ℕ) → get_or lens m 0 ≤ i → length lens ≤ suc m → remaining lens m i ≡ []
remaining-end lens m i last h =
    rw (row_done m i (get_or lens m 0) last, drop-beyond lens (suc m) h) refl

pub plan-remaining : (lens : List ℕ) → 0 < length lens → plan lens ≡ remaining lens 0 0
plan-remaining [] h = absurd (omega arith)
plan-remaining (len ∷ lens) h = let whole : len - 0 ≡ len = omega arith in rw whole refl

module _ {ℓ} {A : Type ℓ} where
  pub get_elem?-drop_nil : (n : ℕ) (xs : List A) → drop n xs ≡ [] → get_elem? xs n ≡ none
  get_elem?-drop_nil zero [] e = refl
  get_elem?-drop_nil zero (x ∷ xs) e = absurd cc
  get_elem?-drop_nil (suc n) [] e = refl
  get_elem?-drop_nil (suc n) (x ∷ xs) e = get_elem?-drop_nil n xs e
