-- ===== src/Serialize/Bounded.antt =====
-- Strings and arrays of bounded length that are written are read back.
use rt_csp.Base.{
  length-replicate, append-nil, ℕ, zero, suc, ◌+◌, ◌-◌, ◌^◌, ◌<◌, ◌≤◌, ◌≡◌, refl, ap, sym, ◌∙◌,
  some, List, [], ◌∷◌, ◌++◌, length, drop, take, take-append, min, replicate, arith,
}
use rt_csp.Serialize.{
  Format, Value, string_length, arrlen, print_bytes, print_items, serialize_string_ex,
}
use rt_csp.Serialize.Number.{print_nat}
use rt_csp.Serialize.Elements.{read, parse_counted}
use rt_csp.Serialize.Parse.{first_cells, blank, parse_array, _serialize_parse}
use rt_csp.Serialize.Strings.{
  head_found, parse_counted-empty, parse_counted-print_bytes, length-print_bytes,
}
use rt_csp.Serialize.Arrays.{
  AllOf, RoundTrips, print_array, parse_array-empty, parse_array-print_array,
}

-- An array in memory of `n` cells, all blank behind those that are counted.
abbrev pub Counted : {A : Type 0} → ℕ → A → ℕ × List A → Type 0
Counted n x v = v.0 ≤ n × length (take v.0 v.1) ≡ v.0 × v.1 ≡ take v.0 v.1 ++ replicate (n - v.0) x

take_all {ℓ} : {A : Type ℓ} (n : ℕ) (xs : List A) → length xs ≤ n → take n xs ≡ xs
take_all zero [] h = refl
take_all zero (x ∷ xs) h = absurd (omega arith)
take_all (suc n) [] h = refl
take_all (suc n) (x ∷ xs) h = ap (λ t. x ∷ t) (take_all n xs (omega arith))

take-replicate {ℓ} : {A : Type ℓ} (m n : ℕ) (x : A) → m ≤ n → take m (replicate n x) ≡ replicate m x
take-replicate zero n x h = refl
take-replicate (suc m) zero x h = absurd (omega arith)
take-replicate (suc m) (suc n) x h = ap (λ t. x ∷ t) (take-replicate m n x (omega arith))

drop-replicate {ℓ} :
    {A : Type ℓ} (m n : ℕ) (x : A) → m ≤ n → drop m (replicate n x) ≡ replicate (n - m) x
drop-replicate zero n x h = ap (λ j. replicate j x) (omega arith)
drop-replicate (suc m) zero x h = absurd (omega arith)
drop-replicate (suc m) (suc n) x h =
    drop-replicate m n x (omega arith) ∙ ap (λ j. replicate j x) (omega arith)

-- Clamped to the size of the array, no cell is behind its end.
pub first_cells-take {ℓ} :
    {A : Type ℓ} (n m : ℕ) (x : A) (old : List A)
    → length old ≡ n
    → first_cells x (min m n) old ≡ take (min m n) old
first_cells-take n m x old e =
    let z : min m n - length old ≡ 0 = ground arith in rw z (append-nil (take (min m n) old))

pub parts_of :
    (n : ℕ) (f : Format) (v : ℕ × List (Value f))
    → Counted n (blank f) v
    → (length (take v.0 v.1), take v.0 v.1 ++ replicate (n - length (take v.0 v.1)) (blank f)) ≡ v
parts_of n f v h =
    ap (λ j. (j, take v.0 v.1 ++ replicate (n - j) (blank f))) h.1 ∙ ap (λ t. (v.0, t)) (sym h.2)

module _ (junk : (f : Format) → Value f) (k : ℕ) where
  pub string_length-RoundTrips :
      (n : ℕ) (s : List ℕ) → length s ≤ n → RoundTrips junk k (string_length n) s
  unfolding _serialize_parse serialize_string_ex blank
  string_length-RoundTrips n [] h rest buflen small fits =
      head_found k b'S' (print_bytes [] ++ rest) buflen (parse_counted [] (λ b. some (take n b)))
        (omega (arith, fits)) small
      ∙ parse_counted-empty [] (λ b. some (take n b)) rest buflen 2
      ∙ ap (read []) (omega arith)
  string_length-RoundTrips n (c ∷ s) h rest buflen small fits =
      head_found k b'S' (print_bytes (c ∷ s) ++ rest) buflen
        (parse_counted [] (λ b. some (take n b))) (omega (arith, fits)) small
      ∙ parse_counted-print_bytes [] (c ∷ s) (λ b. some (take n b)) c s rest buflen 2
          (ap some (take_all n (c ∷ s) h)) (omega (arith, fits, length-print_bytes (c ∷ s)))
          (omega (arith, fits))
      ∙ ap (read (c ∷ s)) (omega arith)

  arrlen_written :
      (n : ℕ) (f : Format) (xs : List (Value f))
      → serialize_string_ex (arrlen n f) (length xs, xs ++ replicate (n - length xs) (blank f))
        ≡ b'A' ∷ b':' ∷ print_array f xs
  unfolding serialize_string_ex
  arrlen_written n f xs =
      ap
        (λ t.
          b'A' ∷ b':' ∷ print_nat (length xs)
          ++ b'[' ∷ print_items (serialize_string_ex f) t
          ++ b']' ∷ [])
        (take-append xs (replicate (n - length xs) (blank f)))

  taken_cells :
      (n m : ℕ) (f : Format)
      → m ≤ n
      → take (min m n) (replicate n (blank f)) ≡ replicate m (blank f)
  taken_cells n m f h = let e : min m n ≡ m = ground arith in rw e (take-replicate m n (blank f) h)

  fresh_cells :
      (n m : ℕ) (f : Format)
      → m ≤ n
      → first_cells (blank f) (min m n) (replicate n (blank f)) ≡ replicate m (blank f)
  fresh_cells n m f h =
      first_cells-take n m (blank f) (replicate n (blank f)) (length-replicate n (blank f))
      ∙ taken_cells n m f h

  filled_cells :
      (n : ℕ) (f : Format) (xs : List (Value f))
      → length xs ≤ n
      → xs ++ drop (length xs) (replicate n (blank f)) ≡ xs ++ replicate (n - length xs) (blank f)
  filled_cells n f xs h = ap (λ t. xs ++ t) (drop-replicate (length xs) n (blank f) h)

  -- The cells behind those that are counted stay blank.
  filled-RoundTrips :
      (n : ℕ) (f : Format) (xs : List (Value f))
      → length xs ≤ n
      → AllOf (RoundTrips junk k f) xs
      → (rest : List ℕ) (buflen : ℕ) → buflen < 2 ^ 32
      → 2 + length (print_array f xs) ≤ buflen
      → _serialize_parse junk
          (suc k)
          (arrlen n f)
          (blank (arrlen n f))
          (b'A' ∷ b':' ∷ print_array f xs ++ rest)
          buflen
        ≡ read
            (length xs, xs ++ replicate (n - length xs) (blank f))
            (2 + length (print_array f xs))
  unfolding _serialize_parse blank
  filled-RoundTrips n f [] h all rest buflen small fits =
      head_found k b'A' (print_array f [] ++ rest) buflen
        (parse_array (0, replicate n (blank f))
          (λ m. some (first_cells (blank f) (min m n) (replicate n (blank f))))
          (λ vs. (length vs, vs ++ drop (length vs) (replicate n (blank f))))
          (_serialize_parse junk (suc k) f))
        (omega (arith, fits)) small
      ∙ parse_array-empty junk k f (0, replicate n (blank f)) (0, replicate n (blank f))
          (λ m. some (first_cells (blank f) (min m n) (replicate n (blank f))))
          (λ vs. (length vs, vs ++ drop (length vs) (replicate n (blank f)))) rest buflen 2
      ∙ ap (λ j. read (0, replicate j (blank f)) (2 + length (print_array f []))) (omega arith)
  filled-RoundTrips n f (x ∷ xs) h all rest buflen small fits =
      head_found k b'A' (print_array f (x ∷ xs) ++ rest) buflen
        (parse_array (0, replicate n (blank f))
          (λ m. some (first_cells (blank f) (min m n) (replicate n (blank f))))
          (λ vs. (length vs, vs ++ drop (length vs) (replicate n (blank f))))
          (_serialize_parse junk (suc k) f))
        (omega (arith, fits)) small
      ∙ parse_array-print_array junk k f (0, replicate n (blank f))
          (length (x ∷ xs), (x ∷ xs) ++ replicate (n - length (x ∷ xs)) (blank f))
          (λ m. some (first_cells (blank f) (min m n) (replicate n (blank f))))
          (λ vs. (length vs, vs ++ drop (length vs) (replicate n (blank f)))) x xs rest buflen 2
          (ap some (fresh_cells n (length (x ∷ xs)) f h))
          (ap (λ t. (length (x ∷ xs), t)) (filled_cells n f (x ∷ xs) h)) all small fits

  pub arrlen-RoundTrips :
      (n : ℕ) (f : Format) (xs : List (Value f))
      → length xs ≤ n
      → AllOf (RoundTrips junk k f) xs
      → RoundTrips junk k (arrlen n f) (length xs, xs ++ replicate (n - length xs) (blank f))
  arrlen-RoundTrips n f xs h all rest buflen small fits =
      let e = arrlen_written n f xs in
      let size : length (
            serialize_string_ex (arrlen n f) (length xs, xs ++ replicate (n - length xs) (blank f)))
          ≡ 2 + length (print_array f xs) =
        ap length e ∙ omega arith in
      rw e (
        filled-RoundTrips n f xs h all rest buflen small (omega (arith, fits, size))
        ∙ ap (read (length xs, xs ++ replicate (n - length xs) (blank f))) (omega arith))
