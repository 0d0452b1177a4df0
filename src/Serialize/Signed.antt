-- ===== src/Serialize/Signed.antt =====
-- Signed numbers that are printed are read back.
use rt_csp.Base.{
  ℕ, zero, suc, ◌+◌, ◌^◌, ◌<◌, ◌≤◌, ◌≡◌, ap, ◌∙◌, true, false, List, ◌∷◌, ◌++◌, length,
  length-append, ℤ, pos, negsuc, arith,
}
use rt_csp.Serialize.Number.{print_nat, print_int, is_digit, after_sign, read_number, strtol}
use rt_csp.Serialize.Digits.{print_nat-Reads, stop_at, read_number-print_nat}

minus_taken : (n k l : ℕ) → 1 ≤ k → k ≡ l → after_sign true 1 (suc n, k) ≡ (negsuc n, suc l)
minus_taken n zero l h e = absurd (omega arith)
minus_taken n (suc k) l h e = ap (λ m. (negsuc n, m)) (omega arith)

read_number-minus :
    (n c : ℕ) (rest : List ℕ)
    → suc n < 2 ^ 64
    → is_digit c ≡ false
    → read_number (b'-' ∷ print_nat (suc n) ++ c ∷ rest) 0
      ≡ (negsuc n, suc (length (print_nat (suc n))))
unfolding read_number
read_number-minus n c rest h stop =
    let r = print_nat-Reads (suc n) (c ∷ rest) h in
    ap (after_sign true 1) (r.goes_on ∙ stop_at (suc n) (0 + r.taken) c rest stop)
    ∙ minus_taken n (0 + r.taken) (length (print_nat (suc n))) (omega (arith, r.some_taken))
        (omega (arith, r.size, length-append (print_nat (suc n)) (c ∷ rest)))

-- The value fits in `long`, or in fewer bits: `m` is half of what there is.
abbrev pub Fits : ℕ → ℤ → Type 0
Fits m (pos n) = n < m
Fits m (negsuc n) = n < m

-- A number that is printed by `%d` or `%ld`, with anything but a digit behind it, is read back by
-- `strtol`, which stops right behind its digits.
pub strtol-print_int :
    (v : ℤ) (c : ℕ) (rest : List ℕ)
    → Fits (2 ^ 63) v
    → is_digit c ≡ false
    → strtol (print_int v ++ c ∷ rest) ≡ (v, length (print_int v))
unfolding strtol
strtol-print_int (pos n) c rest h stop =
    rw (read_number-print_nat n c rest (omega arith) stop)
      (ap (λ m. (pos m, length (print_nat n))) (omega arith))
strtol-print_int (negsuc n) c rest h stop =
    rw (read_number-minus n c rest (omega arith) stop)
      (ap (λ m. (negsuc m, suc (length (print_nat (suc n))))) (omega arith))
