-- ===== src/Serialize/Digits.antt =====
-- Numbers that are printed are read back.
use rt_csp.Base.{
  ℕ, zero, suc, ◌+◌, ◌-◌, ◌*◌, ◌/◌, ◌%◌, ◌^◌, ◌<◌, ◌≤◌, ◌≡◌, refl, ap, ◌∙◌, true, false, List, [],
  ◌∷◌, ◌++◌, ◌==◌, if_cases, Bool-cases, inl, inr, length, length-append, arith, pos,
}
use mathlib.Core.Path.{ap₂}
use native.Mathlib.Nat.{pow-suc}
use rt_csp.Serialize.Number.{
  digits_to, print_nat, is_digit, is_space, read_digits, after_sign, read_number, strtoul,
}

-- Reading the digits of `n` before `out` goes on at `out` with `n`.
pub record Reads (n j : ℕ) (out s : List ℕ) : Type 0 where
  pub taken : ℕ
  pub size : length s ≡ taken + length out
  pub some_taken : 1 ≤ taken
  pub goes_on : read_digits s 0 j ≡ read_digits out n (j + taken)

digit-step :
    (d acc j : ℕ) (out : List ℕ)
    → d < 10
    → read_digits ((d + b'0') ∷ out) acc j ≡ read_digits out (acc * 10 + d) (suc j)
unfolding read_digits
digit-step d acc j out h =
    let t : is_digit (d + b'0') ≡ true = ground arith in
    let e : d + b'0' - b'0' ≡ d = omega arith in rw (t, read_digits) (rw e)

one_digit : (n j : ℕ) (out : List ℕ) → n / 10 ≡ 0 → Reads n j out ((n % 10 + b'0') ∷ out)
one_digit n j out h = record {
  taken = 1;
  size = omega arith;
  some_taken = omega arith;
  goes_on =
      digit-step (n % 10) 0 j out (omega arith) ∙ ap₂ (read_digits out) (omega arith) (omega arith);
}

more_digits :
    (n j : ℕ) (out s : List ℕ) → Reads (n / 10) j ((n % 10 + b'0') ∷ out) s → Reads n j out s
more_digits n j out s r = record {
  taken = r.taken + 1;
  size = omega (arith, r.size);
  some_taken = omega arith;
  goes_on =
      r.goes_on
      ∙ digit-step (n % 10) (n / 10) (j + r.taken) out (omega arith)
      ∙ ap₂ (read_digits out) (omega arith) (omega arith);
}

digits_to-Reads :
    (k n j : ℕ) (out : List ℕ) → n < 10 ^ suc k → Reads n j out (digits_to (suc k) n out)
unfolding digits_to
digits_to-Reads zero n j out h =
    let z : (n / 10 == 0) ≡ true = ground arith in rw z (one_digit n j out (omega arith))
digits_to-Reads (suc k) n j out h = elim (Bool-cases (n / 10 == 0)) [
  | inl z ↦ rw z (one_digit n j out (ground arith))
  | inr more ↦ rw more (
      more_digits n j out _
        (digits_to-Reads k (n / 10) j ((n % 10 + b'0') ∷ out) (omega (arith, pow-suc 10 (suc k)))))
]

DigitHead : ℕ → List ℕ → Type 0
DigitHead n [] = ⊥
DigitHead n (c ∷ s) = is_digit c ≡ true

digits_to-head : (k n : ℕ) (out : List ℕ) → DigitHead n (digits_to (suc k) n out)
unfolding digits_to DigitHead
digits_to-head zero n out =
    if_cases (DigitHead n) (n / 10 == 0) _ _ (λ _. ground arith) (λ _. ground arith)
digits_to-head (suc k) n out =
    if_cases (DigitHead n) (n / 10 == 0) _ _ (λ _. ground arith)
      (λ _. digits_to-head k (n / 10) ((n % 10 + b'0') ∷ out))

-- Text that begins with a digit has no white space or sign to skip.
read_number-digits :
    (n : ℕ) (s : List ℕ) → DigitHead n s → read_number s 0 ≡ after_sign false 0 (read_digits s 0 0)
unfolding read_number DigitHead
read_number-digits n [] h = absurd h
read_number-digits n (c ∷ s) h =
    let a : is_space c ≡ false = ground arith in
    let b : (c == b'-') ≡ false = ground arith in
    let d : (c == b'+') ≡ false = ground arith in rw (a, read_number) (rw (b, d))

pub stop_at :
    (n k : ℕ) (c : ℕ) (rest : List ℕ) → is_digit c ≡ false → read_digits (c ∷ rest) n k ≡ (n, k)
unfolding read_digits
stop_at n k c rest h = rw (h, read_digits)

digits_to-append :
    (k n : ℕ) (out rest : List ℕ) → digits_to k n out ++ rest ≡ digits_to k n (out ++ rest)
unfolding digits_to
digits_to-append zero n out rest = refl
digits_to-append (suc k) n out rest =
    if_cases (λ s. s ++ rest ≡ digits_to (suc k) n (out ++ rest)) (n / 10 == 0) _ _ (λ z. rw z)
      (λ m. digits_to-append k (n / 10) _ rest ∙ rw m)

pub print_nat-Reads : (n : ℕ) (out : List ℕ) → n < 2 ^ 64 → Reads n 0 out (print_nat n ++ out)
unfolding print_nat
print_nat-Reads n out h =
    rw (digits_to-append 20 n [] out) (digits_to-Reads 19 n 0 out (omega arith))

count_taken : (n k l : ℕ) → 1 ≤ k → k ≡ l → after_sign false 0 (n, k) ≡ (pos n, l)
count_taken n zero l h e = absurd (omega arith)
count_taken n (suc k) l h e = ap (λ m. (pos n, m)) (omega arith)

pub read_number-print_nat :
    (n c : ℕ) (rest : List ℕ)
    → n < 2 ^ 64
    → is_digit c ≡ false
    → read_number (print_nat n ++ c ∷ rest) 0 ≡ (pos n, length (print_nat n))
read_number-print_nat n c rest h stop =
    let r = print_nat-Reads n (c ∷ rest) h in
    read_number-digits n (print_nat n ++ c ∷ rest) (
      unfold print_nat in rw (digits_to-append 20 n [] (c ∷ rest)) (digits_to-head 19 n (c ∷ rest)))
    ∙ ap (after_sign false 0) (r.goes_on ∙ stop_at n (0 + r.taken) c rest stop)
    ∙ count_taken n (0 + r.taken) (length (print_nat n)) (omega (arith, r.some_taken))
        (omega (arith, r.size, length-append (print_nat n) (c ∷ rest)))

-- A number below 2^64 that is printed by `%u` or `%lu`, with anything but a digit behind it, is read
-- back by `strtoul`, which stops right behind its digits.
pub strtoul-print_nat :
    (n c : ℕ) (rest : List ℕ)
    → n < 2 ^ 64
    → is_digit c ≡ false
    → strtoul (print_nat n ++ c ∷ rest) ≡ (n, length (print_nat n))
unfolding strtoul
strtoul-print_nat n c rest h stop =
    rw (read_number-print_nat n c rest h stop) (ap (λ m. (m, length (print_nat n))) (omega arith))
