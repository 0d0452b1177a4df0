-- ===== src/Serialize/Number.antt =====
-- Decimal numbers, as `printf` writes and `strtoul` and `strtol` read them.
use rt_csp.Base.{
  ℕ, zero, suc, ◌+◌, ◌-◌, ◌*◌, ◌/◌, ◌%◌, ◌^◌, min, Bool, true, false, ◌&&◌, ◌||◌, List, [], ◌∷◌,
  ◌==◌, leb, if◌then◌else◌, ℤ, pos, negsuc,
}

-- The digits of `n` before `out`, with fuel for that many digits.
unfoldable pub digits_to : ℕ → ℕ → List ℕ → List ℕ
digits_to zero n out = out
digits_to (suc k) n out =
    let rest = digits_to k (n / 10) ((n % 10 + b'0') ∷ out) in
    if n / 10 == 0 then (n % 10 + b'0') ∷ out else rest

-- `%u`: 20 digits are enough for 64 bits.
unfoldable pub print_nat : ℕ → List ℕ
unfolding digits_to
print_nat n = digits_to 20 n []

-- `%d`
abbrev pub print_int : ℤ → List ℕ
print_int (pos n) = print_nat n
print_int (negsuc n) = b'-' ∷ print_nat (suc n)

abbrev pub is_digit : ℕ → Bool
is_digit c = leb b'0' c && leb c b'9'

-- isspace
abbrev pub is_space : ℕ → Bool
is_space c = (c == 32) || (leb 9 c && leb c 13)

-- The number whose digits begin here, after `acc`, and how many bytes it takes.
unfoldable pub read_digits : List ℕ → ℕ → ℕ → ℕ × ℕ
read_digits [] acc k = (acc, k)
read_digits (c ∷ cs) acc k = elim (is_digit c) [
  | true ↦ read_digits cs (acc * 10 + (c - b'0')) (suc k)
  | false ↦ (acc, k)
]

abbrev pub after_sign : Bool → ℕ → ℕ × ℕ → ℤ × ℕ
after_sign minus skipped (n, zero) = (pos 0, 0)
after_sign minus skipped (n, suc k) =
    (if minus then (elim n [ zero ↦ pos 0 | suc m ↦ negsuc m ]) else pos n, skipped + suc k)

-- The signed number behind white space and a sign, and the offset of `endptr`, 0 if there is none.
unfoldable pub read_number : List ℕ → ℕ → ℤ × ℕ
unfolding read_digits
read_number [] k = (pos 0, 0)
read_number (c ∷ cs) k = elim (is_space c) [
  | true ↦ read_number cs (suc k)
  | false ↦
      if c == b'-'
      then after_sign true (suc k) (read_digits cs 0 0)
      else if c == b'+'
      then after_sign false (suc k) (read_digits cs 0 0)
      else after_sign false k (read_digits (c ∷ cs) 0 0)
]

-- A value of type `unsigned long`: too large numbers give the maximum, a sign is modulo 2^64.
abbrev pub to_ulong : ℤ → ℕ
to_ulong (pos n) = min n (2 ^ 64 - 1)
to_ulong (negsuc n) = 2 ^ 64 - min (suc n) (2 ^ 64 - 1)

-- A value of type `long`.
abbrev pub to_long : ℤ → ℤ
to_long (pos n) = pos (min n (2 ^ 63 - 1))
to_long (negsuc n) = negsuc (min n (2 ^ 63 - 1))

unfoldable pub strtoul : List ℕ → ℕ × ℕ
unfolding read_number
strtoul s = let r = read_number s 0 in (to_ulong r.0, r.1)

unfoldable pub strtol : List ℕ → ℤ × ℕ
unfolding read_number
strtol s = let r = read_number s 0 in (to_long r.0, r.1)

-- A value of type `length_t`.
abbrev pub to_length : ℕ → ℕ
to_length n = n % 2 ^ 32

-- a - b in `length_t`.
abbrev pub sub_length : ℕ → ℕ → ℕ
sub_length a b = (a + 2 ^ 32 - b % 2 ^ 32) % 2 ^ 32
