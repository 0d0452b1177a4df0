-- ===== src/Program/Sizes.antt =====
-- For which sizes `fsize` of api.c stays within its arrays.
use rt_csp.Base.{
  ℕ, ◌+◌, ◌<◌, ◌≡◌, Bool, true, ◌&&◌, not, ltb, leb, Bool-cases, inl, inr, pos, arith,
}
use rt_csp.Program.Pages.{unit_of, thousandths, text_bytes, digits, fsize}

-- Neither 0, nor so near below 1 MB or 1 GB that four digits stand before the point.
unfoldable pub is_writable : ℕ → Bool
is_writable n =
    leb 1 n && not (leb 1024000 n && ltb n 1048576) && not (leb 1048575476 n && ltb n 1073741824)

one_letter : (m : ℕ) → leb (digits m + 4 + 1 + 1) 10 ≡ true
unfolding digits
one_letter m = ground arith

two_letters : (m : ℕ) → leb (digits m + 4 + 2 + 1) 10 ≡ ltb m 1000
unfolding digits
two_letters m = ground arith

-- `fsize` of an `int` that is not negative stays within `units` and its buffer exactly if it is not 0,
-- from 1024000 to 1048575, or from 1048575476 to 1073741823.
pub fsize-is_writable : (n : ℕ) → n < 2147483648 → fsize (pos n) ≡ is_writable n
unfolding fsize is_writable text_bytes thousandths unit_of
fsize-is_writable n few = elim (Bool-cases (ltb n 1024)) [
  | inl a ↦ rw (a, one_letter) (ground arith)
  | inr a ↦ elim (Bool-cases (ltb n 1048576)) [
    | inl b ↦ rw (a, b, two_letters) (ground arith)
    | inr b ↦ elim (Bool-cases (ltb n 1073741824)) [
      | inl c ↦ rw (a, b, c, two_letters) (ground arith)
      | inr c ↦ rw (a, b, c, two_letters) (ground arith)
    ]
  ]
]
