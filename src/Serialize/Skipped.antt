-- ===== src/Serialize/Skipped.antt =====
-- A string element that is written is skipped as a whole.
use rt_csp.Base.{
  ℕ, suc, ◌+◌, ◌^◌, ◌<◌, ◌≤◌, ◌≡◌, refl, ap, ◌∙◌, false, not, ◌||◌, some, List, [], ◌∷◌, ◌++◌,
  append_assoc, length, length-append, char_at, arith, ltb, ◌==◌, if◌then◌else◌,
}
use rt_csp.Serialize.{string, serialize_string_ex}
use rt_csp.Serialize.Number.{print_nat, strtoul, to_length, sub_length}
use rt_csp.Serialize.Digits.{strtoul-print_nat}
use rt_csp.Serialize.Skip.{skip_counted, _serialize_parse_force, shape}
use rt_csp.Serialize.Strings.{char_at-append}

-- `skip_counted` behind its call of `strtoul`.
abbrev skip_number : List ℕ → ℕ → ℕ × ℕ → ℕ
skip_number buffer buflen n =
    let len = to_length n.0 in
    let whole = to_length (2 + n.1 + len + 1) in
    if ltb buflen (to_length (len + 1))
    then 0
    else if ltb (sub_length buflen whole) 1 || not (char_at buffer whole == b';')
    then 0
    else whole + 1

skip_number-read :
    (a b : ℕ) (s : List ℕ) (buflen : ℕ) (r : ℕ × ℕ)
    → strtoul s ≡ r
    → skip_counted (a ∷ b ∷ s) buflen ≡ skip_number (a ∷ b ∷ s) buflen r
unfolding skip_counted
skip_number-read a b s buflen r e = ap (skip_number (a ∷ b ∷ s) buflen) e

skip_number-ends :
    (buffer : List ℕ) (buflen n l : ℕ)
    → buflen < 2 ^ 32
    → 2 + l + n + 2 ≤ buflen
    → char_at buffer (2 + l + n + 1) ≡ b';'
    → skip_number buffer buflen (n, l) ≡ 2 + l + n + 2
skip_number-ends buffer buflen n l small fits at =
    let m : to_length n ≡ n = omega arith in
    let w : to_length (2 + l + n + 1) ≡ 2 + l + n + 1 = omega arith in
    let a : ltb buflen (to_length (n + 1)) ≡ false = ground arith in
    let b : ltb (sub_length buflen (2 + l + n + 1)) 1 ≡ false = ground arith in
    rw (m, skip_number) (rw (w, a, b, at) (omega arith))

skip_first :
    (k : ℕ) (t : List ℕ) (buflen : ℕ)
    → ltb buflen 2 ≡ false
    → _serialize_parse_force (suc k) (b's' ∷ t) buflen ≡ some (skip_counted (b's' ∷ t) buflen)
unfolding _serialize_parse_force shape
skip_first k t buflen o = rw (o, _serialize_parse_force) refl

-- The text up to the closing mark.
abbrev opened : List ℕ → List ℕ
opened s = b's' ∷ b':' ∷ print_nat (length s) ++ b':' ∷ s

opened-size : (s : List ℕ) → length (opened s) ≡ 2 + length (print_nat (length s)) + length s + 1
opened-size s = omega (arith, length-append (print_nat (length s)) (b':' ∷ s))

skip_counted-opened :
    (s rest : List ℕ) (buflen : ℕ)
    → buflen < 2 ^ 32
    → length (opened s) + 1 ≤ buflen
    → skip_counted (opened s ++ b';' ∷ rest) buflen ≡ length (opened s) + 1
skip_counted-opened s rest buflen small fits =
    let n = length s in
    let l = length (print_nat n) in
    let z = opened-size s in
    let split = append_assoc (print_nat n) (b':' ∷ s) (b';' ∷ rest) in
    let e : strtoul ((print_nat n ++ b':' ∷ s) ++ b';' ∷ rest) ≡ (n, l) =
      rw split (strtoul-print_nat n b':' (s ++ b';' ∷ rest) (omega arith) refl) in
    let at : char_at (opened s ++ b';' ∷ rest) (2 + l + n + 1) ≡ b';' =
      rw (← z) (char_at-append (opened s) b';' rest) in
    skip_number-read b's' b':' ((print_nat n ++ b':' ∷ s) ++ b';' ∷ rest) buflen (n, l) e
    ∙ skip_number-ends (opened s ++ b';' ∷ rest) buflen n l small (omega arith) at
    ∙ omega arith

-- A string element that `serialize_string_ex` writes, of any bytes, is skipped by
-- `_serialize_parse_force` as a whole, whatever follows it in the buffer, if `buflen` is a
-- `length_t` and covers it. Any fuel but 0 is enough.
pub _serialize_parse_force-serialize_string_ex :
    (k : ℕ) (s rest : List ℕ) (buflen : ℕ)
    → buflen < 2 ^ 32
    → length (serialize_string_ex string (some s)) ≤ buflen
    → _serialize_parse_force (suc k) (serialize_string_ex string (some s) ++ rest) buflen
      ≡ some (length (serialize_string_ex string (some s)))
unfolding _serialize_parse_force serialize_string_ex
_serialize_parse_force-serialize_string_ex k s rest buflen small fits =
    let size = length-append (opened s) (b';' ∷ []) in
    let z = opened-size s in
    let enough : length (opened s) + 1 ≤ buflen = omega (arith, fits, size) in
    rw (append_assoc (opened s) (b';' ∷ []) rest) (
      skip_first k ((b':' ∷ print_nat (length s) ++ b':' ∷ s) ++ b';' ∷ rest) buflen
        (ground (arith, z, enough))
      ∙ ap some (skip_counted-opened s rest buflen small enough ∙ omega (arith, size)))
