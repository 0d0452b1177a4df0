-- ===== src/Serialize/Scalars.antt =====
-- Elements of all types of numbers that are written are read back.
use rt_csp.Base.{
  ℕ, zero, suc, ◌+◌, ◌%◌, ◌^◌, ◌<◌, ◌≤◌, ◌≡◌, refl, ap, ◌∙◌, none, some, List, [], ◌∷◌, ◌++◌,
  append_assoc, length, length-append, drop, drop-append, arith, ℤ, pos, negsuc,
}
use rt_csp.Serialize.{
  Scalar, boolean, char, byte, ubyte, short, ushort, int, uint, long, ulong, Format, Value, scalar,
  print_scalar, scalar_tag, serialize_string_ex,
}
use rt_csp.Serialize.Number.{print_nat, print_int, strtoul, strtol}
use rt_csp.Serialize.Digits.{strtoul-print_nat}
use rt_csp.Serialize.Signed.{Fits, strtol-print_int}
use rt_csp.Serialize.Elements.{
  Parsed, read, invalid, read_scalar, wrap_signed, strchr, parse_scalar,
}
use rt_csp.Serialize.Parse.{_serialize_parse}
use rt_csp.Serialize.Strings.{head_found}

abbrev Below : ℕ → ℤ → Type 0
Below m (pos n) = n < m
Below m (negsuc n) = ⊥

-- `v` is a value of the type.
abbrev pub IsScalar : Scalar → ℤ → Type 0
IsScalar boolean v = Below 2 v
IsScalar char v = Fits (2 ^ 7) v
IsScalar byte v = Fits (2 ^ 7) v
IsScalar ubyte v = Below (2 ^ 8) v
IsScalar short v = Fits (2 ^ 15) v
IsScalar ushort v = Below (2 ^ 16) v
IsScalar int v = Fits (2 ^ 31) v
IsScalar uint v = Below (2 ^ 32) v
IsScalar long v = Fits (2 ^ 63) v
IsScalar ulong v = Below (2 ^ 64) v

Fits-larger : (m k : ℕ) (v : ℤ) → m ≤ k → Fits m v → Fits k v
Fits-larger m k (pos n) h f = omega arith
Fits-larger m k (negsuc n) h f = omega arith

wrapped_byte : (v : ℤ) → Fits (2 ^ 7) v → wrap_signed 8 v ≡ v
wrapped_byte (pos n) h = ground arith
wrapped_byte (negsuc n) h = ground arith

wrapped_short : (v : ℤ) → Fits (2 ^ 15) v → wrap_signed 16 v ≡ v
wrapped_short (pos n) h = ground arith
wrapped_short (negsuc n) h = ground arith

wrapped_int : (v : ℤ) → Fits (2 ^ 31) v → wrap_signed 32 v ≡ v
wrapped_int (pos n) h = ground arith
wrapped_int (negsuc n) h = ground arith

-- What is read at the type is the value, up to the end of its text.
Reads : Scalar → ℤ → List ℕ → Type 0
Reads t v rest = read_scalar t (print_scalar t v ++ b';' ∷ rest) ≡ (v, length (print_scalar t v))

abbrev stored : (ℤ → ℤ) → ℤ × ℕ → ℤ × ℕ
stored wrap r = (wrap r.0, r.1)

abbrev stored_mod : ℕ → ℕ × ℕ → ℤ × ℕ
stored_mod m r = (pos (r.0 % m), r.1)

signed :
    (wrap : ℤ → ℤ) (v : ℤ) (rest : List ℕ)
    → Fits (2 ^ 63) v
    → wrap v ≡ v
    → stored wrap (strtol (print_int v ++ b';' ∷ rest)) ≡ (v, length (print_int v))
signed wrap v rest h e =
    ap (stored wrap) (strtol-print_int v b';' rest h refl) ∙ ap (λ x. (x, length (print_int v))) e

unsigned :
    (m n : ℕ) (rest : List ℕ)
    → n < 2 ^ 64
    → n % m ≡ n
    → stored_mod m (strtoul (print_nat n ++ b';' ∷ rest)) ≡ (pos n, length (print_nat n))
unsigned m n rest h e =
    ap (stored_mod m) (strtoul-print_nat n b';' rest h refl)
    ∙ ap (λ x. (pos x, length (print_nat n))) e

read_scalar-print_scalar : (t : Scalar) (v : ℤ) (rest : List ℕ) → IsScalar t v → Reads t v rest
unfolding read_scalar Reads
read_scalar-print_scalar boolean (pos zero) rest h = refl
read_scalar-print_scalar boolean (pos (suc zero)) rest h = refl
read_scalar-print_scalar boolean (pos (suc (suc n))) rest h = absurd (omega arith)
read_scalar-print_scalar boolean (negsuc n) rest h = absurd h
read_scalar-print_scalar char (pos n) rest h = ap (λ x. (x, 1)) (wrapped_byte (pos n) h)
read_scalar-print_scalar char (negsuc n) rest h = ap (λ x. (x, 1)) (ground arith)
read_scalar-print_scalar byte v rest h =
    signed (wrap_signed 8) v rest (Fits-larger (2 ^ 7) (2 ^ 63) v (omega arith) h)
      (wrapped_byte v h)
read_scalar-print_scalar ubyte (pos n) rest h = unsigned (2 ^ 8) n rest (omega arith) (omega arith)
read_scalar-print_scalar ubyte (negsuc n) rest h = absurd h
read_scalar-print_scalar short v rest h =
    signed (wrap_signed 16) v rest (Fits-larger (2 ^ 15) (2 ^ 63) v (omega arith) h)
      (wrapped_short v h)
read_scalar-print_scalar ushort (pos n) rest h =
    unsigned (2 ^ 16) n rest (omega arith) (omega arith)
read_scalar-print_scalar ushort (negsuc n) rest h = absurd h
read_scalar-print_scalar int v rest h =
    signed (wrap_signed 32) v rest (Fits-larger (2 ^ 31) (2 ^ 63) v (omega arith) h)
      (wrapped_int v h)
read_scalar-print_scalar uint (pos n) rest h = unsigned (2 ^ 32) n rest (omega arith) (omega arith)
read_scalar-print_scalar uint (negsuc n) rest h = absurd h
read_scalar-print_scalar long v rest h = strtol-print_int v b';' rest h refl
read_scalar-print_scalar ulong (pos n) rest h =
    ap (λ r. (pos r.0, r.1)) (strtoul-print_nat n b';' rest h refl)
read_scalar-print_scalar ulong (negsuc n) rest h = absurd h

abbrev scalar_at : List ℕ → ℕ → ℤ × ℕ → Parsed ℤ
scalar_at s at r = elim (strchr (drop r.1 s) b';') [
  | none ↦ invalid
  | some i ↦ read r.0 (at + r.1 + i + 1)
]

parse_scalar-print_scalar :
    (t : Scalar) (v : ℤ) (rest : List ℕ) (buflen at : ℕ)
    → IsScalar t v
    → parse_scalar t (print_scalar t v ++ b';' ∷ rest) buflen at
      ≡ read v (at + length (print_scalar t v) + 1)
unfolding parse_scalar Reads
parse_scalar-print_scalar t v rest buflen at h =
    let w = print_scalar t v in
    ap (scalar_at (w ++ b';' ∷ rest) at) (read_scalar-print_scalar t v rest h)
    ∙ rw (drop-append w (b';' ∷ rest), scalar_at) (ap (read v) (omega arith))

-- A number of any of the ten types, written by `serialize_string_ex`, is read back by
-- `_serialize_parse` into memory that held anything, whatever follows it in the buffer, and exactly
-- what was written is consumed. `buflen` must be a `length_t` and cover what was written; no
-- element is skipped before it, so any fuel but 0 is enough.
pub _serialize_parse-scalar :
    (junk : (f : Format) → Value f) (k : ℕ) (t : Scalar) (v old : ℤ) (rest : List ℕ) (buflen : ℕ)
    → IsScalar t v
    → buflen < 2 ^ 32
    → length (serialize_string_ex (scalar t) v) ≤ buflen
    → _serialize_parse junk (suc k) (scalar t) old (serialize_string_ex (scalar t) v ++ rest) buflen
      ≡ read v (length (serialize_string_ex (scalar t) v))
unfolding _serialize_parse serialize_string_ex
_serialize_parse-scalar junk k t v old rest buflen h small fits =
    let w = print_scalar t v in
    let size = length-append (scalar_tag t ∷ b':' ∷ w) (b';' ∷ []) in
    head_found k (scalar_tag t) ((w ++ b';' ∷ []) ++ rest) buflen (parse_scalar t)
      (omega (arith, fits)) small
    ∙ ap (λ s. parse_scalar t s buflen 2) (append_assoc w (b';' ∷ []) rest)
    ∙ parse_scalar-print_scalar t v rest buflen 2 h
    ∙ ap (read v) (omega (arith, size))
