-- ===== src/Serialize/Unsigned.antt =====
-- Elements of the unsigned types that are written are read back.
use rt_csp.Base.{ℕ, suc, ◌^◌, ◌<◌, ◌≤◌, ◌≡◌, List, ◌++◌, length, ℤ, pos}
use rt_csp.Serialize.{
  Scalar, boolean, char, byte, ubyte, short, ushort, int, uint, long, ulong, Format, Value, scalar,
  serialize_string_ex,
}
use rt_csp.Serialize.Elements.{read}
use rt_csp.Serialize.Parse.{_serialize_parse}
use rt_csp.Serialize.Scalars.{IsScalar, _serialize_parse-scalar}

-- `n` is a value of the unsigned type.
abbrev pub IsUnsigned : Scalar → ℕ → Type 0
IsUnsigned ubyte n = n < 2 ^ 8
IsUnsigned ushort n = n < 2 ^ 16
IsUnsigned uint n = n < 2 ^ 32
IsUnsigned ulong n = n < 2 ^ 64
IsUnsigned _ n = ⊥

IsUnsigned-IsScalar : (t : Scalar) (n : ℕ) → IsUnsigned t n → IsScalar t (pos n)
IsUnsigned-IsScalar boolean n h = absurd h
IsUnsigned-IsScalar char n h = absurd h
IsUnsigned-IsScalar byte n h = absurd h
IsUnsigned-IsScalar ubyte n h = h
IsUnsigned-IsScalar short n h = absurd h
IsUnsigned-IsScalar ushort n h = h
IsUnsigned-IsScalar int n h = absurd h
IsUnsigned-IsScalar uint n h = h
IsUnsigned-IsScalar long n h = absurd h
IsUnsigned-IsScalar ulong n h = h

-- A number of any unsigned type, written by `serialize_string_ex`, is read back by
-- `_serialize_parse` into memory that held anything, whatever follows it in the buffer, and exactly
-- what was written is consumed. `buflen` must be a `length_t` and cover what was written; no
-- element is skipped before it, so any fuel but 0 is enough.
pub _serialize_parse-unsigned :
    (junk : (f : Format) → Value f) (k : ℕ) (t : Scalar) (n : ℕ) (old : ℤ) (rest : List ℕ)
    (buflen : ℕ)
    → IsUnsigned t n
    → buflen < 2 ^ 32
    → length (serialize_string_ex (scalar t) (pos n)) ≤ buflen
    → _serialize_parse junk
        (suc k)
        (scalar t)
        old
        (serialize_string_ex (scalar t) (pos n) ++ rest)
        buflen
      ≡ read (pos n) (length (serialize_string_ex (scalar t) (pos n)))
_serialize_parse-unsigned junk k t n old rest buflen h =
    _serialize_parse-scalar junk k t (pos n) old rest buflen (IsUnsigned-IsScalar t n h)
