-- ===== src/Serialize/Elements.antt =====
-- The elements of a buffer that `_serialize_parse` and `_serialize_parse_object` read.
use rt_csp.Base.{
  ℕ, zero, suc, ◌+◌, ◌-◌, ◌^◌, ◌%◌, Bool, true, false, ◌&&◌, ◌||◌, not, Option, none, some, List,
  [], ◌∷◌, ◌==◌, ltb, leb, if◌then◌else◌, take, drop, char_at, str_eq, ℤ, pos, negsuc,
}
use rt_csp.Serialize.{
  Scalar, boolean, char, byte, ubyte, short, ushort, int, uint, long, ulong, Formats, end, field,
}
use rt_csp.Serialize.Number.{strtoul, strtol, to_length, sub_length}
use rt_csp.Serialize.Skip.{_serialize_parse_force}

-- The value stored and the number of bytes read; an error, the returned 0; or too little fuel.
pub data Parsed {ℓ} (A : Type ℓ) : Type ℓ where
  read : A → ℕ → Parsed A
  invalid : Parsed A
  starved : Parsed A

abbrev pub on_read {ℓ κ} : {A : Type ℓ} {B : Type κ} → Parsed A → (A → ℕ → Parsed B) → Parsed B
on_read (read a n) f = f a n
on_read invalid f = invalid
on_read starved f = starved

-- strchr: the offset of `c` before the end of the text.
abbrev pub strchr : List ℕ → ℕ → Option ℕ
strchr [] c = none
strchr (x ∷ xs) c =
    if x == c
    then some 0
    else if x == 0
    then none
    else elim (strchr xs c) [ none ↦ none | some i ↦ some (suc i) ]

-- Up to the first NUL.
abbrev pub until_nul : List ℕ → List ℕ
until_nul [] = []
until_nul (x ∷ xs) = if x == 0 then [] else x ∷ until_nul xs

-- A value put into `w` bits, signed.
abbrev pub wrap_signed : ℕ → ℤ → ℤ
wrap_signed w v =
    let n : ℕ = elim v [ pos n ↦ n % 2 ^ w | negsuc n ↦ (2 ^ w - 1) - n % 2 ^ w ] in
    if ltb n (2 ^ (w - 1)) then pos n else negsuc (2 ^ w - 1 - n)

-- The number read at a format, and where its text ends.
unfoldable pub read_scalar : Scalar → List ℕ → ℤ × ℕ
unfolding strtoul strtol
read_scalar boolean s = ((if char_at s 0 == b'0' then pos 0 else pos 1), 1)
read_scalar char s = (wrap_signed 8 (pos (char_at s 0)), 1)
read_scalar byte s = let r = strtol s in (wrap_signed 8 r.0, r.1)
read_scalar ubyte s = let r = strtoul s in (pos (r.0 % 2 ^ 8), r.1)
read_scalar short s = let r = strtol s in (wrap_signed 16 r.0, r.1)
read_scalar ushort s = let r = strtoul s in (pos (r.0 % 2 ^ 16), r.1)
read_scalar int s = let r = strtol s in (wrap_signed 32 r.0, r.1)
read_scalar uint s = let r = strtoul s in (pos (r.0 % 2 ^ 32), r.1)
read_scalar long s = strtol s
read_scalar ulong s = let r = strtoul s in (pos r.0, r.1)

-- The first loop: elements of other types are skipped. The bytes skipped, or that the fuel ran out.
unfoldable pub skip_until : ℕ → ℕ → List ℕ → ℕ → ℕ → Option ℕ
unfolding _serialize_parse_force
skip_until zero t buffer buflen done = none
skip_until (suc k) t buffer buflen done = elim (ltb 0 buflen && not (char_at buffer 0 == t)) [
  | false ↦ some done
  | true ↦ elim (_serialize_parse_force k buffer buflen) [
    | none ↦ none
    | some zero ↦ some done
    | some (suc n) ↦ skip_until k t (drop (suc n) buffer) (sub_length buflen (suc n)) (done + suc n)
  ]
]

-- A counted value: its length, and the offset behind the mark `c` from the count's beginning.
unfoldable pub read_count : List ℕ → ℕ → Option (ℕ × ℕ)
unfolding strtoul
read_count s c =
    let n = strtoul s in
    elim (strchr (drop n.1 s) c) [ none ↦ none | some i ↦ some (to_length n.0, n.1 + i + 1) ]

-- `SRL_TYPE_STRING` behind its count: the bytes and the closing mark.
unfoldable pub read_bytes : List ℕ → ℕ → Option (List ℕ)
read_bytes s n = if char_at s n == b';' then some (take n s) else none

-- A string or string of bounded length. `at` is the offset of `s` in the element; `store` puts the
-- bytes in memory, or refuses.
unfoldable pub parse_counted {ℓ} :
    {A : Type ℓ} → A → (List ℕ → Option A) → List ℕ → ℕ → ℕ → Parsed A
unfolding read_count read_bytes
parse_counted old store s buflen at = elim (read_count s b':') [
  | none ↦ invalid
  | some (zero, off) ↦ read old (at + off + 1)
  | some (suc n, off) ↦
      if ltb buflen (at + off + suc n) then invalid else elim (read_bytes (drop off s) (suc n)) [
        | none ↦ invalid
        | some b ↦ elim (store b) [ none ↦ invalid | some v ↦ read v (at + off + suc n + 1) ]
      ]
]

-- A dynamic pointer is set once.
abbrev pub store_string : Option (List ℕ) → List ℕ → Option (Option (List ℕ))
store_string none b = some (some b)
store_string (some old) b = none

-- The loop over the elements of an array, from cell `i` on. The cells not yet reached are `rest`.
unfoldable pub parse_items {ℓ} :
    {A : Type ℓ} → (A → List ℕ → ℕ → Parsed A) → List A → List ℕ → ℕ → Parsed (List A)
parse_items parse [] buffer buflen = read [] 0
parse_items parse (x ∷ rest) buffer buflen = on_read (parse x buffer buflen) λ v n.
    on_read (parse_items parse rest (drop n buffer) (sub_length buflen n))
      λ vs m. read (v ∷ vs) (n + m)

abbrev pub close_with {ℓ} : {A : Type ℓ} → ℕ → List ℕ → A → ℕ → Parsed A
close_with c s v n = if char_at s 0 == c then read v (n + 1) else invalid

-- `_serialize_parse_object`. `known` finds a key in the hash table of the formats; `parse` reads a
-- field's value into the row.
unfoldable pub parse_object {ℓ} :
    {A : Type ℓ} (known : List ℕ → Bool) (parse : List ℕ → A → List ℕ → ℕ → Parsed A)
    → ℕ
    → A
    → List ℕ
    → ℕ
    → ℕ
    → Parsed A
unfolding strtoul _serialize_parse_force
parse_object known parse zero row buffer buflen done = starved
parse_object known parse (suc k) row buffer buflen done =
    elim (ltb 2 buflen && (char_at buffer 0 == b's') && (char_at buffer 1 == b':')) [
      | false ↦ read row done
      | true ↦
          let n = strtoul (drop 2 buffer) in
          let len = to_length n.0 in
          let at = 2 + n.1 + 1 + len in
          let key = until_nul (take len (drop (3 + n.1) buffer)) in
          let rest = drop (at + 1) buffer in
          let left = sub_length buflen (at + 1) in
          if (len == 0) || leb 101 len || leb buflen at || not (char_at buffer at == b';')
          then invalid
          else elim (known key) [
            | false ↦ elim (_serialize_parse_force k rest left) [
              | none ↦ starved
              | some zero ↦ invalid
              | some (suc m) ↦
                  parse_object known parse k row (drop (suc m) rest) (sub_length left (suc m))
                    (done + (at + 1) + suc m)
            ]
            | true ↦ elim (parse key row rest left) [
              | starved ↦ starved
              | invalid ↦ invalid
              | read row' m ↦
                  parse_object known parse k row' (drop m rest) (sub_length left m)
                    (done + (at + 1) + m)
            ]
          ]
    ]

abbrev pub has_key : List ℕ → Formats → Bool
has_key key end = false
has_key key (field k f fs) = str_eq k key || has_key key fs

-- The beginning of `_serialize_parse`: skipped elements, the type letter and the colon. The rest gets
-- the buffer behind them, what is left of `buflen` behind the skipped elements, and the offset.
unfoldable pub parse_head {ℓ} :
    {A : Type ℓ} → ℕ → ℕ → List ℕ → ℕ → (List ℕ → ℕ → ℕ → Parsed A) → Parsed A
unfolding skip_until
parse_head fuel t buffer buflen body = elim (skip_until fuel t buffer buflen 0) [
  | none ↦ starved
  | some skipped ↦
      let s = drop skipped buffer in
      let left = sub_length buflen skipped in
      if ltb left 1 || not (char_at s 0 == t) || not (char_at s 1 == b':')
      then invalid
      else body (drop 2 s) left (skipped + 2)
]

-- A number: its text, and everything up to the next `;`.
unfoldable pub parse_scalar : Scalar → List ℕ → ℕ → ℕ → Parsed ℤ
unfolding read_scalar
parse_scalar k s buflen at =
    let r = read_scalar k s in
    elim (strchr (drop r.1 s) b';') [ none ↦ invalid | some i ↦ read r.0 (at + r.1 + i + 1) ]

-- A float is kept as its text, up to the next `;`.
unfoldable pub parse_float : List ℕ → ℕ → ℕ → Parsed (List ℕ)
parse_float s buflen at = elim (strchr s b';') [
  | none ↦ invalid
  | some i ↦ read (take i s) (at + i + 1)
]
