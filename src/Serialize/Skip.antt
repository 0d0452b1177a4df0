-- ===== src/Serialize/Skip.antt =====
-- `_serialize_parse_force`: the length of one element of any type, so that it can be skipped.
use rt_csp.Base.{
  ℕ, zero, suc, ◌+◌, ◌-◌, Bool, true, false, ◌&&◌, ◌||◌, not, Option, none, some, List, ◌==◌, ltb,
  if◌then◌else◌, drop, char_at, memchr,
}
use rt_csp.Serialize.Number.{strtoul, to_length, sub_length}

-- The shapes of elements, by the type letter.
pub data Shape : Type 0 where
  flat : Shape
  counted : Shape
  nested : ℕ → ℕ → Shape
  unknown : Shape

abbrev pub is_flat : ℕ → Bool
is_flat c =
    c == b'b'
    || c == b'c'
    || c == b'y'
    || c == b'Y'
    || c == b't'
    || c == b'T'
    || c == b'i'
    || c == b'I'
    || c == b'l'
    || c == b'L'
    || c == b'f'
    || c == b'd'
    || c == b'D'

-- The `switch`, with the brackets of the letter.
unfoldable pub shape : ℕ → Shape
shape c =
    if is_flat c
    then flat
    else if c == b's' || c == b'S'
    then counted
    else if c == b'a' || c == b'A'
    then nested b'[' b']'
    else if c == b'o'
    then nested b'{' b'}'
    else if c == b'h'
    then nested b'(' b')'
    else unknown

-- The length of an element that ends at the first `;`; 0 is an error, here and below.
unfoldable pub skip_flat : List ℕ → ℕ → ℕ
skip_flat buffer buflen = elim (memchr buffer b';' buflen) [ none ↦ 0 | some i ↦ i + 1 ]

unfoldable pub skip_counted : List ℕ → ℕ → ℕ
unfolding strtoul
skip_counted buffer buflen =
    let n = strtoul (drop 2 buffer) in
    let len = to_length n.0 in
    let whole = to_length (2 + n.1 + len + 1) in
    if ltb buflen (to_length (len + 1))
    then 0
    else if ltb (sub_length buflen whole) 1 || not (char_at buffer whole == b';')
    then 0
    else whole + 1

-- The end of a nested element, `done` bytes from its start.
abbrev pub skip_close : ℕ → List ℕ → ℕ → ℕ → ℕ
skip_close close buffer buflen done =
    if ltb buflen 1 || not (char_at buffer 0 == close) then 0 else done + 1

-- `none` means that the fuel ran out.
unfoldable mutual
  unfolding shape skip_flat skip_counted

  pub _serialize_parse_force : ℕ → List ℕ → ℕ → Option ℕ
  _serialize_parse_force zero buffer buflen = none
  _serialize_parse_force (suc k) buffer buflen = elim (ltb buflen 2) [
    | true ↦ some 0
    | false ↦ elim (shape (char_at buffer 0)) [
      | flat ↦ some (skip_flat buffer buflen)
      | counted ↦ some (skip_counted buffer buflen)
      | unknown ↦ some 0
      | nested left right ↦ elim (memchr buffer left buflen) [
        | none ↦ some 0
        | some i ↦
            skip_items k (left == b'[') right (drop (i + 1) buffer) (buflen - (i + 1)) (i + 1)
      ]
    ]
  ]

  -- The loop over the items of a nested element: single ones in an array, pairs otherwise.
  pub skip_items : ℕ → Bool → ℕ → List ℕ → ℕ → ℕ → Option ℕ
  skip_items zero single close buffer buflen done = none
  skip_items (suc k) single close buffer buflen done =
      elim (ltb 0 buflen && not (char_at buffer 0 == close)) [
        | false ↦ some (skip_close close buffer buflen done)
        | true ↦ elim (_serialize_parse_force k buffer buflen) [
          | none ↦ none
          | some zero ↦ some 0
          | some (suc n) ↦
              skip_second k single close (drop (suc n) buffer) (sub_length buflen (suc n))
                (done + suc n)
        ]
      ]

  -- The second half of the loop's body.
  pub skip_second : ℕ → Bool → ℕ → List ℕ → ℕ → ℕ → Option ℕ
  skip_second zero single close buffer buflen done = none
  skip_second (suc k) single close buffer buflen done =
      elim (single || ltb buflen 1 || (char_at buffer 0 == close)) [
        | true ↦ skip_items k single close buffer buflen done
        | false ↦ elim (_serialize_parse_force k buffer buflen) [
          | none ↦ none
          | some zero ↦ some 0
          | some (suc n) ↦
              skip_items k single close (drop (suc n) buffer) (sub_length buflen (suc n))
                (done + suc n)
        ]
      ]
