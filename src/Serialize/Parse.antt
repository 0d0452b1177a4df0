-- ===== src/Serialize/Parse.antt =====
-- `_serialize_parse` and `_serialize_parse_object`: a value read from a buffer into the memory of a
-- format. On an error what has been stored so far is of no use and is left out of the model, as is the
-- count of skipped bytes that only debug output shows.
use rt_csp.Base.{
  ℕ, zero, suc, ◌+◌, ◌-◌, min, Bool, true, false, ◌&&◌, not, Option, none, some, List, [], ◌∷◌,
  ◌++◌, ◌==◌, ltb, if◌then◌else◌, length, take, drop, replicate, char_at, str_eq, pos, negsuc,
}
use rt_csp.Serialize.{
  uint, Format, Formats, scalar, float, string, string_length, object, array, arrlen, hashtable,
  end, field, scalar_tag, Value, Row,
}
use rt_csp.Serialize.Number.{print_nat, sub_length}
use rt_csp.Serialize.Elements.{
  Parsed, close_with, has_key, invalid, on_read, parse_counted, parse_float, parse_head,
  parse_items, parse_object, parse_scalar, read, read_count, starved, store_string, strchr,
}

-- Memory of zeros.
unfoldable mutual
  pub blank : (f : Format) → Value f
  blank (scalar k) = pos 0
  blank float = []
  blank string = none
  blank (string_length n) = []
  blank (object fs) = blank_fields fs
  blank (array f) = none
  blank (arrlen n f) = (0, replicate n (blank f))
  blank (hashtable isint f) = none

  pub blank_fields : (fs : Formats) → Row fs
  blank_fields end = tt
  blank_fields (field k f fs) = (blank f, blank_fields fs)

-- `g_hash_table_insert`: the value of a key that is there is replaced.
unfoldable pub insert_entry {ℓ} : {A : Type ℓ} → List ℕ → A → List (List ℕ × A) → List (List ℕ × A)
insert_entry k v [] = (k, v) ∷ []
insert_entry k v ((j, w) ∷ m) = if str_eq j k then (k, v) ∷ m else (j, w) ∷ insert_entry k v m

-- The key of an entry, and `hkey.key` after it. A string key is read into `hkey` as it was left by the
-- entry before. (An empty first key stays NULL, which the hash table does not survive: an error here.)
unfoldable pub parse_key :
    ℕ → Bool → Option (List ℕ) → List ℕ → ℕ → Parsed (List ℕ × Option (List ℕ))
unfolding parse_head parse_scalar parse_counted
parse_key fuel true hkey buffer buflen =
    on_read (parse_head fuel b'I' buffer buflen (parse_scalar uint))
      λ v n. read (elim v [ pos i ↦ print_nat i | negsuc i ↦ [] ], hkey) n
parse_key fuel false hkey buffer buflen =
    on_read (parse_head fuel b's' buffer buflen (parse_counted hkey (store_string hkey)))
      λ v n. elim v [ none ↦ invalid | some key ↦ read (key, some key) n ]

-- The loop over the entries of a hash table. `junk` is what `malloc` leaves in the memory of a value.
unfoldable pub parse_entries {ℓ} :
    {A : Type ℓ} (isint : Bool) (junk : A) (parse : A → List ℕ → ℕ → Parsed A)
    → ℕ
    → List (List ℕ × A)
    → Option (List ℕ)
    → List ℕ
    → ℕ
    → ℕ
    → Parsed (List (List ℕ × A))
unfolding parse_key insert_entry
parse_entries isint junk parse zero m hkey buffer buflen done = starved
parse_entries isint junk parse (suc k) m hkey buffer buflen done =
    elim (ltb 0 buflen && not (char_at buffer 0 == b')')) [
      | false ↦ close_with b')' buffer m done
      | true ↦ on_read (parse_key k isint hkey buffer buflen) λ r n.
          on_read (parse junk (drop n buffer) (sub_length buflen n)) λ v l.
            parse_entries isint junk parse k (insert_entry r.0 v m) r.1 (drop (n + l) buffer)
              (sub_length buflen (n + l)) (done + n + l)
    ]

-- An array behind its type letter: the cells to fill are `cells` of the count.
unfoldable pub parse_array {ℓ κ} :
    {A : Type ℓ} {B : Type κ} (old : B) (cells : ℕ → Option (List A)) (store : List A → B)
    (parse : A → List ℕ → ℕ → Parsed A)
    → List ℕ
    → ℕ
    → ℕ
    → Parsed B
unfolding read_count parse_items
parse_array old cells store parse s buflen at = elim (read_count s b'[') [
  | none ↦ invalid
  | some (zero, off) ↦ read old (at + off + 1)
  | some (suc n, off) ↦ if ltb buflen (at + off + suc n) then invalid else elim (cells (suc n)) [
    | none ↦ invalid
    | some xs ↦
        on_read (parse_items parse xs (drop off s) buflen)
          λ vs m. close_with b']' (drop (off + m) s) (store vs) (at + off + m)
  ]
]

-- The value and the bytes read behind an opening bracket, with what closes it.
unfoldable pub parse_open {ℓ κ} :
    {A : Type ℓ} {B : Type κ}
    → ℕ
    → (List ℕ → ℕ → Parsed A)
    → (A → List ℕ → ℕ → Parsed B)
    → List ℕ
    → ℕ
    → ℕ
    → Parsed B
parse_open left parse finish s buflen at = elim (strchr s left) [
  | none ↦ invalid
  | some i ↦
      on_read (parse (drop (i + 1) s) buflen) λ v n. finish v (drop (i + 1 + n) s) (at + i + 1 + n)
]

abbrev pub finish_object {ℓ} : {A : Type ℓ} → A → List ℕ → ℕ → Parsed A
finish_object v s n = close_with b'}' s v n

-- An object of which nothing has been read is an error.
abbrev pub some_read {ℓ} : {A : Type ℓ} → Parsed A → Parsed A
some_read (read v zero) = invalid
some_read (read v (suc n)) = read v (suc n)
some_read invalid = invalid
some_read starved = starved

abbrev pub new_cells {ℓ} : {A : Type ℓ} → A → Option (List A) → ℕ → Option (List A)
new_cells x none n = some (replicate n x)
new_cells x (some old) n = none

abbrev pub new_table {ℓ} :
    {A : Type ℓ} → Option (List A) → Parsed (List A) → Parsed (Option (List A))
new_table none r = on_read r λ m n. read (some m) n
new_table (some old) r = invalid

-- The first `k` cells of an array. A cell behind its end is not part of the array: to write one makes
-- the list longer than the memory that it stands for.
abbrev pub first_cells {ℓ} : {A : Type ℓ} → A → ℕ → List A → List A
first_cells x k old = take k old ++ replicate (k - length old) x

module _ (junk : (f : Format) → Value f) (fuel : ℕ) where
  unfoldable mutual
    unfolding parse_head parse_scalar parse_float parse_counted parse_array parse_object
        parse_entries blank parse_open

    pub _serialize_parse : (f : Format) → Value f → List ℕ → ℕ → Parsed (Value f)
    _serialize_parse (scalar k) old buffer buflen =
        parse_head fuel (scalar_tag k) buffer buflen (parse_scalar k)
    _serialize_parse float old buffer buflen = parse_head fuel b'd' buffer buflen parse_float
    _serialize_parse string old buffer buflen =
        parse_head fuel b's' buffer buflen (parse_counted old (store_string old))
    _serialize_parse (string_length n) old buffer buflen =
        parse_head fuel b'S' buffer buflen (parse_counted old (λ b. some (take n b)))
    _serialize_parse (object fs) old buffer buflen = parse_head fuel b'o' buffer buflen (
        parse_open b'{'
          (λ s n. some_read (parse_object (λ key. has_key key fs) (parse_field fs) fuel old s n 0))
          finish_object)
    _serialize_parse (array f) old buffer buflen =
        parse_head fuel b'a' buffer buflen
          (parse_array old (new_cells (blank f) old) (λ vs. some vs) (_serialize_parse f))
    _serialize_parse (arrlen n f) old buffer buflen = parse_head fuel b'A' buffer buflen (
        parse_array old (λ m. some (first_cells (blank f) (min m n) old.1))
          (λ vs. (length vs, vs ++ drop (length vs) old.1)) (_serialize_parse f))
    _serialize_parse (hashtable isint f) old buffer buflen = parse_head fuel b'h' buffer buflen (
        parse_open b'('
          (λ s n.
            new_table old (parse_entries isint (junk f) (_serialize_parse f) fuel [] none s n 0))
          (λ v s n. read v n))

    -- The format that is last under the key, as `serialize_object_init` leaves it in the table.
    pub parse_field : (fs : Formats) → List ℕ → Row fs → List ℕ → ℕ → Parsed (Row fs)
    parse_field end key row buffer buflen = invalid
    parse_field (field k f fs) key row buffer buflen = elim (has_key key fs) [
      | true ↦ on_read (parse_field fs key row.1 buffer buflen) λ r n. read (row.0, r) n
      | false ↦
          if str_eq k key
          then on_read (_serialize_parse f row.0 buffer buflen) (λ v n. read (v, row.1) n)
          else invalid
    ]
