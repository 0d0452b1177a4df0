-- ===== src/Serialize/Api.antt =====
-- The functions of serialize.c that its users call: the table of an object's formats, and the writer and the
-- reader behind their assertions.
use rt_csp.Base.{
  append-nil, ℕ, suc, ◌%◌, ◌^◌, ◌<◌, ◌≡◌, refl, ap, sym, ◌∙◌, Bool, true, false, Bool-cases, inl,
  inr, Option, none, some, List, [], ◌∷◌, ◌==◌, if◌then◌else◌, length, str_eq, str_eq_refl,
  str_eq_sound, arith,
}
use mathlib.Core.Path.{subst}
use rt_csp.Serialize.{
  Format, Formats, end, field, Value, Row, scalar, float, string, string_length, object, array,
  arrlen, hashtable, serialize_string_ex, serialize_string_object_ex,
}
use rt_csp.Serialize.Elements.{Parsed, read, has_key, parse_object}
use rt_csp.Serialize.Parse.{insert_entry, parse_field, blank, _serialize_parse}
use rt_csp.Serialize.Values.{IsValue, _serialize_parse-value}

-- The table of the formats by their keys.
abbrev pub HashTable : Type 0
HashTable = List (List ℕ × Format)

-- The loop over the formats, with `g_hash_table_replace`.
pub replace_all : HashTable → Formats → HashTable
replace_all ht end = ht
replace_all ht (field key f fs) = replace_all (insert_entry key f ht) fs

-- `ht` of an object, NULL or a table. `none` is a failed assertion.
unfoldable pub serialize_object_init : Option HashTable → Formats → Option (Option HashTable)
unfolding replace_all
serialize_object_init none fs = some (some (replace_all [] fs))
serialize_object_init (some ht) fs = none

unfoldable pub serialize_object_destory : Option HashTable → Option (Option HashTable)
serialize_object_destory none = none
serialize_object_destory (some ht) = some none

pub find_serialize_format : HashTable → List ℕ → Option Format
find_serialize_format [] key = none
find_serialize_format ((k, f) ∷ ht) key =
    if str_eq k key then some f else find_serialize_format ht key

unfoldable pub serialize_parse :
    ((f : Format) → Value f) → ℕ → (f : Format) → Value f → List ℕ → ℕ → Option (Parsed (Value f))
serialize_parse junk fuel f old buffer buflen =
    if buflen == 0 then none else some (_serialize_parse junk fuel f old buffer buflen)

-- With the table that `serialize_object_init` left, if it was called.
unfoldable pub serialize_parse_object :
    ((f : Format) → Value f)
    → ℕ
    → Option HashTable
    → (fs : Formats) → Row fs
    → List ℕ
    → ℕ
    → Option (Parsed (Row fs))
serialize_parse_object junk fuel none fs old buffer buflen = none
serialize_parse_object junk fuel (some ht) fs old buffer buflen =
    if buflen == 0
    then none
    else some
        (parse_object (λ key. has_key key fs) (parse_field junk fuel fs) fuel old buffer buflen 0)

-- The text, and its length as a `length_t`.
unfoldable pub serialize_string : (f : Format) → Value f → List ℕ × ℕ
serialize_string f v = let s = serialize_string_ex f v in (s, length s % 2 ^ 32)

unfoldable pub serialize_string_object :
    Option HashTable → (fs : Formats) → Row fs → Option (List ℕ × ℕ)
serialize_string_object none fs r = none
serialize_string_object (some ht) fs r =
    let s = serialize_string_object_ex fs r in some (s, length s % 2 ^ 32)

-- The format that is last under a key.
pub format_under : Formats → List ℕ → Option Format
format_under end key = none
format_under (field k f fs) key =
    let later = format_under fs key in
    elim later [ some g ↦ some g | none ↦ if str_eq k key then some f else none ]

abbrev or_format : Option Format → Option Format → Option Format
or_format none b = b
or_format (some f) b = some f

same_key :
    (b : Bool) (f : Format) (r : Option Format) (g : Format)
    → (if b then some f else r) ≡ (if b then some f else if b then some g else r)
same_key true f r g = refl
same_key false f r g = refl

other_key :
    (a b : Bool) (f g : Format) (r : Option Format)
    → (a ≡ true → b ≡ true → ⊥)
    → (if a then some g else if b then some f else r)
      ≡ (if b then some f else if a then some g else r)
other_key true true f g r h = absurd (h refl refl)
other_key true false f g r h = refl
other_key false b f g r h = refl

not_both : (b : Bool) → b ≡ false → b ≡ true → ⊥
not_both b e q = cc

find-insert_entry :
    (ht : HashTable) (k key : List ℕ) (f : Format)
    → find_serialize_format (insert_entry k f ht) key
      ≡ (if str_eq k key then some f else find_serialize_format ht key)
unfolding find_serialize_format insert_entry
find-insert_entry [] k key f = refl
find-insert_entry ((j, g) ∷ ht) k key f = elim (Bool-cases (str_eq j k)) [
  | inl e ↦ rw (e, str_eq_sound j k e) (same_key (str_eq k key) f (find_serialize_format ht key) g)
  | inr e ↦
      rw (e, find_serialize_format, find-insert_entry ht k key f)
        (other_key (str_eq j key) (str_eq k key) f g (find_serialize_format ht key) λ a b.
          let same : j ≡ k = str_eq_sound j key a ∙ sym (str_eq_sound k key b) in
          not_both (str_eq j k) e (ap (λ x. str_eq x k) same ∙ str_eq_refl k))
]

replace_all_lem :
    (ht : HashTable) (fs : Formats) (key : List ℕ)
    → find_serialize_format (replace_all ht fs) key
      ≡ or_format (format_under fs key) (find_serialize_format ht key)
unfolding replace_all format_under
replace_all_lem ht end key = refl
replace_all_lem ht (field k f fs) key =
    ground (arith, replace_all_lem (insert_entry k f ht) fs key, find-insert_entry ht k key f)

abbrev is_some : Option Format → Bool
is_some none = false
is_some (some f) = true

has_key_lem : (fs : Formats) (key : List ℕ) → is_some (format_under fs key) ≡ has_key key fs
unfolding format_under
has_key_lem end key = refl
has_key_lem (field k f fs) key = ground (arith, has_key_lem fs key)

written_some : (f : Format) (v : Value f) → 0 < length (serialize_string_ex f v)
unfolding serialize_string_ex
written_some (scalar k) v = omega arith
written_some float v = omega arith
written_some string v = omega arith
written_some (string_length n) v = omega arith
written_some (object fs) v = omega arith
written_some (array f) v = omega arith
written_some (arrlen n f) v = omega arith
written_some (hashtable isint f) v = omega arith

-- The table that `serialize_object_init` leaves, where there is none yet, has under each key the format
-- that is last under it; the reader of an object asks for the same keys, and `serialize_object_destory`
-- leaves none again.
pub serialize_object_init_lem :
    (fs : Formats) (key : List ℕ)
    → (ht : HashTable) × (serialize_object_init none fs ≡ some (some ht))
      × (find_serialize_format ht key ≡ format_under fs key)
      × (is_some (find_serialize_format ht key) ≡ has_key key fs)
      × (serialize_object_destory (some ht) ≡ some none)
unfolding serialize_object_init serialize_object_destory find_serialize_format
serialize_object_init_lem fs key =
    let e : find_serialize_format (replace_all [] fs) key ≡ format_under fs key =
      replace_all_lem [] fs key ∙ or_none (format_under fs key) in
    (replace_all [] fs, refl, e, ap is_some e ∙ has_key_lem fs key, refl)
  where
    or_none : (o : Option Format) → or_format o none ≡ o
    or_none none = refl
    or_none (some f) = refl

-- A value that is written by `serialize_string` is read back by `serialize_parse` from the text and the
-- length that it returns, up to its end, if the value is one of those of `_serialize_parse-value` and
-- the text is shorter than 2^32 bytes.
pub serialize_parse-serialize_string :
    (junk : (f : Format) → Value f) (k : ℕ) (f : Format) (v : Value f)
    → IsValue k f v
    → length (serialize_string_ex f v) < 2 ^ 32
    → serialize_parse junk (suc k) f (blank f) (serialize_string f v).0 (serialize_string f v).1
      ≡ some (read v (serialize_string f v).1)
unfolding serialize_parse serialize_string
serialize_parse-serialize_string junk k f v h l =
    let n = length (serialize_string_ex f v) in
    let fits : n % 2 ^ 32 ≡ n = omega (arith, l) in
    let nonzero : (n == 0) ≡ false = ground (arith, written_some f v) in
    let back = _serialize_parse-value junk k f v [] n h l (omega arith) in
    rw (fits, nonzero)
      (ap some (
        subst (λ t. _serialize_parse junk (suc k) f (blank f) t n ≡ read v n)
          (append-nil (serialize_string_ex f v)) back))
