-- ===== src/Serialize/Values.antt =====
-- Numbers, strings, arrays, objects and tables of numbers, nested to any depth, that are written are read
-- back.
use rt_csp.Base.{
  ℕ, suc, ◌^◌, ◌<◌, ◌≤◌, ◌≡◌, refl, ap, ◌∙◌, true, false, Option, none, some, List, [], ◌∷◌, ◌++◌,
  length, take, arith,
}
use mathlib.Core.Path.{subst}
use rt_csp.Serialize.{
  Format, Formats, end, field, Value, Row, scalar, float, string, string_length, object, array,
  arrlen, hashtable, print_bytes, serialize_string_ex,
}
use rt_csp.Serialize.Elements.{read, store_string, parse_counted}
use rt_csp.Serialize.Parse.{blank, parse_array, new_cells, _serialize_parse}
use rt_csp.Serialize.Scalars.{IsScalar, _serialize_parse-scalar}
use rt_csp.Serialize.Strings.{head_found, parse_counted-empty, _serialize_parse-serialize_string_ex}
use rt_csp.Serialize.Arrays.{
  AllOf, RoundTrips, print_array, parse_array-empty, parse_array-print_array,
}
use rt_csp.Serialize.Objects.{AreKeys, count_fields, AllFields, object-RoundTrips}
use rt_csp.Serialize.Entries.{AreEntries, hashtable-RoundTrips}
use rt_csp.Serialize.Bounded.{Counted, parts_of, string_length-RoundTrips, arrlen-RoundTrips}

-- A table in question: of numbers, with numbers for keys, and not NULL.
abbrev IsTable : (k : ℕ) (f : Format) → Option (List (List ℕ × Value f)) → Type 0
IsTable k (scalar t) none = ⊥
IsTable k (scalar t) (some xs) = AreEntries t [] xs × length xs ≤ k
IsTable k f v = ⊥

-- A value in question: a number of its type; a string or an array with a pointer that is NULL or not
-- empty; a string or an array within its memory; an object of such values, or such a table. `k`
-- bounds the fields of an object and the entries of a table.
abbrev mutual
  pub IsValue : (k : ℕ) (f : Format) → Value f → Type 0
  IsValue k (scalar t) v = IsScalar t v
  IsValue k float v = ⊥
  IsValue k string none = Unit {0}
  IsValue k string (some []) = ⊥
  IsValue k string (some (c ∷ s)) = Unit {0}
  IsValue k (string_length n) v = length v ≤ n
  IsValue k (object end) r = ⊥
  IsValue k (object (field key f fs)) r =
      AreKeys (field key f fs) × count_fields (field key f fs) ≤ k × IsRow k (field key f fs) r
  IsValue k (array f) none = Unit {0}
  IsValue k (array f) (some []) = ⊥
  IsValue k (array f) (some (x ∷ xs)) = AllOf (IsValue k f) (x ∷ xs)
  IsValue k (arrlen n f) v = Counted n (blank f) v × AllOf (IsValue k f) (take v.0 v.1)
  IsValue k (hashtable true f) v = IsTable k f v
  IsValue k (hashtable false f) v = ⊥

  pub IsRow : (k : ℕ) (fs : Formats) → Row fs → Type 0
  IsRow k end r = Unit {0}
  IsRow k (field key f fs) r = IsValue k f r.0 × IsRow k fs r.1

module _ (junk : (f : Format) → Value f) (k : ℕ) where
  string-RoundTrips : RoundTrips junk k string none
  unfolding _serialize_parse serialize_string_ex blank
  string-RoundTrips rest buflen small fits =
      head_found k b's' (print_bytes [] ++ rest) buflen (parse_counted none (store_string none))
        (omega (arith, fits)) small
      ∙ parse_counted-empty none (store_string none) rest buflen 2
      ∙ ap (read none) (omega arith)

  array-RoundTrips :
      (f : Format) (x : Value f) (xs : List (Value f))
      → AllOf (RoundTrips junk k f) (x ∷ xs)
      → RoundTrips junk k (array f) (some (x ∷ xs))
  unfolding _serialize_parse serialize_string_ex blank
  array-RoundTrips f x xs h rest buflen small fits =
      head_found k b'a' (print_array f (x ∷ xs) ++ rest) buflen
        (parse_array none (new_cells (blank f) none) (λ vs. some vs)
          (_serialize_parse junk (suc k) f))
        (omega (arith, fits)) small
      ∙ parse_array-print_array junk k f none (some (x ∷ xs)) (new_cells (blank f) none)
          (λ vs. some vs) x xs rest buflen 2 refl refl h small (omega (arith, fits))
      ∙ ap (read (some (x ∷ xs))) (omega arith)

  no_array-RoundTrips : (f : Format) → RoundTrips junk k (array f) none
  unfolding _serialize_parse serialize_string_ex blank
  no_array-RoundTrips f rest buflen small fits =
      head_found k b'a' (print_array f [] ++ rest) buflen
        (parse_array none (new_cells (blank f) none) (λ vs. some vs)
          (_serialize_parse junk (suc k) f))
        (omega (arith, fits)) small
      ∙ parse_array-empty junk k f none none (new_cells (blank f) none) (λ vs. some vs) rest buflen
          2
      ∙ ap (read none) (omega arith)

  all_of :
      (f : Format) (xs : List (Value f))
      → ((v : Value f) → IsValue k f v → RoundTrips junk k f v)
      → AllOf (IsValue k f) xs
      → AllOf (RoundTrips junk k f) xs
  all_of f [] ih h = tt
  all_of f (x ∷ xs) ih h = (ih x h.0, all_of f xs ih h.1)

  IsTable-RoundTrips :
      (f : Format) (v : Option (List (List ℕ × Value f)))
      → IsTable k f v
      → RoundTrips junk k (hashtable true f) v
  IsTable-RoundTrips (scalar t) none h = absurd h
  IsTable-RoundTrips (scalar t) (some xs) h = hashtable-RoundTrips junk k t xs h.0 h.1
  IsTable-RoundTrips f v h = absurd h

  mutual
    unfolding blank

    IsValue-RoundTrips : (f : Format) (v : Value f) → IsValue k f v → RoundTrips junk k f v
    IsValue-RoundTrips (scalar t) v h =
        λ rest buflen. _serialize_parse-scalar junk k t v (blank (scalar t)) rest buflen h
    IsValue-RoundTrips float v h = absurd h
    IsValue-RoundTrips string none h = string-RoundTrips
    IsValue-RoundTrips string (some []) h = absurd h
    IsValue-RoundTrips string (some (c ∷ s)) h = _serialize_parse-serialize_string_ex junk k c s
    IsValue-RoundTrips (string_length n) v h = string_length-RoundTrips junk k n v h
    IsValue-RoundTrips (object end) r h = absurd h
    IsValue-RoundTrips (object (field key f fs)) r h =
        object-RoundTrips junk k key f fs r h.0
          (IsValue-RoundTrips f r.0 h.2.0, IsRow-RoundTrips fs r.1 h.2.1) h.1
    IsValue-RoundTrips (array f) none h = no_array-RoundTrips f
    IsValue-RoundTrips (array f) (some []) h = absurd h
    IsValue-RoundTrips (array f) (some (x ∷ xs)) h =
        array-RoundTrips f x xs (all_of f (x ∷ xs) (IsValue-RoundTrips f) h)
    IsValue-RoundTrips (arrlen n f) v h =
        let few : length (take v.0 v.1) ≤ n = omega (arith, h.0.0, h.0.1) in
        subst (RoundTrips junk k (arrlen n f)) (parts_of n f v h.0) (
          arrlen-RoundTrips junk k n f (take v.0 v.1) few
            (all_of f (take v.0 v.1) (IsValue-RoundTrips f) h.1))
    IsValue-RoundTrips (hashtable true f) v h = IsTable-RoundTrips f v h
    IsValue-RoundTrips (hashtable false f) v h = absurd h

    IsRow-RoundTrips :
        (fs : Formats) (r : Row fs) → IsRow k fs r → AllFields (RoundTrips junk k) fs r
    IsRow-RoundTrips end r h = tt
    IsRow-RoundTrips (field key f fs) r h =
        (IsValue-RoundTrips f r.0 h.0, IsRow-RoundTrips fs r.1 h.1)

-- A value of any of the ten types of numbers, a string, a string of bounded length within its memory,
-- an array of such values, of bounded length within its memory or not, an object of them or a hash
-- table of numbers with numbers for keys, to any depth, is written by `serialize_string_ex` and read
-- back by `_serialize_parse` into blank memory, whatever follows it in the buffer, and exactly what
-- was written is consumed. A pointer to a string or to an array without bounds must be NULL or to
-- something not empty, one to a hash table not NULL, and the cells of an array of bounded length
-- behind those that are counted must be blank. The keys of an object or of a table must differ, and
-- those of an object, of which it has at least one, must be C strings of 1 to 100 bytes. `buflen` must
-- be a `length_t` and cover what was written; fuel above the number of fields of each object and of
-- entries of each table is enough.
pub _serialize_parse-value :
    (junk : (f : Format) → Value f) (k : ℕ) (f : Format) (v : Value f) (rest : List ℕ) (buflen : ℕ)
    → IsValue k f v
    → buflen < 2 ^ 32
    → length (serialize_string_ex f v) ≤ buflen
    → _serialize_parse junk (suc k) f (blank f) (serialize_string_ex f v ++ rest) buflen
      ≡ read v (length (serialize_string_ex f v))
_serialize_parse-value junk k f v rest buflen h = IsValue-RoundTrips junk k f v h rest buflen
