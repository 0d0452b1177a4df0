-- ===== src/Serialize/Arrays.antt =====
-- The items between the brackets of an array that is written are read back, when each of them is.
use rt_csp.Base.{
  ℕ, zero, suc, ◌+◌, ◌-◌, ◌^◌, ◌<◌, ◌≤◌, ◌≡◌, refl, ap, ◌∙◌, false, some, Option, List, [], ◌∷◌,
  ◌++◌, ltb, append_assoc, length, length-append, drop, drop-append, replicate, arith,
}
use rt_csp.Serialize.{
  Format, Value, scalar, float, string, string_length, object, array, arrlen, hashtable,
  print_items, serialize_string_ex,
}
use rt_csp.Serialize.Number.{print_nat, sub_length, to_length}
use rt_csp.Serialize.Digits.{strtoul-print_nat}
use rt_csp.Serialize.Elements.{read, on_read, parse_items, read_count}
use rt_csp.Serialize.Parse.{blank, parse_array, _serialize_parse}
use rt_csp.Serialize.Strings.{read_at, count_read}

abbrev pub AllOf : {A : Type 0} → (A → Type 0) → List A → Type 0
AllOf P [] = Unit {0}
AllOf P (x ∷ xs) = P x × AllOf P xs

module _ (junk : (f : Format) → Value f) (k : ℕ) where
  -- What is written for `v` is read back into memory that is blank.
  abbrev pub RoundTrips : (f : Format) → Value f → Type 0
  RoundTrips f v =
      (rest : List ℕ) (buflen : ℕ)
      → buflen < 2 ^ 32
      → length (serialize_string_ex f v) ≤ buflen
      → _serialize_parse junk (suc k) f (blank f) (serialize_string_ex f v ++ rest) buflen
        ≡ read v (length (serialize_string_ex f v))

  items-RoundTrips :
      (f : Format) (xs : List (Value f))
      → AllOf (RoundTrips f) xs
      → (rest : List ℕ) (buflen : ℕ) → buflen < 2 ^ 32
      → length (print_items (serialize_string_ex f) xs) ≤ buflen
      → parse_items
          (_serialize_parse junk (suc k) f)
          (replicate (length xs) (blank f))
          (print_items (serialize_string_ex f) xs ++ rest)
          buflen
        ≡ read xs (length (print_items (serialize_string_ex f) xs))
  unfolding parse_items print_items
  items-RoundTrips f [] h rest buflen small fits = refl
  items-RoundTrips f (x ∷ xs) h rest buflen small fits =
      let w = serialize_string_ex f x in
      let ws = print_items (serialize_string_ex f) xs in
      let size = length-append w ws in
      let left : sub_length buflen (length w) ≡ buflen - length w = omega (arith, fits) in
      rw
        (
          append_assoc w ws rest,
          h.0 (ws ++ rest) buflen small (omega (arith, fits)),
          on_read,
          drop-append w (ws ++ rest),
          left,
          items-RoundTrips f xs h.1 rest (buflen - length w) (omega arith) (omega (arith, fits)),
          size,
        )
        refl

-- The count of an array is read back, and its bracket found at once.
read_count-bracket :
    (n : ℕ) (rest : List ℕ)
    → n < 2 ^ 32
    → read_count (print_nat n ++ b'[' ∷ rest) b'[' ≡ some (n, length (print_nat n) + 1)
unfolding read_count
read_count-bracket n rest h =
    let s : List ℕ = print_nat n ++ b'[' ∷ rest in
    let m : to_length n ≡ n = omega arith in
    count_read s b'[' _ (strtoul-print_nat n b'[' rest (omega arith) refl)
    ∙ rw (drop-append (print_nat n) (b'[' ∷ rest), read_at)
        (rw m (ap (λ k. some (n, k)) (omega arith)))

drop_behind_mark : (s : List ℕ) (c : ℕ) (rest : List ℕ) → drop (length s + 1) (s ++ c ∷ rest) ≡ rest
drop_behind_mark [] c rest = refl
drop_behind_mark (x ∷ s) c rest =
    let e : suc (length s) + 1 ≡ suc (length s + 1) = omega arith in
    rw e (drop_behind_mark s c rest)

drop_add : (a b : ℕ) (s : List ℕ) → drop (a + b) s ≡ drop b (drop a s)
drop_add zero b s = let e : 0 + b ≡ b = omega arith in ap (λ n. drop n s) e
drop_add (suc a) zero [] = let e : suc a + 0 ≡ suc a = omega arith in ap (λ n. drop n []) e
drop_add (suc a) (suc b) [] =
    let e : suc a + suc b ≡ suc (a + suc b) = omega arith in ap (λ n. drop n []) e
drop_add (suc a) b (x ∷ s) =
    let e : suc a + b ≡ suc (a + b) = omega arith in ap (λ n. drop n (x ∷ s)) e ∙ drop_add a b s

written_some : (f : Format) (v : Value f) → 1 ≤ length (serialize_string_ex f v)
unfolding serialize_string_ex
written_some (scalar t) v = omega arith
written_some float v = omega arith
written_some string v = omega arith
written_some (string_length n) v = omega arith
written_some (object fs) v = omega arith
written_some (array f) v = omega arith
written_some (arrlen n f) v = omega arith
written_some (hashtable b f) v = omega arith

length-print_items :
    (f : Format) (xs : List (Value f)) → length xs ≤ length (print_items (serialize_string_ex f) xs)
unfolding print_items
length-print_items f [] = omega arith
length-print_items f (x ∷ xs) =
    let w = serialize_string_ex f x in
    omega (
      arith,
      written_some f x,
      length-print_items f xs,
      length-append w (print_items (serialize_string_ex f) xs),
    )

-- An array behind its type letter, as `serialize_string_ex` writes it.
abbrev pub print_array : (f : Format) → List (Value f) → List ℕ
print_array f xs =
    print_nat (length xs) ++ b'[' ∷ print_items (serialize_string_ex f) xs ++ b']' ∷ []

print_array-append :
    (f : Format) (xs : List (Value f)) (rest : List ℕ)
    → print_array f xs ++ rest
      ≡ print_nat (length xs) ++ b'[' ∷ (print_items (serialize_string_ex f) xs ++ b']' ∷ rest)
print_array-append f xs rest =
    let digits = print_nat (length xs) in
    let ws = print_items (serialize_string_ex f) xs in
    append_assoc (digits ++ b'[' ∷ ws) (b']' ∷ []) rest
    ∙ append_assoc digits (b'[' ∷ ws) (b']' ∷ rest)

pub length-print_array :
    (f : Format) (xs : List (Value f))
    → length (print_array f xs)
      ≡ length (print_nat (length xs)) + 2 + length (print_items (serialize_string_ex f) xs)
length-print_array f xs =
    let digits = print_nat (length xs) in
    let ws = print_items (serialize_string_ex f) xs in
    omega (arith, length-append (digits ++ b'[' ∷ ws) (b']' ∷ []), length-append digits (b'[' ∷ ws))

module _ (junk : (f : Format) → Value f) (k : ℕ) {B : Type 0} (f : Format) (old v : B)
    (cells : ℕ → Option (List (Value f))) (store : List (Value f) → B) where
  array_zero :
      (s : List ℕ) (buflen at off : ℕ)
      → read_count s b'[' ≡ some (0, off)
      → parse_array old cells store (_serialize_parse junk (suc k) f) s buflen at
        ≡ read old (at + off + 1)
  unfolding parse_array
  array_zero s buflen at off e = rw (parse_array, e) refl

  -- Of a count of 0 nothing is stored.
  pub parse_array-empty :
      (rest : List ℕ) (buflen at : ℕ)
      → parse_array old cells store
          (_serialize_parse junk (suc k) f)
          (print_array f [] ++ rest)
          buflen
          at
        ≡ read old (at + length (print_array f []))
  unfolding print_items
  parse_array-empty rest buflen at =
      let size = length-print_array f [] in
      rw (print_array-append f [] rest) (
        array_zero (print_nat 0 ++ b'[' ∷ b']' ∷ rest) buflen at (length (print_nat 0) + 1)
          (read_count-bracket 0 (b']' ∷ rest) (omega arith))
        ∙ ap (read old) (omega (arith, size)))

  body_read :
      (x : Value f) (xs : List (Value f)) (rest : List ℕ) (buflen at : ℕ)
      → cells (length (x ∷ xs)) ≡ some (replicate (length (x ∷ xs)) (blank f))
      → store (x ∷ xs) ≡ v
      → AllOf (RoundTrips junk k f) (x ∷ xs)
      → buflen < 2 ^ 32
      → at
          + (length (print_nat (length (x ∷ xs)))
              + 2
              + length (print_items (serialize_string_ex f) (x ∷ xs)))
        ≤ buflen
      → parse_array old cells store
          (_serialize_parse junk (suc k) f)
          (print_nat (length (x ∷ xs))
            ++ b'[' ∷ (print_items (serialize_string_ex f) (x ∷ xs) ++ b']' ∷ rest))
          buflen
          at
        ≡ read v (
            at
            + (length (print_nat (length (x ∷ xs)))
                + 2
                + length (print_items (serialize_string_ex f) (x ∷ xs))))
  unfolding parse_array
  body_read x xs rest buflen at fresh stored h small fits =
      let n = length (x ∷ xs) in
      let ws = print_items (serialize_string_ex f) (x ∷ xs) in
      let inner : List ℕ = ws ++ b']' ∷ rest in
      let many = length-print_items f (x ∷ xs) in
      let count = read_count-bracket n inner (omega (arith, many, fits)) in
      let room : ltb buflen (at + (length (print_nat n) + 1) + n) ≡ false =
        ground (arith, many, fits) in
      let items =
        items-RoundTrips junk k f (x ∷ xs) h (b']' ∷ rest) buflen small (omega (arith, fits)) in
      let behind : drop (length (print_nat n) + 1 + length ws) (print_nat n ++ b'[' ∷ inner)
          ≡ b']' ∷ rest =
        drop_add (length (print_nat n) + 1) (length ws) (print_nat n ++ b'[' ∷ inner)
        ∙ ap (drop (length ws)) (drop_behind_mark (print_nat n) b'[' inner)
        ∙ drop-append ws (b']' ∷ rest) in
      rw
        (
          parse_array,
          count,
          room,
          fresh,
          drop_behind_mark (print_nat n) b'[' inner,
          items,
          on_read,
          behind,
          stored,
        )
        (ap (read v) (omega arith))

  pub parse_array-print_array :
      (x : Value f) (xs : List (Value f)) (rest : List ℕ) (buflen at : ℕ)
      → cells (length (x ∷ xs)) ≡ some (replicate (length (x ∷ xs)) (blank f))
      → store (x ∷ xs) ≡ v
      → AllOf (RoundTrips junk k f) (x ∷ xs)
      → buflen < 2 ^ 32
      → at + length (print_array f (x ∷ xs)) ≤ buflen
      → parse_array old cells store
          (_serialize_parse junk (suc k) f)
          (print_array f (x ∷ xs) ++ rest)
          buflen
          at
        ≡ read v (at + length (print_array f (x ∷ xs)))
  parse_array-print_array x xs rest buflen at fresh stored h small fits =
      let size = length-print_array f (x ∷ xs) in
      rw (print_array-append f (x ∷ xs) rest) (
        body_read x xs rest buflen at fresh stored h small (omega (arith, fits, size))
        ∙ ap (read v) (omega (arith, size)))
