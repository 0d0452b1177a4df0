-- ===== src/Serialize/Memory.antt =====
-- The reader stays within the memory of the formats, whatever the buffer holds.
use rt_csp.Base.{
  ap, sym, ◌∙◌, ℕ, suc, ◌+◌, ◌≤◌, ◌≡◌, refl, Bool, true, false, none, some, Option, List, [], ◌∷◌,
  ◌++◌, length, length-append, length-replicate, replicate, take, drop, min, arith, zero, str_eq,
  if◌then◌else◌,
}
use mathlib.Core.Path.{subst}
use rt_csp.Serialize.{
  Format, Formats, end, field, Value, Row, scalar, float, string, string_length, object, array,
  arrlen, hashtable,
}
use rt_csp.Serialize.Elements.{Parsed, read, invalid, starved, has_key}
use rt_csp.Serialize.Parse.{
  first_cells, _serialize_parse, parse_field, new_cells, new_table, some_read, finish_object, blank,
  blank_fields,
}
use rt_csp.Serialize.Arrays.{AllOf}
use rt_csp.Serialize.Bounded.{first_cells-take}
use rt_csp.Serialize.Tables.{Reads, parse_head-Reads, on_read-Reads, anything}
use rt_csp.Serialize.Loops.{
  parse_counted-Reads, parse_object-Reads, parse_array-Reads, parse_open-Reads,
  parse_entries-Entries, close_with-Reads,
}

-- The value is within the memory of its format, and so is every value in it: a text is no longer than
-- its array, and an array of cells has its cells and counts no more of them.
abbrev mutual
  pub IsWithin : (f : Format) → Value f → Type 0
  IsWithin (scalar t) v = Unit {0}
  IsWithin float v = Unit {0}
  IsWithin string v = Unit {0}
  IsWithin (string_length n) v = length v ≤ n
  IsWithin (object fs) r = AreWithin fs r
  IsWithin (array f) none = Unit {0}
  IsWithin (array f) (some xs) = AllOf (IsWithin f) xs
  IsWithin (arrlen n f) v = v.0 ≤ n × length v.1 ≡ n × AllOf (IsWithin f) v.1
  IsWithin (hashtable b f) none = Unit {0}
  IsWithin (hashtable b f) (some xs) = AllOf (λ e. IsWithin f e.1) xs

  pub AreWithin : (fs : Formats) → Row fs → Type 0
  AreWithin end r = Unit {0}
  AreWithin (field k f fs) r = IsWithin f r.0 × AreWithin fs r.1

length-take {ℓ} : {A : Type ℓ} (n : ℕ) (xs : List A) → length (take n xs) ≤ n
length-take zero xs = omega arith
length-take (suc n) [] = omega arith
length-take (suc n) (x ∷ xs) = omega (arith, length-take n xs)

length-take-min {ℓ} :
    {A : Type ℓ} (n m : ℕ) (xs : List A) → length xs ≡ n → m ≤ n → length (take m xs) ≡ m
length-take-min n zero xs e h = refl
length-take-min n (suc m) [] e h = absurd (omega arith)
length-take-min zero (suc m) (x ∷ xs) e h = absurd (omega arith)
length-take-min (suc n) (suc m) (x ∷ xs) e h =
    omega (arith, length-take-min n m xs (omega arith) (omega arith))

length-drop {ℓ} :
    {A : Type ℓ} (m : ℕ) (xs : List A) → m ≤ length xs → length (drop m xs) + m ≡ length xs
length-drop zero xs h = omega arith
length-drop (suc m) [] h = absurd (omega arith)
length-drop (suc m) (x ∷ xs) h = omega (arith, length-drop m xs (omega arith))

module _ {A : Type 0} (P : A → Type 0) where
  take-AllOf : (n : ℕ) (xs : List A) → AllOf P xs → AllOf P (take n xs)
  take-AllOf zero xs h = tt
  take-AllOf (suc n) [] h = tt
  take-AllOf (suc n) (x ∷ xs) h = (h.0, take-AllOf n xs h.1)

  drop-AllOf : (n : ℕ) (xs : List A) → AllOf P xs → AllOf P (drop n xs)
  drop-AllOf zero xs h = h
  drop-AllOf (suc n) [] h = tt
  drop-AllOf (suc n) (x ∷ xs) h = drop-AllOf n xs h.1

  append-AllOf : (xs ys : List A) → AllOf P xs → AllOf P ys → AllOf P (xs ++ ys)
  append-AllOf [] ys h g = g
  append-AllOf (x ∷ xs) ys h g = (h.0, append-AllOf xs ys h.1 g)

  replicate-AllOf : (n : ℕ) (x : A) → P x → AllOf P (replicate n x)
  replicate-AllOf zero x h = tt
  replicate-AllOf (suc n) x h = (h, replicate-AllOf n x h)

later-Reads :
    {A : Type 0} (P : A → Type 0) (b : Bool) (x y : Parsed A)
    → Reads P x
    → Reads P y
    → Reads P (elim b [ true ↦ x | false ↦ y ])
later-Reads P true x y h g = h
later-Reads P false x y h g = g

own-Reads :
    {A : Type 0} (P : A → Type 0) (b : Bool) (x : Parsed A)
    → Reads P x
    → Reads P (if b then x else invalid)
own-Reads P true x h = h
own-Reads P false x h = tt

mutual
  unfolding blank

  pub blank-IsWithin : (f : Format) → IsWithin f (blank f)
  blank-IsWithin (scalar t) = tt
  blank-IsWithin float = tt
  blank-IsWithin string = tt
  blank-IsWithin (string_length n) = omega arith
  blank-IsWithin (object fs) = blank-AreWithin fs
  blank-IsWithin (array f) = tt
  blank-IsWithin (arrlen n f) = (
    omega arith,
    length-replicate n (blank f),
    replicate-AllOf (IsWithin f) n (blank f) (blank-IsWithin f),
  )
  blank-IsWithin (hashtable b f) = tt

  blank-AreWithin : (fs : Formats) → AreWithin fs (blank_fields fs)
  blank-AreWithin end = tt
  blank-AreWithin (field k f fs) = (blank-IsWithin f, blank-AreWithin fs)

module _ (junk : (f : Format) → Value f) (inside : (f : Format) → IsWithin f (junk f))
    (fuel : ℕ) where
  some_read-Reads : {A : Type 0} (P : A → Type 0) (r : Parsed A) → Reads P r → Reads P (some_read r)
  some_read-Reads P (read v zero) h = tt
  some_read-Reads P (read v (suc n)) h = h
  some_read-Reads P invalid h = tt
  some_read-Reads P starved h = tt

  new_table-Reads :
      (b : Bool) (f : Format) (old : Option (List (List ℕ × Value f)))
      (r : Parsed (List (List ℕ × Value f)))
      → Reads (AllOf (λ e. IsWithin f e.1)) r
      → Reads (IsWithin (hashtable b f)) (new_table old r)
  new_table-Reads b f none (read m n) h = h
  new_table-Reads b f none invalid h = tt
  new_table-Reads b f none starved h = tt
  new_table-Reads b f (some old) r h = tt

  new_cells-AllOf :
      (f : Format) (old : Option (List (Value f))) (n : ℕ) (xs : List (Value f))
      → new_cells (blank f) old n ≡ some xs
      → AllOf (IsWithin f) xs
  new_cells-AllOf f none n xs e =
      let d : replicate n (blank f) ≡ xs = cc e in
      subst (AllOf (IsWithin f)) d (replicate-AllOf (IsWithin f) n (blank f) (blank-IsWithin f))
  new_cells-AllOf f (some old) n xs e = cc

  stored_text : (n : ℕ) (b v : List ℕ) → some (take n b) ≡ some v → length v ≤ n
  stored_text n b v e = let d : take n b ≡ v = cc e in subst (λ s. length s ≤ n) d (length-take n b)

  -- The cells read take the place of the first ones.
  stored_cells :
      (n m : ℕ) (f : Format) (old vs xs : List (Value f))
      → length old ≡ n
      → AllOf (IsWithin f) old
      → some (take (min m n) old) ≡ some xs
      → AllOf (IsWithin f) vs
      → length vs ≡ length xs
      → IsWithin (arrlen n f) (length vs, vs ++ drop (length vs) old)
  stored_cells n m f old vs xs size h e g same =
      let d : take (min m n) old ≡ xs = cc e in
      let few : length xs ≤ n =
        subst (λ s. length s ≤ n) d (omega (arith, length-take (min m n) old)) in
      (
        omega arith,
        omega (
          arith,
          length-append vs (drop (length vs) old),
          length-drop (length vs) old (omega arith),
        ),
        append-AllOf (IsWithin f) vs (drop (length vs) old) g
            (drop-AllOf (IsWithin f) (length vs) old h),
      )

  mutual
    unfolding _serialize_parse

    parse-IsWithin :
        (f : Format) (old : Value f) (buffer : List ℕ) (buflen : ℕ)
        → IsWithin f old
        → Reads (IsWithin f) (_serialize_parse junk fuel f old buffer buflen)
    parse-IsWithin (scalar t) old buffer buflen h = anything _
    parse-IsWithin float old buffer buflen h = anything _
    parse-IsWithin string old buffer buflen h = anything _
    parse-IsWithin (string_length n) old buffer buflen h =
        parse_head-Reads (λ v. length v ≤ n) fuel b'S' buffer buflen _
          λ s l at.
            parse_counted-Reads (λ v. length v ≤ n) old (λ b. some (take n b)) s l at h
              (stored_text n)
    parse-IsWithin (object fs) old buffer buflen h =
        parse_head-Reads (AreWithin fs) fuel b'o' buffer buflen _ λ s l at.
          parse_open-Reads (AreWithin fs) (AreWithin fs) b'{' _ finish_object s l at
            (λ t n. some_read-Reads (AreWithin fs) _ (
              parse_object-Reads (AreWithin fs) (λ key. has_key key fs) (parse_field junk fuel fs)
                (λ key row u m p. field-AreWithin fs key row u m p) fuel old t n 0 h))
            (λ v t n p. close_with-Reads (AreWithin fs) b'}' t v n p)
    parse-IsWithin (array f) old buffer buflen h =
        parse_head-Reads (IsWithin (array f)) fuel b'a' buffer buflen _ λ s l at.
          parse_array-Reads (IsWithin f) (IsWithin (array f)) old (new_cells (blank f) old)
            (λ vs. some vs) (_serialize_parse junk fuel f) s l at h (parse-IsWithin f)
            (new_cells-AllOf f old) (λ n xs vs e p same. p)
    parse-IsWithin (arrlen n f) old buffer buflen h =
        parse_head-Reads (IsWithin (arrlen n f)) fuel b'A' buffer buflen _ λ s l at.
          parse_array-Reads (IsWithin f) (IsWithin (arrlen n f)) old
            (λ m. some (first_cells (blank f) (min m n) old.1))
            (λ vs. (length vs, vs ++ drop (length vs) old.1)) (_serialize_parse junk fuel f) s l at
            h (parse-IsWithin f)
            (λ m xs e.
              let d : take (min m n) old.1 ≡ xs =
                cc (first_cells-take n m (blank f) old.1 h.1, e) in
              subst (AllOf (IsWithin f)) d (take-AllOf (IsWithin f) (min m n) old.1 h.2))
            (λ m xs vs e p same.
              stored_cells n m f old.1 vs xs h.1 h.2
                (ap some (sym (first_cells-take n m (blank f) old.1 h.1)) ∙ e) p same)
    parse-IsWithin (hashtable b f) old buffer buflen h =
        parse_head-Reads (IsWithin (hashtable b f)) fuel b'h' buffer buflen _ λ s l at.
          parse_open-Reads (IsWithin (hashtable b f)) (IsWithin (hashtable b f)) b'(' _
            (λ v t n. read v n) s l at
            (λ t n. new_table-Reads b f old _ (
              parse_entries-Entries (IsWithin f) b (junk f) (_serialize_parse junk fuel f)
                (inside f) (parse-IsWithin f) fuel [] none t n 0 tt))
            (λ v t n p. p)

    field-AreWithin :
        (fs : Formats) (key : List ℕ) (row : Row fs) (s : List ℕ) (l : ℕ)
        → AreWithin fs row
        → Reads (AreWithin fs) (parse_field junk fuel fs key row s l)
    field-AreWithin end key row s l h = tt
    field-AreWithin (field k f fs) key row s l h =
        later-Reads (AreWithin (field k f fs)) (has_key key fs) _ _
          (on_read-Reads (AreWithin fs) (AreWithin (field k f fs))
            (parse_field junk fuel fs key row.1 s l) _ (field-AreWithin fs key row.1 s l h.1)
            (λ r n p. (h.0, p)))
          (own-Reads (AreWithin (field k f fs)) (str_eq k key) _ (
            on_read-Reads (IsWithin f) (AreWithin (field k f fs))
              (_serialize_parse junk fuel f row.0 s l) _ (parse-IsWithin f row.0 s l h.0)
              (λ v n p. (p, h.1))))

-- Whatever bytes are in the buffer, whatever `buflen` says and with any fuel: if `_serialize_parse`
-- reads a value into memory that is within its format, what it leaves there is so again. No text has
-- more bytes before its closing NUL than its array has by its format, an array of cells has as many
-- cells as before, so that none was written behind its end, and counts no more of them, and so for
-- everything in it. What `malloc` gives for the value of a hash table must be within its format too.
-- Nothing is said of what is stored before an error.
pub _serialize_parse-IsWithin :
    (junk : (f : Format) → Value f) (fuel : ℕ) (f : Format) (old : Value f) (buffer : List ℕ)
    (buflen : ℕ)
    → ((g : Format) → IsWithin g (junk g))
    → IsWithin f old
    → Reads (IsWithin f) (_serialize_parse junk fuel f old buffer buflen)
_serialize_parse-IsWithin junk fuel f old buffer buflen inside h =
    parse-IsWithin junk inside fuel f old buffer buflen h
