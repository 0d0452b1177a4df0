-- ===== src/Serialize/Entries.antt =====
-- A hash table of numbers with numbers for keys that is written is read back.
use rt_csp.Base.{
  ℕ, zero, suc, ◌+◌, ◌-◌, ◌^◌, ◌<◌, ◌≤◌, ◌≡◌, refl, ap, ◌∙◌, true, false, none, ltb, some, Option,
  List, [], ◌∷◌, ◌++◌, append_assoc, append-nil, length, length-append, drop, drop-append, char_at,
  ◌==◌, arith, str_eq, ℤ, pos, negsuc,
}
use mathlib.Core.Path.{subst}
use rt_csp.Serialize.{
  Format, Scalar, uint, Value, scalar, hashtable, print_key, print_entries, serialize_string_ex,
}
use rt_csp.Serialize.Number.{print_nat, sub_length}
use rt_csp.Serialize.Elements.{Parsed, read, on_read}
use rt_csp.Serialize.Parse.{
  blank, insert_entry, parse_key, parse_entries, parse_open, new_table, _serialize_parse,
}
use rt_csp.Serialize.Scalars.{IsScalar, _serialize_parse-scalar}
use rt_csp.Serialize.Strings.{head_found}
use rt_csp.Serialize.Arrays.{RoundTrips}

-- No entry of the table has the key.
abbrev pub Fresh {ℓ} : {A : Type ℓ} → List ℕ → List (List ℕ × A) → Type 0
Fresh k [] = Unit {0}
Fresh k ((j, w) ∷ m) = (str_eq j k ≡ false) × Fresh k m

-- The key is the text of an `unsigned int`.
abbrev pub IsNumber : List ℕ → Type 0
IsNumber key = (i : ℕ) × (i < 2 ^ 32) × (key ≡ print_nat i)

-- Entries that come behind those of `m`: the keys are numbers, no two the same, and so are the values.
abbrev pub AreEntries : Scalar → List (List ℕ × ℤ) → List (List ℕ × ℤ) → Type 0
AreEntries t m [] = Unit {0}
AreEntries t m (x ∷ xs) =
    Fresh x.0 m × IsNumber x.0 × IsScalar t x.1 × AreEntries t (m ++ x ∷ []) xs

insert_entry-Fresh {ℓ} :
    {A : Type ℓ} (k : List ℕ) (v : A) (m : List (List ℕ × A))
    → Fresh k m
    → insert_entry k v m ≡ m ++ (k, v) ∷ []
unfolding insert_entry
insert_entry-Fresh k v [] h = refl
insert_entry-Fresh k v ((j, w) ∷ m) h = rw h.0 (ap (λ t. (j, w) ∷ t) (insert_entry-Fresh k v m h.1))

entry_step {ℓ} :
    {A : Type ℓ} (j : A) (parse : A → List ℕ → ℕ → Parsed A) (k : ℕ) (m : List (List ℕ × A))
    (hkey hkey' : Option (List ℕ)) (key : List ℕ) (v : A) (buffer : List ℕ) (buflen done n l : ℕ)
    → ltb 0 buflen ≡ true
    → (char_at buffer 0 == b')') ≡ false
    → parse_key k true hkey buffer buflen ≡ read (key, hkey') n
    → parse j (drop n buffer) (sub_length buflen n) ≡ read v l
    → parse_entries true j parse (suc k) m hkey buffer buflen done
      ≡ parse_entries true j parse k
          (insert_entry key v m)
          hkey'
          (drop (n + l) buffer)
          (sub_length buflen (n + l))
          (done + n + l)
unfolding parse_entries
entry_step j parse k m hkey hkey' key v buffer buflen done n l e c p q =
    rw (e, c, p, on_read, q, parse_entries) refl

drop-append2 : (a b c : List ℕ) → drop (length a + length b) (a ++ (b ++ c)) ≡ c
drop-append2 a b c = rw (← length-append a b, ← append_assoc a b c) (drop-append (a ++ b) c)

module _ (junk : (f : Format) → Value f) (fuel : ℕ) where
  number_read :
      (k : ℕ) (hkey : Option (List ℕ)) (i : ℕ) (rest : List ℕ) (buflen : ℕ)
      → i < 2 ^ 32
      → buflen < 2 ^ 32
      → length (print_key true (print_nat i)) ≤ buflen
      → parse_key (suc k) true hkey (print_key true (print_nat i) ++ rest) buflen
        ≡ read (print_nat i, hkey) (length (print_key true (print_nat i)))
  unfolding parse_key _serialize_parse serialize_string_ex
  number_read k hkey i rest buflen small low fits =
      ap
        (λ q.
          on_read q
            λ v n. read (elim v as (λ _. List ℕ) [ pos j ↦ print_nat j | negsuc j ↦ [] ], hkey) n)
        (_serialize_parse-scalar junk k uint (pos i) (pos 0) rest buflen small low fits)

  key_read :
      (k : ℕ) (hkey : Option (List ℕ)) (key rest : List ℕ) (buflen : ℕ)
      → IsNumber key
      → buflen < 2 ^ 32
      → length (print_key true key) ≤ buflen
      → parse_key (suc k) true hkey (print_key true key ++ rest) buflen
        ≡ read (key, hkey) (length (print_key true key))
  key_read k hkey key rest buflen (i, small, e) low fits =
      let few : length (print_key true (print_nat i)) ≤ buflen =
        subst (λ s. length (print_key true s) ≤ buflen) e fits in
      rw e (number_read k hkey i rest buflen small low few)

  -- The reader of a hash table behind its letter.
  abbrev table_open :
      (t : Scalar)
      → Option (List (List ℕ × ℤ))
      → List ℕ
      → ℕ
      → ℕ
      → Parsed (Option (List (List ℕ × ℤ)))
  table_open t old =
      parse_open b'('
        (λ s n. new_table old (
          parse_entries true (junk (scalar t)) (_serialize_parse junk (suc fuel) (scalar t))
            (suc fuel) [] none s n 0))
        (λ v s n. read v n)

  entries_read :
      (t : Scalar) (j : ℤ) (m xs : List (List ℕ × ℤ)) (k : ℕ) (hkey : Option (List ℕ))
      (rest : List ℕ) (buflen done : ℕ)
      → AreEntries t m xs
      → length xs ≤ k
      → buflen < 2 ^ 32
      → length (print_entries true (serialize_string_ex (scalar t)) xs) + 1 ≤ buflen
      → parse_entries true j
          (_serialize_parse junk (suc fuel) (scalar t))
          (suc k)
          m
          hkey
          (print_entries true (serialize_string_ex (scalar t)) xs ++ b')' ∷ rest)
          buflen
          done
        ≡ read
            (m ++ xs)
            (done + length (print_entries true (serialize_string_ex (scalar t)) xs) + 1)
  unfolding parse_entries print_entries
  entries_read t j m [] k hkey rest buflen done h few small fits =
      let e : ltb 0 buflen ≡ true = ground (arith, fits) in
      rw (e, parse_entries, append-nil) (ap (read m) (omega arith))
  entries_read t j m (x ∷ xs) zero hkey rest buflen done h few small fits = absurd (omega arith)
  entries_read t j m (x ∷ xs) (suc k) hkey rest buflen done h few small fits =
      let key = print_key true x.0 in
      let w = serialize_string_ex (scalar t) x.1 in
      let ws = print_entries true (serialize_string_ex (scalar t)) xs in
      let tail : List ℕ = w ++ (ws ++ b')' ∷ rest) in
      let text : (key ++ w ++ ws) ++ b')' ∷ rest ≡ key ++ tail =
        append_assoc (key ++ w) ws (b')' ∷ rest) ∙ append_assoc key w (ws ++ b')' ∷ rest) in
      let size : length (key ++ w ++ ws) ≡ length key + length w + length ws =
        omega (arith, length-append (key ++ w) ws, length-append key w) in
      let room : length key + length w + length ws + 1 ≤ buflen = omega (arith, size, fits) in
      let first = key_read k hkey x.0 tail buflen h.1 small (omega (arith, room)) in
      let left : sub_length buflen (length key) ≡ buflen - length key = omega (arith, room) in
      let value =
        _serialize_parse-scalar junk fuel t x.1 j (ws ++ b')' ∷ rest) (buflen - length key) h.2
          (omega arith) (omega (arith, room)) in
      let e : ltb 0 buflen ≡ true = ground (arith, fits) in
      let both : sub_length buflen (length key + length w) ≡ buflen - length key - length w =
        omega (arith, room) in
      ap
        (λ s.
          parse_entries true j (_serialize_parse junk (suc fuel) (scalar t)) (suc (suc k)) m hkey s
            buflen done)
        text
      ∙ entry_step j (_serialize_parse junk (suc fuel) (scalar t)) (suc k) m hkey hkey x.0 x.1
          (key ++ tail) buflen done (length key) (length w) e refl first
          (rw (drop-append key tail, left) value)
      ∙ rw (drop-append2 key w (ws ++ b')' ∷ rest), insert_entry-Fresh x.0 x.1 m h.0, both)
          (entries_read t j (m ++ x ∷ []) xs k hkey rest (buflen - length key - length w)
              (done + length key + length w) h.3 (omega (arith, few)) (omega arith)
              (omega (arith, room))
            ∙ ap (λ z. read z (done + length key + length w + length ws + 1))
                (append_assoc m (x ∷ []) xs)
            ∙ ap (read (m ++ x ∷ xs)) (omega (arith, size)))

  pub hashtable-RoundTrips :
      (t : Scalar) (xs : List (List ℕ × ℤ))
      → AreEntries t [] xs
      → length xs ≤ fuel
      → RoundTrips junk fuel (hashtable true (scalar t)) (some xs)
  unfolding _serialize_parse serialize_string_ex blank
  hashtable-RoundTrips t xs h few rest buflen small fits =
      let w = print_entries true (serialize_string_ex (scalar t)) xs in
      let size = length-append w (b')' ∷ []) in
      head_found fuel b'h' (b'(' ∷ ((w ++ b')' ∷ []) ++ rest)) buflen (table_open t none)
        (omega (arith, fits, size)) small
      ∙ ap (λ s. table_open t none (b'(' ∷ s) buflen 2) (append_assoc w (b')' ∷ []) rest)
      ∙ ap (λ q. on_read (new_table none q) (λ v n. read v (2 + 0 + 1 + n)))
          (entries_read t (junk (scalar t)) [] xs fuel none rest buflen 0 h few small
            (omega (arith, fits, size)))
      ∙ ap (read (some xs)) (omega (arith, size))
