-- ===== src/Serialize/Loops.antt =====
-- The loops of the reader keep a property of what is in memory, whatever the buffer holds.
use rt_csp.Base.{
  ℕ, zero, suc, ◌+◌, ◌≡◌, refl, ap, Bool, true, false, ◌&&◌, not, Option, none, some, List, [], ◌∷◌,
  ◌==◌, ltb, if_cases, length, drop, char_at, str_eq, if◌then◌else◌,
}
use rt_csp.Serialize.Number.{sub_length}
use rt_csp.Serialize.Skip.{_serialize_parse_force}
use rt_csp.Serialize.Elements.{
  Parsed, read, invalid, starved, on_read, close_with, read_count, read_bytes, parse_counted,
  parse_items, parse_object, strchr,
}
use rt_csp.Serialize.Parse.{insert_entry, parse_key, parse_entries, parse_array, parse_open}
use rt_csp.Serialize.Arrays.{AllOf}
use rt_csp.Serialize.Tables.{Reads, on_read-Reads, anything}

module _ {A : Type 0} (P : A → Type 0) where
  if-Reads : (b : Bool) (x y : Parsed A) → Reads P x → Reads P y → Reads P (if b then x else y)
  if-Reads true x y h g = h
  if-Reads false x y h g = g

  pub close_with-Reads : (c : ℕ) (s : List ℕ) (v : A) (n : ℕ) → P v → Reads P (close_with c s v n)
  close_with-Reads c s v n h = if-Reads (char_at s 0 == c) (read v (n + 1)) invalid h tt

  opt-Reads :
      {X : Type 0} (o : Option X) (f : X → Parsed A)
      → ((x : X) → o ≡ some x → Reads P (f x))
      → Reads P (elim o [ none ↦ invalid | some x ↦ f x ])
  opt-Reads none f h = tt
  opt-Reads (some x) f h = h x refl

  counted-Reads :
      (o : Option (ℕ × ℕ)) (old : A) (store : List ℕ → Option A) (s : List ℕ) (buflen at : ℕ)
      → P old
      → ((b : List ℕ) (v : A) → store b ≡ some v → P v)
      → Reads P (elim o [
        | none ↦ invalid
        | some (zero, off) ↦ read old (at + off + 1)
        | some (suc n, off) ↦
            if ltb buflen (at + off + suc n)
            then invalid
            else elim (read_bytes (drop off s) (suc n)) [
              | none ↦ invalid
              | some b ↦ elim (store b) [ none ↦ invalid | some v ↦ read v (at + off + suc n + 1) ]
            ]
      ])
  counted-Reads none old store s buflen at h g = tt
  counted-Reads (some (zero, off)) old store s buflen at h g = h
  counted-Reads (some (suc n, off)) old store s buflen at h g =
      if-Reads (ltb buflen (at + off + suc n)) invalid _ tt (
        opt-Reads (read_bytes (drop off s) (suc n)) _
          (λ b e. opt-Reads (store b) (λ v. read v (at + off + suc n + 1)) (λ v d. g b v d)))

  pub parse_counted-Reads :
      (old : A) (store : List ℕ → Option A) (s : List ℕ) (buflen at : ℕ)
      → P old
      → ((b : List ℕ) (v : A) → store b ≡ some v → P v)
      → Reads P (parse_counted old store s buflen at)
  unfolding parse_counted
  parse_counted-Reads old store s buflen at h g =
      counted-Reads (read_count s b':') old store s buflen at h g

  pub parse_items-Reads :
      (parse : A → List ℕ → ℕ → Parsed A) (xs : List A) (buffer : List ℕ) (buflen : ℕ)
      → ((x : A) (s : List ℕ) (l : ℕ) → P x → Reads P (parse x s l))
      → AllOf P xs
      → Reads (λ vs. AllOf P vs × length vs ≡ length xs) (parse_items parse xs buffer buflen)
  unfolding parse_items
  parse_items-Reads parse [] buffer buflen keep h = (tt, refl)
  parse_items-Reads parse (x ∷ xs) buffer buflen keep h =
      on_read-Reads P (λ vs. AllOf P vs × length vs ≡ suc (length xs)) (parse x buffer buflen) _
        (keep x buffer buflen h.0)
        λ v n p.
          on_read-Reads (λ vs. AllOf P vs × length vs ≡ length xs)
            (λ vs. AllOf P vs × length vs ≡ suc (length xs))
            (parse_items parse xs (drop n buffer) (sub_length buflen n)) _
            (parse_items-Reads parse xs (drop n buffer) (sub_length buflen n) keep h.1)
            λ vs m q. ((p, q.0), ap suc q.1)

  behind-Reads :
      (r : Parsed A) (f : A → ℕ → Parsed A)
      → Reads P r
      → ((v : A) (m : ℕ) → P v → Reads P (f v m))
      → Reads P (elim r [ starved ↦ starved | invalid ↦ invalid | read v m ↦ f v m ])
  behind-Reads (read v m) f h g = g v m h
  behind-Reads invalid f h g = tt
  behind-Reads starved f h g = tt

  known-Reads :
      (b : Bool) (x y : Parsed A)
      → Reads P x
      → Reads P y
      → Reads P (elim b [ false ↦ x | true ↦ y ])
  known-Reads true x y h g = g
  known-Reads false x y h g = h

  skip-Reads :
      (o : Option ℕ) (f : ℕ → Parsed A)
      → ((m : ℕ) → Reads P (f m))
      → Reads P (elim o [ none ↦ starved | some zero ↦ invalid | some (suc m) ↦ f m ])
  skip-Reads none f h = tt
  skip-Reads (some zero) f h = tt
  skip-Reads (some (suc m)) f h = h m

  pub parse_object-Reads :
      (known : List ℕ → Bool) (parse : List ℕ → A → List ℕ → ℕ → Parsed A)
      → ((key : List ℕ) (x : A) (s : List ℕ) (l : ℕ) → P x → Reads P (parse key x s l))
      → (k : ℕ) (row : A) (buffer : List ℕ) (buflen done : ℕ) → P row
      → Reads P (parse_object known parse k row buffer buflen done)
  unfolding parse_object
  parse_object-Reads known parse keep zero row buffer buflen done h = tt
  parse_object-Reads known parse keep (suc k) row buffer buflen done h =
      known-Reads (ltb 2 buflen && (char_at buffer 0 == b's') && (char_at buffer 1 == b':'))
        (read row done) _ h
        (if-Reads _ invalid _ tt (
          known-Reads (known _) _ _
            (skip-Reads (_serialize_parse_force k _ _) _
              (λ m. parse_object-Reads known parse keep k row _ _ _ h))
            (behind-Reads (parse _ row _ _) _ (keep _ row _ _ h)
              (λ row' m p. parse_object-Reads known parse keep k row' _ _ _ p))))

module _ {A B : Type 0} (P : A → Type 0) (Q : B → Type 0) where
  pub parse_array-Reads :
      (old : B) (cells : ℕ → Option (List A)) (store : List A → B)
      (parse : A → List ℕ → ℕ → Parsed A) (s : List ℕ) (buflen at : ℕ)
      → Q old
      → ((x : A) (t : List ℕ) (l : ℕ) → P x → Reads P (parse x t l))
      → ((n : ℕ) (xs : List A) → cells n ≡ some xs → AllOf P xs)
      → ((n : ℕ) (xs vs : List A)
          → cells n ≡ some xs
          → AllOf P vs
          → length vs ≡ length xs
          → Q (store vs))
      → Reads Q (parse_array old cells store parse s buflen at)
  unfolding parse_array
  parse_array-Reads old cells store parse s buflen at h keep fresh stored = go (read_count s b'[')
    where
      go :
          (o : Option (ℕ × ℕ))
          → Reads Q (elim o [
            | none ↦ invalid
            | some (zero, off) ↦ read old (at + off + 1)
            | some (suc n, off) ↦
                if ltb buflen (at + off + suc n) then invalid else elim (cells (suc n)) [
                  | none ↦ invalid
                  | some xs ↦
                      on_read
                        (parse_items parse xs (drop off s) buflen)
                        λ vs m. close_with b']' (drop (off + m) s) (store vs) (at + off + m)
                ]
          ])
      go none = tt
      go (some (zero, off)) = h
      go (some (suc n, off)) = if-Reads Q (ltb buflen (at + off + suc n)) invalid _ tt (
          opt-Reads Q (cells (suc n)) _ λ xs e.
            on_read-Reads (λ vs. AllOf P vs × length vs ≡ length xs) Q
              (parse_items parse xs (drop off s) buflen) _
              (parse_items-Reads P parse xs (drop off s) buflen keep (fresh (suc n) xs e))
              λ vs m p.
                close_with-Reads Q b']' (drop (off + m) s) (store vs) (at + off + m)
                  (stored (suc n) xs vs e p.0 p.1))

  pub parse_open-Reads :
      (left : ℕ) (parse : List ℕ → ℕ → Parsed A) (finish : A → List ℕ → ℕ → Parsed B) (s : List ℕ)
      (buflen at : ℕ)
      → ((t : List ℕ) (l : ℕ) → Reads P (parse t l))
      → ((v : A) (t : List ℕ) (n : ℕ) → P v → Reads Q (finish v t n))
      → Reads Q (parse_open left parse finish s buflen at)
  unfolding parse_open
  parse_open-Reads left parse finish s buflen at h g =
      opt-Reads Q (strchr s left) _
        λ i e. on_read-Reads P Q (parse (drop (i + 1) s) buflen) _ (h _ _) (λ v n p. g v _ _ p)

module _ {A : Type 0} (P : A → Type 0) where
  abbrev pub Entries : List (List ℕ × A) → Type 0
  Entries = AllOf (λ e. P e.1)

  insert_entry-Entries :
      (k : List ℕ) (v : A) (m : List (List ℕ × A)) → P v → Entries m → Entries (insert_entry k v m)
  unfolding insert_entry
  insert_entry-Entries k v [] p h = (p, tt)
  insert_entry-Entries k v ((j, w) ∷ m) p h =
      if_cases Entries (str_eq j k) ((k, v) ∷ m) ((j, w) ∷ insert_entry k v m) (λ _. (p, h.1))
        (λ _. (h.0, insert_entry-Entries k v m p h.1))

  pub parse_entries-Entries :
      (isint : Bool) (junk : A) (parse : A → List ℕ → ℕ → Parsed A)
      → P junk
      → ((x : A) (s : List ℕ) (l : ℕ) → P x → Reads P (parse x s l))
      → (k : ℕ) (m : List (List ℕ × A)) (hkey : Option (List ℕ)) (buffer : List ℕ) (buflen done : ℕ)
      → Entries m
      → Reads Entries (parse_entries isint junk parse k m hkey buffer buflen done)
  unfolding parse_entries
  parse_entries-Entries isint junk parse blank keep zero m hkey buffer buflen done h = tt
  parse_entries-Entries isint junk parse blank keep (suc k) m hkey buffer buflen done h =
      known-Reads Entries (ltb 0 buflen && not (char_at buffer 0 == b')')) _ _
        (close_with-Reads Entries b')' buffer m done h)
        (on_read-Reads (λ _. Unit {0}) Entries (parse_key k isint hkey buffer buflen) _ (anything _)
          λ r n _.
            on_read-Reads P Entries (parse junk (drop n buffer) (sub_length buflen n)) _
              (keep junk _ _ blank)
              λ v l p.
                parse_entries-Entries isint junk parse blank keep k (insert_entry r.0 v m) r.1 _ _ _
                  (insert_entry-Entries r.0 v m p h))
