-- ===== src/Serialize/Strings.antt =====
-- A string element that is written is read back.
use rt_csp.Base.{
  ℕ, suc, ◌+◌, ◌^◌, ◌<◌, ◌≤◌, ◌≡◌, refl, ap, ◌∙◌, false, Option, none, some, List, [], ◌∷◌, ◌++◌,
  append_assoc, ltb, ==_refl, length, length-append, IsText, if_cases, ◌==◌, drop, drop-append,
  take-append, char_at, arith,
}
use rt_csp.Serialize.{Format, Value, string, serialize_string_ex, print_bytes}
use rt_csp.Serialize.Number.{print_nat, strtoul, to_length, sub_length}
use rt_csp.Serialize.Digits.{strtoul-print_nat}
use rt_csp.Serialize.Elements.{
  Parsed, read, read_count, read_bytes, skip_until, parse_head, parse_counted, store_string, strchr,
  until_nul,
}
use rt_csp.Serialize.Parse.{_serialize_parse}

abbrev pub read_at : List ℕ → ℕ → ℕ × ℕ → Option (ℕ × ℕ)
read_at s c r = elim (strchr (drop r.1 s) c) [
  | none ↦ none
  | some i ↦ some (to_length r.0, r.1 + i + 1)
]

pub count_read : (s : List ℕ) (c : ℕ) (r : ℕ × ℕ) → strtoul s ≡ r → read_count s c ≡ read_at s c r
unfolding read_count
count_read s c r e = ap (read_at s c) e

-- The count is read back, and its colon found at once.
pub read_count-print_nat :
    (n : ℕ) (rest : List ℕ)
    → n < 2 ^ 32
    → read_count (print_nat n ++ b':' ∷ rest) b':' ≡ some (n, length (print_nat n) + 1)
unfolding read_count
read_count-print_nat n rest h =
    let s : List ℕ = print_nat n ++ b':' ∷ rest in
    let m : to_length n ≡ n = omega arith in
    count_read s b':' _ (strtoul-print_nat n b':' rest (omega arith) refl)
    ∙ rw (drop-append (print_nat n) (b':' ∷ rest), read_at)
        (rw m (ap (λ k. some (n, k)) (omega arith)))

pub char_at-append : (s : List ℕ) (c : ℕ) (rest : List ℕ) → char_at (s ++ c ∷ rest) (length s) ≡ c
char_at-append [] c rest = refl
char_at-append (x ∷ s) c rest = char_at-append s c rest

pub until_nul-IsText : (s : List ℕ) → IsText s → until_nul s ≡ s
until_nul-IsText [] t = refl
until_nul-IsText (x ∷ s) t =
    if_cases (λ r. r ≡ x ∷ s) (x == 0) [] (x ∷ until_nul s) (λ z. absurd (t.0 (ground arith)))
      (λ _. ap (λ r. x ∷ r) (until_nul-IsText s t.1))

read_bytes-append : (s rest : List ℕ) → read_bytes (s ++ b';' ∷ rest) (length s) ≡ some s
unfolding read_bytes
read_bytes-append s rest =
    rw (char_at-append s b';' rest, read_bytes) (rw (take-append s (b';' ∷ rest)) refl)

drop-suc {ℓ} :
    {A : Type ℓ} (xs : List A) (c : A) (rest : List A)
    → drop (suc (length xs)) (xs ++ c ∷ rest) ≡ rest
drop-suc [] c rest = refl
drop-suc (x ∷ xs) c rest = drop-suc xs c rest

pub drop_behind {ℓ} :
    {A : Type ℓ} (xs : List A) (c : A) (rest : List A)
    → drop (length xs + 1) (xs ++ c ∷ rest) ≡ rest
drop_behind xs c rest =
    let e : length xs + 1 ≡ suc (length xs) = omega arith in rw e (drop-suc xs c rest)

counted_read {ℓ} :
    {A : Type ℓ} (old v : A) (store : List ℕ → Option A) (s b : List ℕ) (buflen at n off : ℕ)
    → read_count s b':' ≡ some (suc n, off)
    → ltb buflen (at + off + suc n) ≡ false
    → read_bytes (drop off s) (suc n) ≡ some b
    → store b ≡ some v
    → parse_counted old store s buflen at ≡ read v (at + off + suc n + 1)
unfolding parse_counted
counted_read old v store s b buflen at n off e f g h = ground (arith, e, f, g, h)

pub print_bytes-append :
    (s rest : List ℕ) → print_bytes s ++ rest ≡ print_nat (length s) ++ b':' ∷ (s ++ b';' ∷ rest)
print_bytes-append s rest =
    append_assoc (print_nat (length s) ++ b':' ∷ s) (b';' ∷ []) rest
    ∙ append_assoc (print_nat (length s)) (b':' ∷ s) (b';' ∷ rest)

pub length-print_bytes :
    (s : List ℕ) → length (print_bytes s) ≡ length (print_nat (length s)) + 1 + length s + 1
length-print_bytes s = omega (
  arith,
  length-append (print_nat (length s) ++ b':' ∷ s) (b';' ∷ []),
  length-append (print_nat (length s)) (b':' ∷ s),
)

pub parse_counted-print_bytes {ℓ} :
    {A : Type ℓ} (old v : A) (store : List ℕ → Option A) (c : ℕ) (s rest : List ℕ) (buflen at : ℕ)
    → store (c ∷ s) ≡ some v
    → length (c ∷ s) < 2 ^ 32
    → at + length (print_bytes (c ∷ s)) ≤ buflen
    → parse_counted old store (print_bytes (c ∷ s) ++ rest) buflen at
      ≡ read v (at + length (print_bytes (c ∷ s)))
unfolding parse_counted
parse_counted-print_bytes old v store c s rest buflen at stored h fits =
    let n = length (c ∷ s) in
    let inner : List ℕ = (c ∷ s) ++ b';' ∷ rest in
    let split : print_bytes (c ∷ s) ++ rest ≡ print_nat n ++ b':' ∷ inner =
      print_bytes-append (c ∷ s) rest in
    let e = read_count-print_nat n inner h in
    let size = length-print_bytes (c ∷ s) in
    let found =
      counted_read old v store (print_nat n ++ b':' ∷ inner) (c ∷ s) buflen at (length s)
        (length (print_nat n) + 1) e (ground (arith, size))
        (rw (drop_behind (print_nat n) b':' inner) (read_bytes-append (c ∷ s) rest)) stored in
    rw split (found ∙ ap (read v) (omega (arith, size)))

counted_zero {ℓ} :
    {A : Type ℓ} (old : A) (store : List ℕ → Option A) (s : List ℕ) (buflen at off : ℕ)
    → read_count s b':' ≡ some (0, off)
    → parse_counted old store s buflen at ≡ read old (at + off + 1)
unfolding parse_counted
counted_zero old store s buflen at off e = rw (parse_counted, e) refl

-- Of a count of 0 nothing is stored.
pub parse_counted-empty {ℓ} :
    {A : Type ℓ} (old : A) (store : List ℕ → Option A) (rest : List ℕ) (buflen at : ℕ)
    → parse_counted old store (print_bytes [] ++ rest) buflen at
      ≡ read old (at + length (print_bytes []))
parse_counted-empty old store rest buflen at =
    let size = length-print_bytes [] in
    rw (print_bytes-append [] rest) (
      counted_zero old store (print_nat 0 ++ b':' ∷ b';' ∷ rest) buflen at
        (length (print_nat 0) + 1) (read_count-print_nat 0 (b';' ∷ rest) (omega arith))
      ∙ ap (read old) (omega (arith, size)))

-- An element that begins with the letter looked for is not skipped.
skip_none : (k t : ℕ) (s : List ℕ) (buflen : ℕ) → skip_until (suc k) t (t ∷ s) buflen 0 ≡ some 0
unfolding skip_until
skip_none k t s buflen = ground (arith, ==_refl t)

sub_none : (buflen : ℕ) → buflen < 2 ^ 32 → sub_length buflen 0 ≡ buflen
sub_none buflen h = omega arith

pub head_found {ℓ} :
    {A : Type ℓ} (k t : ℕ) (s : List ℕ) (buflen : ℕ) (body : List ℕ → ℕ → ℕ → Parsed A)
    → 0 < buflen
    → buflen < 2 ^ 32
    → parse_head (suc k) t (t ∷ b':' ∷ s) buflen body ≡ body s buflen 2
unfolding parse_head
head_found k t s buflen body h small =
    let o : ltb buflen 1 ≡ false = ground arith in
    let z = skip_none k t (b':' ∷ s) buflen in
    let e = sub_none buflen small in ground (arith, z, e, o, ==_refl t)

-- A string that is not empty, written by `serialize_string_ex`, is read back by `_serialize_parse`
-- into a pointer that was NULL, whatever follows it in the buffer: the bytes are the ones that were
-- written, and exactly what was written is consumed. `buflen` must be a `length_t` and cover what
-- was written; no element is skipped before it, so any fuel but 0 is enough.
pub _serialize_parse-serialize_string_ex :
    (junk : (f : Format) → Value f) (k c : ℕ) (s rest : List ℕ) (buflen : ℕ)
    → buflen < 2 ^ 32
    → length (serialize_string_ex string (some (c ∷ s))) ≤ buflen
    → _serialize_parse junk
        (suc k)
        string
        none
        (serialize_string_ex string (some (c ∷ s)) ++ rest)
        buflen
      ≡ read (some (c ∷ s)) (length (serialize_string_ex string (some (c ∷ s))))
unfolding _serialize_parse serialize_string_ex
_serialize_parse-serialize_string_ex junk k c s rest buflen small fits =
    head_found k b's' (print_bytes (c ∷ s) ++ rest) buflen (parse_counted none (store_string none))
      (omega (arith, fits)) small
    ∙ parse_counted-print_bytes none (some (c ∷ s)) (store_string none) c s rest buflen 2 refl
        (omega (arith, fits, length-print_bytes (c ∷ s))) (omega (arith, fits))
    ∙ ap (read (some (c ∷ s))) (omega arith)
