-- ===== src/Serialize/Keys.antt =====
-- The key of a field of an object that is written is read back, and the field's value is read next.
use rt_csp.Base.{
  ℕ, zero, suc, none, some, ◌+◌, ◌-◌, ◌^◌, ◌<◌, ◌≤◌, ◌≡◌, refl, ap, sym, ◌∙◌, Bool, true, false,
  ◌||◌, not, List, [], ◌∷◌, ◌++◌, ◌==◌, ltb, leb, if◌then◌else◌, append_assoc, length,
  length-append, drop, take, take-append, char_at, arith, IsText,
}
use rt_csp.Serialize.{print_key}
use rt_csp.Serialize.Number.{print_nat, strtoul, to_length, sub_length}
use rt_csp.Serialize.Digits.{strtoul-print_nat}
use rt_csp.Serialize.Skip.{_serialize_parse_force}
use rt_csp.Serialize.Elements.{Parsed, read, invalid, starved, on_read, until_nul, parse_object}
use rt_csp.Serialize.Strings.{until_nul-IsText, drop_behind, char_at-append}

-- A key that `_serialize_parse_object` can hold: a C string of 1 to 100 bytes.
abbrev pub IsKey : List ℕ → Type 0
IsKey key = IsText key × (1 ≤ length key) × (length key ≤ 100)

module _ {ℓ} {A : Type ℓ} (known : List ℕ → Bool) (parse : List ℕ → A → List ℕ → ℕ → Parsed A) where
  -- `parse_object` behind the key.
  keyed_rest : ℕ → A → List ℕ → List ℕ → ℕ → ℕ → Parsed A
  keyed_rest k row key rest left done = elim (known key) [
    | false ↦ elim (_serialize_parse_force k rest left) [
      | none ↦ starved
      | some zero ↦ invalid
      | some (suc m) ↦
          parse_object known parse k row (drop (suc m) rest) (sub_length left (suc m))
            (done + suc m)
    ]
    | true ↦ elim (parse key row rest left) [
      | starved ↦ starved
      | invalid ↦ invalid
      | read row' m ↦ parse_object known parse k row' (drop m rest) (sub_length left m) (done + m)
    ]
  ]

  -- `parse_object` behind the call of `strtoul`.
  abbrev keyed : ℕ → A → List ℕ → ℕ → ℕ → ℕ → ℕ → Parsed A
  keyed k row buffer buflen done l len =
      let at = 2 + l + 1 + len in
      if (len == 0) || leb 101 len || leb buflen at || not (char_at buffer at == b';')
      then invalid
      else keyed_rest k row (until_nul (take len (drop (3 + l) buffer))) (drop (at + 1) buffer)
          (sub_length buflen (at + 1)) (done + (at + 1))

  object_keyed :
      (k : ℕ) (row : A) (t : List ℕ) (buflen done : ℕ) (r : ℕ × ℕ)
      → ltb 2 buflen ≡ true
      → strtoul t ≡ r
      → parse_object known parse (suc k) row (b's' ∷ b':' ∷ t) buflen done
        ≡ keyed k row (b's' ∷ b':' ∷ t) buflen done r.1 (to_length r.0)
  unfolding parse_object keyed_rest
  object_keyed k row t buflen done r more e =
      rw (more, parse_object)
        (ap (λ z. keyed k row (b's' ∷ b':' ∷ t) buflen done z.1 (to_length z.0)) e)

  -- The end of an object: anything but the letter of a string.
  pub parse_object-end :
      (k : ℕ) (row : A) (c : ℕ) (rest : List ℕ) (buflen done : ℕ)
      → (c == b's') ≡ false
      → parse_object known parse (suc k) row (c ∷ rest) buflen done ≡ read row done
  unfolding parse_object
  parse_object-end k row c rest buflen done e = ground (arith, e)

  -- What follows the key that was read.
  abbrev pub on_field : ℕ → List ℕ → ℕ → ℕ → Parsed A → Parsed A
  on_field k rest left done r =
      on_read r
        λ row' m. parse_object known parse k row' (drop m rest) (sub_length left m) (done + m)

  field_cases :
      (k : ℕ) (rest : List ℕ) (left done : ℕ) (r : Parsed A)
      → elim r as (λ _. Parsed A) [
        | starved ↦ starved
        | invalid ↦ invalid
        | read row' m ↦ parse_object known parse k row' (drop m rest) (sub_length left m) (done + m)
      ]
        ≡ on_field k rest left done r
  field_cases k rest left done (read v m) = refl
  field_cases k rest left done invalid = refl
  field_cases k rest left done starved = refl

  rest_known :
      (k : ℕ) (row : A) (key rest : List ℕ) (left done : ℕ)
      → known key ≡ true
      → keyed_rest k row key rest left done ≡ on_field k rest left done (parse key row rest left)
  unfolding keyed_rest
  rest_known k row key rest left done kn =
      rw (kn, keyed_rest) (field_cases k rest left done (parse key row rest left))

  keyed-known :
      (k : ℕ) (row : A) (buffer rest key : List ℕ) (buflen done n l : ℕ)
      → known key ≡ true
      → buflen < 2 ^ 32
      → 1 ≤ n
      → n ≤ 100
      → 2 + l + 1 + n < buflen
      → char_at buffer (2 + l + 1 + n) ≡ b';'
      → until_nul (take n (drop (3 + l) buffer)) ≡ key
      → drop (2 + l + 1 + n + 1) buffer ≡ rest
      → keyed k row buffer buflen done l n
        ≡ on_field k rest
            (buflen - (2 + l + 1 + n + 1))
            (done + (2 + l + 1 + n + 1))
            (parse key row rest (buflen - (2 + l + 1 + n + 1)))
  keyed-known k row buffer rest key buflen done n l kn small some_there short fits mark text
        behind =
      let a : (n == 0) ≡ false = ground arith in
      let b : leb 101 n ≡ false = ground arith in
      let c : leb buflen (2 + l + 1 + n) ≡ false = ground arith in
      let left : sub_length buflen (2 + l + 1 + n + 1) ≡ buflen - (2 + l + 1 + n + 1) =
        omega arith in
      rw (a, b, c, mark, text, behind, left)
        (rest_known k row key rest (buflen - (2 + l + 1 + n + 1)) (done + (2 + l + 1 + n + 1)) kn)

  -- A key as `serialize_string_object_ex` writes it.
  pub parse_object-print_key :
      (k : ℕ) (row : A) (key tail : List ℕ) (buflen done : ℕ)
      → known key ≡ true
      → IsKey key
      → buflen < 2 ^ 32
      → length (print_key false key) ≤ buflen
      → parse_object known parse (suc k) row (print_key false key ++ tail) buflen done
        ≡ on_field k tail
            (buflen - length (print_key false key))
            (done + length (print_key false key))
            (parse key row tail (buflen - length (print_key false key)))
  parse_object-print_key k row key tail buflen done kn good small fits =
      let n = length key in
      let l = length (print_nat n) in
      let opened : List ℕ = b's' ∷ b':' ∷ print_nat n ++ b':' ∷ key in
      let size : length opened ≡ 2 + l + 1 + n =
        omega (arith, length-append (print_nat n) (b':' ∷ key)) in
      let total : length (print_key false key) ≡ 2 + l + 1 + n + 1 =
        omega (arith, size, length-append opened (b';' ∷ [])) in
      let split : print_key false key ++ tail ≡ opened ++ b';' ∷ tail =
        append_assoc opened (b';' ∷ []) tail in
      let inner : opened ++ b';' ∷ tail
          ≡ b's' ∷ b':' ∷ (print_nat n ++ b':' ∷ (key ++ b';' ∷ tail)) =
        ap (λ t. b's' ∷ b':' ∷ t) (append_assoc (print_nat n) (b':' ∷ key) (b';' ∷ tail)) in
      let len : to_length n ≡ n = omega arith in
      let e = strtoul-print_nat n b':' (key ++ b';' ∷ tail) (omega arith) refl in
      let mark : char_at (opened ++ b';' ∷ tail) (2 + l + 1 + n) ≡ b';' =
        rw (← size) (char_at-append opened b';' tail) in
      let behind : drop (2 + l + 1 + n + 1) (opened ++ b';' ∷ tail) ≡ tail =
        rw (← size) (drop_behind opened b';' tail) in
      let past : drop (3 + l) (opened ++ b';' ∷ tail) ≡ key ++ b';' ∷ tail =
        let three : 3 + l ≡ suc (suc (l + 1)) = omega arith in
        rw (inner, three) (drop_behind (print_nat n) b':' (key ++ b';' ∷ tail)) in
      let text : until_nul (take n (drop (3 + l) (opened ++ b';' ∷ tail))) ≡ key =
        ap (λ t. until_nul (take n t)) past
        ∙ ap until_nul (take-append key (b';' ∷ tail))
        ∙ until_nul-IsText key good.0 in
      rw (split, total)
        (ap (λ t. parse_object known parse (suc k) row t buflen done) inner
          ∙ object_keyed k row (print_nat n ++ b':' ∷ (key ++ b';' ∷ tail)) buflen done (n, l)
              (ground (arith, total, fits)) e
          ∙ ap (λ t. keyed k row t buflen done l (to_length n)) (sym inner)
          ∙ ap (keyed k row (opened ++ b';' ∷ tail) buflen done l) len
          ∙ keyed-known k row (opened ++ b';' ∷ tail) tail key buflen done n l kn small good.1
              good.2 (omega (arith, total, fits)) mark text behind)
