-- ===== src/Serialize/Objects.antt =====
-- An object that is written is read back, when each of its fields is.
use rt_csp.Base.{
  ℕ, zero, suc, ◌+◌, ◌-◌, ◌^◌, ◌<◌, ◌≤◌, ◌≡◌, refl, ap, ◌∙◌, Bool, true, false, if◌then◌else◌, List,
  [], ◌∷◌, ◌++◌, append_assoc, length, length-append, drop-append, arith, str_eq, str_eq_refl,
  is_text, is_text-IsText, leb, not, ◌&&◌,
}
use rt_csp.Serialize.{
  Format, Formats, end, field, object, Value, Row, print_key, serialize_string_ex,
  serialize_string_object_ex,
}
use rt_csp.Serialize.Number.{sub_length}
use rt_csp.Serialize.Elements.{Parsed, read, invalid, starved, on_read, has_key, parse_object}
use rt_csp.Serialize.Parse.{
  blank, blank_fields, parse_field, parse_open, some_read, finish_object, _serialize_parse,
}
use rt_csp.Serialize.Strings.{head_found}
use rt_csp.Serialize.Arrays.{RoundTrips}
use rt_csp.Serialize.Keys.{IsKey, on_field, parse_object-print_key, parse_object-end}

-- The keys are such as the reader can hold, and no two are the same.
abbrev pub AreKeys : Formats → Type 0
AreKeys end = Unit {0}
AreKeys (field k f fs) = IsKey k × (has_key k fs ≡ false) × AreKeys fs

-- The test of that.
abbrev are_keys : Formats → Bool
are_keys end = true
are_keys (field k f fs) =
    (is_text k && (leb 1 (length k) && leb (length k) 100)) && (not (has_key k fs) && are_keys fs)

pub are_keys-AreKeys : (fs : Formats) → are_keys fs ≡ true → AreKeys fs
are_keys-AreKeys end e = tt
are_keys-AreKeys (field k f fs) e = (
  (is_text-IsText k (ground (arith, e)), ground (arith, e), ground (arith, e)),
  ground (arith, e),
  are_keys-AreKeys fs (ground (arith, e)),
)

abbrev pub count_fields : Formats → ℕ
count_fields end = 0
count_fields (field k f fs) = suc (count_fields fs)

-- The values of a row, one by one.
abbrev pub AllFields : ((f : Format) → Value f → Type 0) → (fs : Formats) → Row fs → Type 0
AllFields P end r = Unit {0}
AllFields P (field k f fs) r = P f r.0 × AllFields P fs r.1

on_read_assoc :
    {A B C : Type 0} (r : Parsed A) (f : A → ℕ → B) (g : B → ℕ → C)
    → on_read (on_read r (λ a n. read (f a n) n)) (λ b n. read (g b n) n)
      ≡ on_read r (λ a n. read (g (f a n) n) n)
on_read_assoc (read a n) f g = refl
on_read_assoc invalid f g = refl
on_read_assoc starved f g = refl

module _ (junk : (f : Format) → Value f) (fuel : ℕ) where
  -- `put` puts the values of the formats `gs` in a whole: their keys are known in it, and a value that
  -- is read for one of them goes to its place.
  abbrev Fills :
      {A : Type 0}
      → (List ℕ → Bool)
      → (List ℕ → A → List ℕ → ℕ → Parsed A)
      → (gs : Formats) → (Row gs → A)
      → Type 0
  Fills known parse end put = Unit {0}
  Fills known parse (field k f gs) put =
      (known k ≡ true)
      × ((v : Value f) (r : Row gs) (s : List ℕ) (l : ℕ)
          → parse k (put (v, r)) s l
            ≡ on_read (_serialize_parse junk fuel f v s l) (λ w n. read (put (w, r)) n))
      × ((v : Value f) → Fills known parse gs (λ r. put (v, r)))

  behind-Fills :
      {A V : Type 0} (known known' : List ℕ → Bool) (parse : List ℕ → A → List ℕ → ℕ → Parsed A)
      (parse' : List ℕ → V × A → List ℕ → ℕ → Parsed (V × A))
      → ((key : List ℕ) → known key ≡ true → known' key ≡ true)
      → ((key : List ℕ) (v : V) (a : A) (s : List ℕ) (l : ℕ)
          → known key ≡ true
          → parse' key (v, a) s l ≡ on_read (parse key a s l) (λ b n. read (v, b) n))
      → (gs : Formats) (put : Row gs → A) (v : V) → Fills known parse gs put
      → Fills known' parse' gs (λ r. (v, put r))
  behind-Fills known known' parse parse' keeps goes end put v h = tt
  behind-Fills known known' parse parse' keeps goes (field k f gs) put v h = (
    keeps k h.0,
    λ w r s l.
        goes k v (put (w, r)) s l h.0
        ∙ ap (λ q. on_read q (λ b n. read (v, b) n)) (h.1 w r s l)
        ∙ on_read_assoc (_serialize_parse junk fuel f w s l) (λ u n. put (u, r)) (λ b n. (v, b)),
    λ w. behind-Fills known known' parse parse' keeps goes gs (λ r. put (w, r)) v (h.2 w),
  )

  -- Where a key leads: behind the first field, to it, or nowhere.
  abbrev leads :
      (k : List ℕ) (f : Format) (fs : Formats)
      → Bool
      → Bool
      → List ℕ
      → Row (field k f fs)
      → List ℕ
      → ℕ
      → Parsed (Row (field k f fs))
  leads k f fs later own key row s l = elim later [
    | true ↦ on_read (parse_field junk fuel fs key row.1 s l) (λ r n. read (row.0, r) n)
    | false ↦
        if own
        then on_read (_serialize_parse junk fuel f row.0 s l) (λ v n. read (v, row.1) n)
        else invalid
  ]

  parse_field-leads :
      (k : List ℕ) (f : Format) (fs : Formats) (later own : Bool) (key : List ℕ)
      (row : Row (field k f fs)) (s : List ℕ) (l : ℕ)
      → has_key key fs ≡ later
      → str_eq k key ≡ own
      → parse_field junk fuel (field k f fs) key row s l ≡ leads k f fs later own key row s l
  unfolding _serialize_parse
  parse_field-leads k f fs later own key row s l e d =
      let step : parse_field junk fuel (field k f fs) key row s l
          ≡ leads k f fs (has_key key fs) (str_eq k key) key row s l =
        refl in
      step ∙ rw (e, d) refl

  fields-Fills :
      (fs : Formats)
      → AreKeys fs
      → Fills (λ key. has_key key fs) (parse_field junk fuel fs) fs (λ r. r)
  fields-Fills end h = tt
  fields-Fills (field k f fs) h = (
    rw (str_eq_refl k) refl,
    λ v r s l. parse_field-leads k f fs false true k (v, r) s l h.1 (str_eq_refl k),
    λ v.
        behind-Fills (λ key. has_key key fs) (λ key. has_key key (field k f fs))
          (parse_field junk fuel fs) (parse_field junk fuel (field k f fs))
          (λ key e. ground (arith, e))
          (λ key w a s l e. parse_field-leads k f fs true _ key (w, a) s l e refl) fs (λ r. r) v
          (fields-Fills fs h.2),
  )

module _ (junk : (f : Format) → Value f) (fuel : ℕ) where
  row_read :
      {A : Type 0} (known : List ℕ → Bool) (parse : List ℕ → A → List ℕ → ℕ → Parsed A)
      (gs : Formats) (put : Row gs → A) (r : Row gs) (k : ℕ) (rest : List ℕ) (buflen done : ℕ)
      → Fills junk (suc fuel) known parse gs put
      → AreKeys gs
      → AllFields (RoundTrips junk fuel) gs r
      → count_fields gs ≤ k
      → buflen < 2 ^ 32
      → length (serialize_string_object_ex gs r) ≤ buflen
      → parse_object known parse
          (suc k)
          (put (blank_fields gs))
          (serialize_string_object_ex gs r ++ b'}' ∷ rest)
          buflen
          done
        ≡ read (put r) (done + length (serialize_string_object_ex gs r))
  unfolding serialize_string_object_ex blank
  row_read known parse end put r k rest buflen done fills keys trips few small fits =
      parse_object-end known parse k (put tt) b'}' rest buflen done refl
      ∙ ap (read (put tt)) (omega arith)
  row_read known parse (field key f gs) put r zero rest buflen done fills keys trips few small
        fits =
      absurd (omega arith)
  row_read known parse (field key f gs) put r (suc k) rest buflen done fills keys trips few small
        fits =
      let h = print_key false key in
      let w = serialize_string_ex f r.0 in
      let ws = serialize_string_object_ex gs r.1 in
      let tail : List ℕ = w ++ (ws ++ b'}' ∷ rest) in
      let text : (h ++ w ++ ws) ++ b'}' ∷ rest ≡ h ++ tail =
        append_assoc (h ++ w) ws (b'}' ∷ rest) ∙ append_assoc h w (ws ++ b'}' ∷ rest) in
      let size : length (h ++ w ++ ws) ≡ length h + length w + length ws =
        omega (arith, length-append (h ++ w) ws, length-append h w) in
      let room : length h + length w + length ws ≤ buflen = omega (arith, size, fits) in
      let value =
        fills.1 (blank f) (blank_fields gs) tail (buflen - length h)
        ∙ ap (λ q. on_read q (λ v n. read (put (v, blank_fields gs)) n))
            (trips.0 (ws ++ b'}' ∷ rest) (buflen - length h) (omega arith) (omega (arith, room))) in
      let left : sub_length (buflen - length h) (length w) ≡ buflen - length h - length w =
        omega (arith, room) in
      let next : on_field known parse (suc k) tail (buflen - length h) (done + length h)
            (read (put (r.0, blank_fields gs)) (length w))
          ≡ read (put r) (done + length h + length w + length ws) =
        rw (drop-append w (ws ++ b'}' ∷ rest), left)
          (row_read known parse gs (λ x. put (r.0, x)) r.1 k rest (buflen - length h - length w)
            (done + length h + length w) (fills.2 r.0) keys.2 trips.1 (omega (arith, few))
            (omega arith) (omega (arith, room))) in
      ap
        (λ t.
          parse_object known parse (suc (suc k)) (put (blank_fields (field key f gs))) t buflen
            done)
        text
      ∙ parse_object-print_key known parse (suc k) (put (blank_fields (field key f gs))) key tail
          buflen done fills.0 keys.0 small (omega (arith, room))
      ∙ ap (on_field known parse (suc k) tail (buflen - length h) (done + length h)) value
      ∙ next
      ∙ ap (read (put r)) (omega (arith, size))

  read_some {ℓ} : {A : Type ℓ} (v : A) (n : ℕ) → 1 ≤ n → some_read (read v n) ≡ read v n
  read_some v zero h = absurd (omega arith)
  read_some v (suc n) h = refl

  object_body :
      (fs : Formats) (r : Row fs) (rest : List ℕ) (buflen : ℕ)
      → AreKeys fs
      → AllFields (RoundTrips junk fuel) fs r
      → 1 ≤ length (serialize_string_object_ex fs r)
      → count_fields fs ≤ fuel
      → buflen < 2 ^ 32
      → length (serialize_string_object_ex fs r) ≤ buflen
      → parse_open b'{'
          (λ s n. some_read (
            parse_object
              (λ key. has_key key fs)
              (parse_field junk (suc fuel) fs)
              (suc fuel)
              (blank_fields fs)
              s
              n
              0))
          finish_object
          (b'{' ∷ (serialize_string_object_ex fs r ++ b'}' ∷ rest))
          buflen
          2
        ≡ read r (length (serialize_string_object_ex fs r) + 4)
  unfolding parse_open
  object_body fs r rest buflen keys trips some_there few small fits =
      let w = serialize_string_object_ex fs r in
      let whole =
        row_read (λ key. has_key key fs) (parse_field junk (suc fuel) fs) fs (λ x. x) r fuel rest
          buflen 0 (fields-Fills junk (suc fuel) fs keys) keys trips few small fits in
      let got = ap some_read whole ∙ read_some r (0 + length w) (omega (arith, some_there)) in
      let n : 0 + 1 + (0 + length w) ≡ suc (length w) = omega arith in
      rw (parse_open, got) (rw (n, drop-append w (b'}' ∷ rest)) (ap (read r) (omega arith)))

  pub object-RoundTrips :
      (k : List ℕ) (f : Format) (fs : Formats) (r : Row (field k f fs))
      → AreKeys (field k f fs)
      → AllFields (RoundTrips junk fuel) (field k f fs) r
      → count_fields (field k f fs) ≤ fuel
      → RoundTrips junk fuel (object (field k f fs)) r
  unfolding _serialize_parse serialize_string_ex blank
  object-RoundTrips k f fs r keys trips few rest buflen small fits =
      let w = serialize_string_object_ex (field k f fs) r in
      let size = length-append w (b'}' ∷ []) in
      head_found fuel b'o' (b'{' ∷ ((w ++ b'}' ∷ []) ++ rest)) buflen
        (parse_open b'{'
          (λ s n. some_read (
            parse_object (λ key. has_key key (field k f fs))
              (parse_field junk (suc fuel) (field k f fs)) (suc fuel) (blank_fields (field k f fs))
              s n 0))
          finish_object)
        (omega (arith, fits, size)) small
      ∙ ap
          (λ t.
            parse_open b'{'
              (λ s n. some_read (
                parse_object (λ key. has_key key (field k f fs))
                  (parse_field junk (suc fuel) (field k f fs)) (suc fuel)
                  (blank_fields (field k f fs)) s n 0))
              finish_object (b'{' ∷ t) buflen 2)
          (append_assoc w (b'}' ∷ []) rest)
      ∙ object_body (field k f fs) r rest buflen keys trips (omega arith) few small
          (omega (arith, fits, size))
      ∙ ap (read r) (omega (arith, size))
