-- ===== src/Serialize/Tables.antt =====
-- Hash tables with string keys.
use rt_csp.Base.{
  ℕ, ◌≡◌, ◌||◌, not, Option, none, some, List, [], ◌∷◌, ◌==◌, ltb, if_cases, drop, char_at,
}
use rt_csp.Serialize.Number.{sub_length}
use rt_csp.Serialize.Elements.{Parsed, read, invalid, starved, on_read, skip_until, parse_head}

-- What is read, if anything is, satisfies `P`.
abbrev pub Reads {ℓ} : {A : Type ℓ} → (A → Type 0) → Parsed A → Type 0
Reads P (read v n) = P v
Reads P invalid = Unit {0}
Reads P starved = Unit {0}

skipped-Reads {ℓ} :
    {A : Type ℓ} (P : A → Type 0) (o : Option ℕ) (f : ℕ → Parsed A)
    → ((n : ℕ) → Reads P (f n))
    → Reads P (elim o [ none ↦ starved | some n ↦ f n ])
skipped-Reads P none f h = tt
skipped-Reads P (some n) f h = h n

pub parse_head-Reads {ℓ} :
    {A : Type ℓ} (P : A → Type 0) (fuel t : ℕ) (buffer : List ℕ) (buflen : ℕ)
    (body : List ℕ → ℕ → ℕ → Parsed A)
    → ((s : List ℕ) (l at : ℕ) → Reads P (body s l at))
    → Reads P (parse_head fuel t buffer buflen body)
unfolding parse_head
parse_head-Reads P fuel t buffer buflen body h =
    skipped-Reads P (skip_until fuel t buffer buflen 0) _ λ skipped.
      if_cases (Reads P)
        (ltb (sub_length buflen skipped) 1
          || not (char_at (drop skipped buffer) 0 == t)
          || not (char_at (drop skipped buffer) 1 == b':'))
        _ _ (λ _. tt) (λ _. h _ _ _)

pub on_read-Reads {ℓ κ} :
    {A : Type ℓ} {B : Type κ} (P : A → Type 0) (Q : B → Type 0) (r : Parsed A)
    (f : A → ℕ → Parsed B)
    → Reads P r
    → ((v : A) (n : ℕ) → P v → Reads Q (f v n))
    → Reads Q (on_read r f)
on_read-Reads P Q (read v n) f h g = g v n h
on_read-Reads P Q invalid f h g = tt
on_read-Reads P Q starved f h g = tt

pub anything {ℓ} : {A : Type ℓ} (r : Parsed A) → Reads (λ _. Unit {0}) r
anything (read v n) = tt
anything invalid = tt
anything starved = tt

-- The key of an entry is the one that was read before, if one was.
abbrev IsKept : Option (List ℕ) → List ℕ × Option (List ℕ) → Type 0
IsKept none r = r.1 ≡ some r.0
IsKept (some k) r = (r.0 ≡ k) × (r.1 ≡ some k)

-- The table between two entries: empty, or with the one entry whose key is in `hkey.key`.
abbrev IsSingle {ℓ} : {A : Type ℓ} → List (List ℕ × A) → Option (List ℕ) → Type 0
IsSingle [] hkey = hkey ≡ none
IsSingle ((k, v) ∷ []) hkey = hkey ≡ some k
IsSingle (e ∷ e' ∷ m) hkey = ⊥
