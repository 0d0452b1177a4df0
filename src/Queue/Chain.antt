-- ===== src/Queue/Chain.antt =====
-- Chains of items: the cells that a queue links, each an address and its payload.
use rt_csp.Base.{
  ℕ, ◌≡◌, refl, ◌≢◌, ◌∙◌, Bool, true, false, ◌||◌, Option, none, some, List, [], ◌∷◌, ◌++◌, arith,
  ◌==◌, map,
}
use rt_csp.Queue.{Ptr, Item, item, Heap, write}

abbrev pub Cells : Type 0
Cells = List (Ptr × ℕ)

abbrev pub has : Ptr → Cells → Bool
has q [] = false
has q ((r, e) ∷ cells) = (q == r) || has q cells

abbrev pub first : Cells → Ptr
first [] = 0
first ((p, d) ∷ xs) = p

-- The last cell's address, or 0.
abbrev pub last : Cells → Ptr
last [] = 0
last ((p, d) ∷ []) = p
last ((p, d) ∷ x ∷ xs) = last (x ∷ xs)

abbrev pub last_payload : Cells → ℕ
last_payload [] = 0
last_payload ((p, d) ∷ []) = d
last_payload ((p, d) ∷ x ∷ xs) = last_payload (x ∷ xs)

abbrev pub payloads : Cells → List ℕ
payloads = map λ c. c.1

-- The cells are allocated, distinct, and linked in order; the last one points to NULL.
abbrev pub Chain : Heap → Cells → Type 0
Chain h [] = Unit {0}
Chain h ((p, d) ∷ xs) = (p ≢ 0) × (has p xs ≡ false) × (h p ≡ some (item d (first xs))) × Chain h xs

-- A chain survives any change that spares its own addresses.
pub Chain-frame :
    {h g : Heap} (xs : Cells) → Chain h xs → ((a : Ptr) → has a xs ≡ true → g a ≡ h a) → Chain g xs
Chain-frame [] c same = tt
Chain-frame ((p, d) ∷ xs) c same =
    (c.0, c.1, ground (arith, same p), Chain-frame xs c.3 λ a i. same a (ground arith))

pub has-first : (p : Ptr) (d : ℕ) (xs : Cells) → has p ((p, d) ∷ xs) ≡ true
has-first p d xs = ground arith

pub has-last : (c : Ptr × ℕ) (xs : Cells) → has (last (c ∷ xs)) (c ∷ xs) ≡ true
has-last (p, d) [] = ground arith
has-last (p, d) (c ∷ xs) = ground (arith, has-last c xs)

-- An address that holds no item is in no chain.
pub not_has_of_none : (h : Heap) (a : Ptr) (xs : Cells) → Chain h xs → h a ≡ none → has a xs ≡ false
not_has_of_none h a [] c e = refl
not_has_of_none h a ((p, d) ∷ xs) c e = ground (arith, not_has_of_none h a xs c.3 e)

pub last-item :
    (h : Heap) (c : Ptr × ℕ) (xs : Cells)
    → Chain h (c ∷ xs)
    → (last (c ∷ xs) ≢ 0) × (h (last (c ∷ xs)) ≡ some (item (last_payload (c ∷ xs)) 0))
last-item h (p, d) [] k = (k.0, k.2)
last-item h (p, d) (c ∷ xs) k = last-item h c xs k.3

has-append : (a p : Ptr) (d : ℕ) (xs : Cells) → has a (xs ++ (p, d) ∷ []) ≡ (has a xs || (a == p))
has-append a p d [] = ground arith
has-append a p d ((q, e) ∷ xs) = ground (arith, has-append a p d xs)

-- The heap after `queue_push` has written the new item and linked it behind the last one.
abbrev pub linked : Heap → Ptr → ℕ → Cells → Heap
linked h p d xs = write (write h p (some (item d 0))) (last xs) (some (item (last_payload xs) p))

pub write_self : (h : Heap) (p : Ptr) (c : Option Item) → write h p c p ≡ c
unfolding write
write_self h p c = ground arith

pub write_other : (h : Heap) (p a : Ptr) (c : Option Item) → (a == p) ≡ false → write h p c a ≡ h a
unfolding write
write_other h p a c ne = rw ne

-- Two addresses that hold different things differ.
pub apart : (h : Heap) (a p : Ptr) (i : Item) → h a ≡ some i → h p ≡ none → (a == p) ≡ false
apart h a p i e n = ground arith

pub apart-last :
    (q : Ptr) (c : Ptr × ℕ) (xs : Cells) → has q (c ∷ xs) ≡ false → (q == last (c ∷ xs)) ≡ false
apart-last q c xs out = ground (arith, has-last c xs)

pub linked_other :
    (h : Heap) (p a : Ptr) (d : ℕ) (xs : Cells)
    → (a == p) ≡ false
    → (a == last xs) ≡ false
    → linked h p d xs a ≡ h a
linked_other h p a d xs ne out = write_other _ (last xs) a _ out ∙ write_other h p a _ ne

linked_new :
    (h : Heap) (p : Ptr) (d : ℕ) (xs : Cells)
    → (p == last xs) ≡ false
    → linked h p d xs p ≡ some (item d 0)
linked_new h p d xs out = write_other _ (last xs) p _ out ∙ write_self h p _

pub sym_false : (a b : ℕ) → (a == b) ≡ false → (b == a) ≡ false
sym_false a b e = ground arith

pub Chain-linked :
    (h : Heap) (p : Ptr) (d : ℕ) (c : Ptr × ℕ) (xs : Cells)
    → p ≢ 0
    → h p ≡ none
    → Chain h (c ∷ xs)
    → Chain (linked h p d (c ∷ xs)) ((c ∷ xs) ++ (p, d) ∷ [])
Chain-linked h p d (q, e) [] ne fresh k =
    let new = apart h q p (item e 0) k.2 fresh in
    (
      k.0,
      rw new,
      write_self _ q _,
      (ne, refl, linked_new h p d ((q, e) ∷ []) (sym_false q p new), tt),
    )
Chain-linked h p d (q, e) ((r, f) ∷ xs) ne fresh k =
    let new = apart h q p (item e r) k.2 fresh in
    (
      k.0,
      rw (has-append q p d ((r, f) ∷ xs), k.1, new),
      linked_other h p q d ((r, f) ∷ xs) new (apart-last q (r, f) xs k.1) ∙ k.2,
      Chain-linked h p d (r, f) xs ne fresh k.3,
    )
