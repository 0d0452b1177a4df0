-- ===== src/Queue/Refine.antt =====
-- queue.c implements a first-in first-out queue: each operation, run on a heap where the queue
-- stands for a list of cells, ends without a fault on one where it stands for the expected list.
use rt_csp.Base.{
  ℕ, zero, suc, ◌<◌, ◌≡◌, refl, sym, ◌∙◌, ◌≢◌, false, Option, none, some, List, [], ◌∷◌, ◌++◌,
  arith, ◌==◌, if◌then◌else◌, length, append-nil, append_assoc,
}
use rt_csp.Queue.{
  Ptr, Item, item, Heap, Queue, queue, write, queue_init, queue_push, queue_pop, free_loop,
  queue_free_ex,
}
use rt_csp.Queue.Chain.{
  Cells, has, first, last, payloads, Chain, Chain-frame, Chain-linked, last-item, write_self,
  write_other, apart, apart-last, linked_other, linked,
}

pub record IsQueue (h : Heap) (q : Queue) (xs : Cells) : Type 0 where
  pub starts : q.head ≡ first xs
  pub ends : q.tail ≡ last xs
  pub chain : Chain h xs

pub queue_init-IsQueue : (h : Heap) → IsQueue h queue_init []
unfolding queue_init
queue_init-IsQueue h = record { starts = refl; ends = refl; chain = tt }

-- `g` differs from `h` at most at the queue's own cells.
abbrev pub SameOutside : Cells → Heap → Heap → Type 0
SameOutside xs h g = (a : Ptr) → has a xs ≡ false → g a ≡ h a

-- A run that ends without a fault, in a state that `P` describes.
abbrev pub Ends {ℓ} : {A : Type ℓ} → (A → Type 0) → Option A → Type 0
Ends P none = ⊥
Ends P (some r) = P r

abbrev pub Pushed : Heap → Cells → Ptr × ℕ → Heap × Queue → Type 0
Pushed h xs c (g, q) = IsQueue g q (xs ++ c ∷ []) × SameOutside (c ∷ xs) h g

last-append : (p : Ptr) (d : ℕ) (xs : Cells) → last (xs ++ (p, d) ∷ []) ≡ p
last-append p d [] = refl
last-append p d (x ∷ []) = refl
last-append p d (x ∷ y ∷ xs) = last-append p d (y ∷ xs)

ne_test : (a b : ℕ) → a ≢ b → (a == b) ≡ false
ne_test a b h = ground arith

linked-SameOutside :
    (h : Heap) (p : Ptr) (d : ℕ) (c : Ptr × ℕ) (xs : Cells)
    → SameOutside ((p, d) ∷ c ∷ xs) h (linked h p d (c ∷ xs))
linked-SameOutside h p d c xs a out =
    linked_other h p a d (c ∷ xs) (ground arith) (apart-last a c xs (ground arith))

abbrev over : Cells → Queue
over xs = queue (first xs) (last xs)

queue-over : (h : Heap) (q : Queue) (xs : Cells) → IsQueue h q xs → q ≡ over xs
queue-over h q xs is = λ i. queue (is.starts i) (is.ends i)

push-Pushed :
    (h : Heap) (p : Ptr) (d : ℕ) (xs : Cells)
    → Chain h xs
    → p ≢ 0
    → h p ≡ none
    → Ends (Pushed h xs (p, d)) (queue_push p h (over xs) d)
unfolding queue_push
push-Pushed h p d [] k ne fresh = (
  record { starts = refl; ends = refl; chain = (ne, refl, write_self h p _, tt) },
  λ a out. write_other h p a _ (ground arith),
)
push-Pushed h p d (c ∷ xs) k ne fresh =
    let old = last-item h c xs k in
    rw (ne_test _ _ old.0, write_other h p _ (some (item d 0)) (apart h _ p _ old.1 fresh), old.1)
      (
        record {
          starts = refl;
          ends = sym (last-append p d (c ∷ xs));
          chain = Chain-linked h p d c xs ne fresh k;
        },
        linked-SameOutside h p d c xs,
      )

-- `queue_push` on a queue in the heap, with an unused address from `malloc`, never faults, puts one
-- cell with the payload behind all others, and changes no address but that cell's and the queue's
-- own cells'.
pub queue_push-Pushed :
    (h : Heap) (q : Queue) (xs : Cells) (p : Ptr) (d : ℕ)
    → IsQueue h q xs
    → p ≢ 0
    → h p ≡ none
    → Ends (Pushed h xs (p, d)) (queue_push p h q d)
queue_push-Pushed h q xs p d is ne fresh =
    rw (queue-over h q xs is) (push-Pushed h p d xs is.chain ne fresh)

abbrev pub first_payload : Cells → ℕ
first_payload [] = 0
first_payload ((p, d) ∷ xs) = d

abbrev pub others : Cells → Cells
others [] = []
others (c ∷ xs) = xs

-- The first cell is gone and its address is released.
-- The heap without the first cell's item.
abbrev pub freed_first : Cells → Heap → Heap
freed_first [] h a = h a
freed_first ((p, d) ∷ xs) h a = if a == p then none else h a

abbrev pub Popped : Heap → Cells → Heap × Queue × ℕ → Type 0
Popped h xs (g, q, d) =
    (d ≡ first_payload xs) × IsQueue g q (others xs) × ((a : Ptr) → g a ≡ freed_first xs h a)

pop-Popped : (h : Heap) (xs : Cells) → Chain h xs → Ends (Popped h xs) (queue_pop h (over xs))
unfolding queue_pop write
pop-Popped h [] k = (refl, record { starts = refl; ends = refl; chain = tt }, λ a. ground arith)
pop-Popped h ((p, d) ∷ []) k =
    rw (ne_test _ _ k.0, k.2) (refl, record { starts = refl; ends = refl; chain = tt }, λ a. refl)
pop-Popped h ((p, d) ∷ (r, e) ∷ xs) k =
    rw (ne_test _ _ k.0, k.2, ne_test _ _ (k.3).0)
      (
        refl,
        record {
          starts = refl;
          ends = refl;
          chain = Chain-frame {h = h} ((r, e) ∷ xs) k.3 λ a i. ground (arith, k.1);
        },
        λ a. refl,
      )

-- `queue_pop` on a queue in the heap never faults. It returns the oldest payload and frees its item
-- and no other address; on an empty queue it returns NULL and leaves queue and heap as they were.
pub queue_pop-Popped :
    (h : Heap) (q : Queue) (xs : Cells) → IsQueue h q xs → Ends (Popped h xs) (queue_pop h q)
queue_pop-Popped h q xs is = rw (queue-over h q xs is) (pop-Popped h xs is.chain)

abbrev pub Freed : Heap → Cells → List ℕ → Heap × List ℕ → Type 0
Freed h xs out (g, ds) =
    (ds ≡ out ++ payloads xs) × ((a : Ptr) → g a ≡ (if has a xs then none else h a))

free_loop-suc :
    (k : ℕ) (h : Heap) (p : Ptr) (i : Item) (out : List ℕ)
    → p ≢ 0
    → h p ≡ some i
    → free_loop (suc k) h p out ≡ free_loop k (write h p none) i.next (out ++ i.payload ∷ [])
unfolding free_loop
free_loop-suc k h p i out ne e = ground arith

Freed-cons :
    (h : Heap) (p : Ptr) (d : ℕ) (xs : Cells) (out : List ℕ) (r : Option (Heap × List ℕ))
    → Ends (Freed (write h p none) xs (out ++ d ∷ [])) r
    → Ends (Freed h ((p, d) ∷ xs) out) r
unfolding write
Freed-cons h p d xs out none f = f
Freed-cons h p d xs out (some (g, ds)) f =
    (f.0 ∙ append_assoc out (d ∷ []) (payloads xs), λ a. ground (arith, f.1 a))

free_loop-Freed :
    (k : ℕ) (h : Heap) (xs : Cells) (out : List ℕ)
    → Chain h xs
    → length xs < k
    → Ends (Freed h xs out) (free_loop k h (first xs) out)
unfolding free_loop
free_loop-Freed zero h xs out c f = absurd (omega arith)
free_loop-Freed (suc k) h [] out c f = (sym (append-nil out), λ a. refl)
free_loop-Freed (suc k) h ((r, d) ∷ xs) out c f = rw (free_loop-suc k h r _ out c.0 c.2) (
    Freed-cons h r d xs out _ (
      free_loop-Freed k (write h r none) xs (out ++ d ∷ [])
        (Chain-frame {h = h} xs c.3 λ a i. write_other h r a none (ground (arith, c.1)))
        (omega arith)))

-- `queue_free_ex` on a queue in the heap visits every item once, oldest first, and releases exactly
-- the queue's items: no leak and no use after free. Fuel above the number of items is enough.
pub queue_free_ex-Freed :
    (fuel : ℕ) (h : Heap) (q : Queue) (xs : Cells)
    → IsQueue h q xs
    → length xs < fuel
    → Ends (Freed h xs []) (queue_free_ex fuel h q)
unfolding queue_free_ex
queue_free_ex-Freed fuel h q xs is enough =
    rw (queue-over h q xs is) (free_loop-Freed fuel h xs [] is.chain enough)
