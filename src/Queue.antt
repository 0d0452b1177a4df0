-- ===== src/Queue.antt =====
-- queue.h and queue.c: a singly linked queue with a tail pointer, over an explicit heap.
-- An address is a number, 0 is NULL. What `malloc` returns is an argument of the operation that
-- calls it. The mutex makes each operation atomic, so an operation is one step.
pub mod Fifo
pub mod Chain
pub mod Refine
use rt_csp.Base.{
  ℕ, zero, suc, ◌≡◌, Bool, true, false, Option, none, some, List, [], ◌∷◌, ◌++◌, ◌==◌,
  if◌then◌else◌,
}

abbrev pub Ptr : Type 0
Ptr = ℕ

-- struct _queue_item_t
pub record Item : Type 0 where
  pub payload : ℕ
  pub next : Ptr

-- struct _queue_t, without its lock
pub record Queue : Type 0 where
  pub head : Ptr
  pub tail : Ptr

abbrev pub item : ℕ → Ptr → Item
item d q = record { payload = d; next = q }

abbrev pub queue : Ptr → Ptr → Queue
queue p q = record { head = p; tail = q }

abbrev pub Heap : Type 0
Heap = Ptr → Option Item

pub write : Heap → Ptr → Option Item → Heap
write h p c a = if a == p then c else h a

-- A read or a write through a pointer that holds no item is a fault: `none`.
abbrev set_next : Heap → Ptr → Ptr → Option Heap
set_next h p q = elim (h p) [
  | none ↦ none
  | some i ↦ some (write h p (some (record i { next = q })))
]

pub queue_init : Queue
queue_init = queue 0 0

-- `fresh` is what `malloc` returns.
pub queue_push : Ptr → Heap → Queue → ℕ → Option (Heap × Queue)
queue_push fresh h q d =
    let h' = write h fresh (some (item d 0)) in
    if q.tail == 0
    then some (h', queue fresh fresh)
    else elim (set_next h' q.tail fresh) [ none ↦ none | some g ↦ some (g, queue q.head fresh) ]

-- The result 0 is NULL: no item.
pub queue_pop : Heap → Queue → Option (Heap × Queue × ℕ)
queue_pop h q = if q.head == 0 then some (h, q, 0) else elim (h q.head) [
  | none ↦ none
  | some i ↦
      some
        (write h q.head none, (if i.next == 0 then queue 0 0 else queue i.next q.tail), i.payload)
]

-- The loop of `queue_free_ex`: the payloads of the items handed to `free_func`, in order, each item
-- released by it. `none` is a fault; the fuel bounds the number of items.
free_loop : ℕ → Heap → Ptr → List ℕ → Option (Heap × List ℕ)
free_loop zero h p out = none
free_loop (suc k) h p out = elim (p == 0) [
  | true ↦ some (h, out)
  | false ↦ elim (h p) [
    | none ↦ none
    | some i ↦ free_loop k (write h p none) i.next (out ++ i.payload ∷ [])
  ]
]

pub queue_free_ex : ℕ → Heap → Queue → Option (Heap × List ℕ)
unfolding free_loop
queue_free_ex fuel h q = free_loop fuel h q.head []
