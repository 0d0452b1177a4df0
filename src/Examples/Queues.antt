-- ===== src/Examples/Queues.antt =====
-- queue.c at work on small queues.
use rt_csp.Base.{refl, none, some, [], ◌∷◌, ◌==◌, if◌then◌else◌, arith}
use rt_csp.Queue.{Heap, item, queue, queue_push, queue_pop, queue_free_ex}
use rt_csp.Queue.Refine.{
  IsQueue, Ends, Pushed, Popped, Freed, queue_push-Pushed, queue_pop-Popped, queue_free_ex-Freed,
}

-- Items at 5 and 8.
abbrev two_items : Heap
two_items a = if a == 5 then some (item 42 8) else if a == 8 then some (item 43 0) else none

two_items-IsQueue : IsQueue two_items (queue 5 8) ((5, 42) ∷ (8, 43) ∷ [])
two_items-IsQueue = record {
  starts = refl;
  ends = refl;
  chain = (ground arith, refl, refl, (ground arith, refl, refl, tt));
}

queue_push-Pushed_example :
    Ends
      (Pushed two_items ((5, 42) ∷ (8, 43) ∷ []) (11, 44))
      (queue_push 11 two_items (queue 5 8) 44)
queue_push-Pushed_example =
    queue_push-Pushed two_items (queue 5 8) ((5, 42) ∷ (8, 43) ∷ []) 11 44 two_items-IsQueue
      (ground arith) refl

queue_pop-Popped_example :
    Ends (Popped two_items ((5, 42) ∷ (8, 43) ∷ [])) (queue_pop two_items (queue 5 8))
queue_pop-Popped_example =
    queue_pop-Popped two_items (queue 5 8) ((5, 42) ∷ (8, 43) ∷ []) two_items-IsQueue

queue_free_ex-Freed_example :
    Ends (Freed two_items ((5, 42) ∷ (8, 43) ∷ []) []) (queue_free_ex 3 two_items (queue 5 8))
queue_free_ex-Freed_example =
    queue_free_ex-Freed 3 two_items (queue 5 8) ((5, 42) ∷ (8, 43) ∷ []) two_items-IsQueue
      (omega arith)
