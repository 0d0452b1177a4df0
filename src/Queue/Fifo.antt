-- ===== src/Queue/Fifo.antt =====
-- What queue.c promises: first in, first out, over the list of payloads, oldest first. The other
-- parts of the program use their queues through this view.
use rt_csp.Base.{Option, none, some, List, [], ◌∷◌, ◌++◌}

module _ {ℓ} {A : Type ℓ} where
  abbrev pub push : List A → A → List A
  push xs a = xs ++ a ∷ []

  abbrev pub front : List A → Option A
  front [] = none
  front (x ∷ xs) = some x

  abbrev pub rest : List A → List A
  rest [] = []
  rest (x ∷ xs) = xs
