-- ===== src/Loop/Lifecycle/Ends.antt =====
-- The way from every state to the end of the server.
use rt_csp.Base.{ℕ, ◌+◌, ◌-◌, ◌*◌, ◌<◌, ◌≡◌, tally}
use rt_csp.Loop.Lifecycle.{
  Place, Phase, absent, initialising, up, closing, destroying, gone, starting, creating, awaiting,
  looping, notifying, draining, stopping, Life, Step,
}

-- Turns that come one after the other.
pub data Later (len n : ℕ) (u : Life) : Life → Type 0 where
  now : {s : Life} → s ≡ u → Later len n u s
  turn : {s t : Life} → Step len n s t → Later len n u t → Later len n u s

module _ (len n : ℕ) where
  -- How far a worker and the main thread are from their end.
  weight : Phase → ℕ
  weight absent = 2 * len + 6
  weight (initialising k) = (len - k) + len + 5
  weight up = len + 4
  weight closing = len + 3
  weight (destroying k) = k + 1
  weight gone = 0

  place_weight : Place → ℕ
  place_weight (starting k) = (len - k) + n + n + len + 10
  place_weight (creating i) = (n - i) + n + len + 8
  place_weight awaiting = n + len + 7
  place_weight looping = n + len + 6
  place_weight (notifying i) = (n - i) + len + 4
  place_weight draining = len + 3
  place_weight (stopping k) = k + 1

  measure : Life → ℕ
  unfolding weight place_weight
  measure s = place_weight s.place + tally weight s.workers

  Down : Life → Type 0
  unfolding measure
  Down s = (u : Life) × Step len n s u × (measure u < measure s)
