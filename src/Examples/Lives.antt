-- ===== src/Examples/Lives.antt =====
-- The life of the server with one worker and two modules at a concrete state.
use rt_csp.Base.{[], ◌∷◌}
use rt_csp.Loop.Lifecycle.{started, inited, served, accepted, up, looping, Life}

abbrev running : Life
running = record {
  place = looping;
  nthreads = 1;
  workers = up ∷ [];
  log = started 0 ∷ started 1 ∷ inited 0 0 ∷ inited 0 1 ∷ served 0 ∷ accepted ∷ [];
}
