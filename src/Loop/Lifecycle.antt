-- ===== src/Loop/Lifecycle.antt =====
-- loop_event, thread_init, worker_thread_handler and the end of signal_handler: how the main thread and the
-- worker threads wait for each other, and when the hooks of the modules are called.
pub mod Counted
pub mod Guards
pub mod Still
pub mod Ends
pub mod Bracketed
use rt_csp.Base.{
  ℕ, ◌+◌, ◌-◌, ◌≤◌, ◌<◌, ◌≡◌, Bool, true, false, some, List, [], ◌∷◌, ◌++◌, ltb, get_elem?, set,
  replicate,
}

-- A hook that is called, or a handler of an event loop, which may call hooks on connections and those of
-- timers. A module is given by its index in rtcsp_modules and a worker by its `id`.
pub data Event : Type 0 where
  started stopped : ℕ → Event
  inited destroyed : ℕ → ℕ → Event
  accepted : Event
  served closed : ℕ → Event

-- Where the main thread stands: in the loop over the modules, the loop of worker_create, the wait at
-- the end of thread_init, its event loop, the loop of signal_handler that writes '-', the wait at its
-- end, and the loop that stops the modules, with how many are left.
pub data Place : Type 0 where
  starting creating : ℕ → Place
  awaiting looping : Place
  notifying : ℕ → Place
  draining : Place
  stopping : ℕ → Place

-- Where a worker stands: the same in worker_thread_handler. `closing` is between the end of its event
-- loop and the loop over the modules.
pub data Phase : Type 0 where
  absent : Phase
  initialising : ℕ → Phase
  up closing : Phase
  destroying : ℕ → Phase
  gone : Phase

-- `nthreads` is that of listen_thread, and `log` what was called so far.
pub record Life : Type 0 where
  pub place : Place
  pub nthreads : ℕ
  pub workers : List Phase
  pub log : List Event

-- '-' was written to the worker's pipe.
abbrev pub is_told : Place → ℕ → Bool
is_told (notifying i) w = ltb w i
is_told draining w = true
is_told (stopping k) w = true
is_told p w = false

abbrev pub logged : Life → Event → Life
logged s e = record s { log = s.log ++ e ∷ [] }

abbrev pub at_phase : Life → ℕ → Phase → Life
at_phase s w p = record s { workers = set s.workers w p }

abbrev pub at_place : Life → Place → Life
at_place s p = record s { place = p }

module _ (rtcsp_length rtcsp_nthreads : ℕ) where
  abbrev pub begin_life : Life
  begin_life = record {
    place = starting 0;
    nthreads = 0;
    workers = replicate rtcsp_nthreads absent;
    log = [];
  }

  -- One turn of a thread. The calls of pthread_join are left out: they are made on detached threads.
  pub data Step (s : Life) (u : Life) : Type 0 where
    -- loop_event
    starts :
        (k : ℕ)
        → s.place ≡ starting k
        → k < rtcsp_length
        → u ≡ at_place (logged s (started k)) (starting (k + 1))
        → Step s u
    begins : s.place ≡ starting rtcsp_length → u ≡ at_place s (creating 0) → Step s u
    -- thread_init
    creates :
        (i : ℕ)
        → s.place ≡ creating i
        → get_elem? s.workers i ≡ some absent
        → u ≡ at_place (at_phase s i (initialising 0)) (creating (i + 1))
        → Step s u
    waits : s.place ≡ creating rtcsp_nthreads → u ≡ at_place s awaiting → Step s u
    loops : s.place ≡ awaiting → rtcsp_nthreads ≤ s.nthreads → u ≡ at_place s looping → Step s u
    accepts : s.place ≡ looping → u ≡ logged s accepted → Step s u
    -- signal_handler
    signalled : s.place ≡ looping → u ≡ at_place s (notifying 0) → Step s u
    notifies :
        (i : ℕ)
        → s.place ≡ notifying i
        → i < rtcsp_nthreads
        → u ≡ at_place s (notifying (i + 1))
        → Step s u
    drains : s.place ≡ notifying rtcsp_nthreads → u ≡ at_place s draining → Step s u
    -- the end of loop_event
    breaks : s.place ≡ draining → s.nthreads ≡ 0 → u ≡ at_place s (stopping rtcsp_length) → Step s u
    stops :
        (k : ℕ)
        → s.place ≡ stopping (k + 1)
        → u ≡ at_place (logged s (stopped k)) (stopping k)
        → Step s u
    -- worker_thread_handler
    inits :
        (w k : ℕ)
        → get_elem? s.workers w ≡ some (initialising k)
        → k < rtcsp_length
        → u ≡ at_phase (logged s (inited w k)) w (initialising (k + 1))
        → Step s u
    counts :
        (w : ℕ)
        → get_elem? s.workers w ≡ some (initialising rtcsp_length)
        → u ≡ record (at_phase s w up) { nthreads = s.nthreads + 1 }
        → Step s u
    serves :
        (w : ℕ)
        → get_elem? s.workers w ≡ some up
        → u ≡ at_phase (logged s (served w)) w up
        → Step s u
    leaves :
        (w : ℕ)
        → get_elem? s.workers w ≡ some up
        → is_told s.place w ≡ true
        → u ≡ at_phase s w closing
        → Step s u
    closes :
        (w : ℕ)
        → get_elem? s.workers w ≡ some closing
        → u ≡ at_phase (logged s (closed w)) w closing
        → Step s u
    destroys_all :
        (w : ℕ)
        → get_elem? s.workers w ≡ some closing
        → u ≡ at_phase s w (destroying rtcsp_length)
        → Step s u
    destroys :
        (w k : ℕ)
        → get_elem? s.workers w ≡ some (destroying (k + 1))
        → u ≡ at_phase (logged s (destroyed w k)) w (destroying k)
        → Step s u
    ends :
        (w : ℕ)
        → get_elem? s.workers w ≡ some (destroying 0)
        → u ≡ record (at_phase s w gone) { nthreads = s.nthreads - 1 }
        → Step s u

  pub data Reach : Life → Type 0 where
    here : {s : Life} → s ≡ begin_life → Reach s
    next : {s u : Life} → Reach s → Step s u → Reach u
