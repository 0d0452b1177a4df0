-- ===== src/Bench/Schedule.antt =====
-- bench_event.c: the main thread goes through all rounds in order.
use rt_csp.Base.{
  ℕ, ◌+◌, ◌%◌, ◌^◌, ◌<◌, ◌≡◌, refl, ap, Bool, true, false, ◌&&◌, none, some, List, ltb, length,
  get_or, arith, if_cases,
}
use rt_csp.Bench.Window.{reset}
use rt_csp.Bench.Main.{
  Thread, Main, write_all, no_result, add_threads, put_result, send_recv_call, signal_handler,
  rebind_stdin_event, begin_threads, begin_requests, go_on, thread_ready,
}
use rt_csp.Bench.Plan.{get_elem?-get_or}

-- After case `b` at an entry that is there.
abbrev pub begun : ℕ → ℕ → ℕ → Main → Main
begun chr m i s = record s {
  modid = m;
  send_recv_id = i;
  send_recv = some (m, i);
  results = put_result (m, i) no_result s.results;
  threads = begin_threads chr s.threads;
  stdin_bound = true;
}

and_right : (a b : Bool) → (a && b) ≡ true → b ≡ true
and_right true b e = e
and_right false b e = absurd cc

pub rebind_stdin_event_lem :
    (is_bind : Bool) (s : Main) → rebind_stdin_event is_bind s ≡ record s { stdin_bound = true }
unfolding rebind_stdin_event
rebind_stdin_event_lem is_bind s =
    if_cases (λ u. u ≡ record s { stdin_bound = true }) (is_bind && s.stdin_bound) s
      (record s { stdin_bound = true })
      (λ bound. ap (λ b. record s { stdin_bound = b }) (and_right is_bind s.stdin_bound bound))
      (λ _. refl)

pub begin_requests-begun :
    (lens : List ℕ) (chr : ℕ) (s : Main)
    → s.modid < length lens
    → s.send_recv_id < get_or lens s.modid 0
    → begin_requests lens chr s ≡ some (begun chr s.modid s.send_recv_id s)
unfolding begin_requests
begin_requests-begun lens chr s m i =
    let at = get_elem?-get_or lens s.modid m in
    let inside : ltb s.send_recv_id (get_or lens s.modid 0) ≡ true = ground arith in
    let u = record s {
      send_recv = some (s.modid, s.send_recv_id);
      results = put_result (s.modid, s.send_recv_id) no_result s.results;
      threads = begin_threads chr s.threads;
    } in
    rw (begin_requests, at, inside) (ap (λ u. some u) (rebind_stdin_event_lem true u))

-- After `send_recv_call` for the entry `at`.
abbrev pub summed : ℕ × ℕ → Main → Main
summed at s = record s {
  cthreads = 0;
  results = put_result at (add_threads no_result s.threads) s.results;
  stats = reset s.stats;
}

pub thread_ready-waits :
    (lens : List ℕ) (joined : List Thread → List Thread) (chr : ℕ) (s : Main)
    → s.cthreads + 1 < length s.threads
    → length s.threads < 2 ^ 32
    → thread_ready lens joined chr s ≡ some (record s { cthreads = s.cthreads + 1 })
unfolding thread_ready
thread_ready-waits lens joined chr s more few =
    let c : (s.cthreads + 1) % 2 ^ 32 ≡ s.cthreads + 1 = omega arith in
    let b : ltb (s.cthreads + 1) (length s.threads) ≡ true = ground arith in
    rw (thread_ready, c, b) refl

-- The last worker ends the round.
pub thread_ready-last :
    (lens : List ℕ) (joined : List Thread → List Thread) (chr : ℕ) (s : Main) (at : ℕ × ℕ)
    → s.cthreads + 1 ≡ length s.threads
    → length s.threads < 2 ^ 32
    → s.send_recv ≡ some at
    → thread_ready lens joined chr s ≡ go_on lens joined chr (summed at s)
unfolding thread_ready go_on
thread_ready-last lens joined chr s at all few chosen =
    let c : (s.cthreads + 1) % 2 ^ 32 ≡ length s.threads = omega arith in
    let b : ltb (length s.threads) (length s.threads) ≡ false = ground arith in
    rw (thread_ready, c, b, send_recv_call, chosen) refl

module _ (lens : List ℕ) (joined : List Thread → List Thread) (chr : ℕ) (s : Main) where
  -- The three ways to go on: in the module, to the next module, to the end.
  pub go_on-next :
      s.modid < length lens
      → get_or lens s.modid 0 < 2 ^ 32
      → s.send_recv_id + 1 < get_or lens s.modid 0
      → go_on lens joined chr s ≡ some (begun chr s.modid (s.send_recv_id + 1) s)
  unfolding go_on
  go_on-next m small next =
      let at = get_elem?-get_or lens s.modid m in
      let i : (s.send_recv_id + 1) % 2 ^ 32 ≡ s.send_recv_id + 1 = omega arith in
      let b : ltb (s.send_recv_id + 1) (get_or lens s.modid 0) ≡ true = ground arith in
      rw (go_on, at, i, b)
        (begin_requests-begun lens chr (record s { send_recv_id = s.send_recv_id + 1 }) m next)

  pub go_on-turn :
      s.modid + 1 < length lens
      → length lens < 2 ^ 32
      → get_or lens s.modid 0 < 2 ^ 32
      → s.send_recv_id + 1 ≡ get_or lens s.modid 0
      → 0 < get_or lens (s.modid + 1) 0
      → go_on lens joined chr s ≡ some (begun chr (s.modid + 1) 0 s)
  unfolding go_on
  go_on-turn m few small last some_there =
      let at = get_elem?-get_or lens s.modid (omega arith) in
      let i : (s.send_recv_id + 1) % 2 ^ 32 ≡ get_or lens s.modid 0 = omega arith in
      let b : ltb (get_or lens s.modid 0) (get_or lens s.modid 0) ≡ false = ground arith in
      let j : (s.modid + 1) % 2 ^ 32 ≡ s.modid + 1 = omega arith in
      let d : ltb (s.modid + 1) (length lens) ≡ true = ground arith in
      rw (go_on, at, i, b, j, d)
        (begin_requests-begun lens chr (record s { modid = s.modid + 1; send_recv_id = 0 }) m
          some_there)

  pub go_on-end :
      s.modid + 1 ≡ length lens
      → length lens < 2 ^ 32
      → get_or lens s.modid 0 < 2 ^ 32
      → s.send_recv_id + 1 ≡ get_or lens s.modid 0
      → go_on lens joined chr s
        ≡ some (record s {
          modid = length lens;
          send_recv_id = get_or lens s.modid 0;
          send_recv = none;
          signal_bound = false;
          threads = joined (write_all b'-' s.threads);
          stopped = true;
        })
  unfolding go_on
  go_on-end m few small last =
      let at = get_elem?-get_or lens s.modid (omega arith) in
      let i : (s.send_recv_id + 1) % 2 ^ 32 ≡ get_or lens s.modid 0 = omega arith in
      let b : ltb (get_or lens s.modid 0) (get_or lens s.modid 0) ≡ false = ground arith in
      let j : (s.modid + 1) % 2 ^ 32 ≡ length lens = omega arith in
      let d : ltb (length lens) (length lens) ≡ false = ground arith in
      rw (go_on, at, i, b, j, d, signal_handler) refl
