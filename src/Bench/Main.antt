-- ===== src/Bench/Main.antt =====
-- bench_event.c: the main thread, which starts the rounds, with the pipes to its workers. Times, which
-- are floating point, and what is printed are left out.
use rt_csp.Base.{
  ℕ, ◌+◌, ◌-◌, ◌%◌, ◌^◌, Bool, true, false, ◌&&◌, Option, none, some, List, [], ◌∷◌, ◌++◌, ◌==◌,
  ltb, if◌then◌else◌, length, get_elem?, replicate,
}
use rt_csp.Bench.Window.{Stats, new_series, reset}
use rt_csp.Bench.Worker.{Worker}

-- A worker thread as the main thread sees it: `preclose_conn_num` is the main thread's, and `pipe` holds
-- the letters for the worker that it has not read.
pub record Thread : Type 0 where
  pub worker : Worker
  pub preclose_conn_num : ℕ
  pub pipe : List ℕ

-- The counts of conn_send_recv_t.
pub record Result : Type 0 where
  pub cause_close_conn_num : ℕ
  pub requests : ℕ
  pub ok_requests : ℕ

-- main_thread_t, the threads, and `send_recv`: a module's index and the index in its `recvs`.
-- `req_timeout` is set when `timeout_int` calls `timeout_req_handler`, `stdin_bound` when there is an
-- event for the standard input, `signal_bound` when there is one for SIGINT.
pub record Main : Type 0 where
  pub cthreads : ℕ
  pub modid : ℕ
  pub send_recv_id : ℕ
  pub send_recv : Option (ℕ × ℕ)
  pub results : ℕ × ℕ → Result
  pub stats : Stats
  pub threads : List Thread
  pub req_timeout : Bool
  pub stdin_bound : Bool
  pub signal_bound : Bool
  pub stopped : Bool

-- `write(worker_threads[i].write_fd, &chr, 1)` for every worker.
abbrev pub write_all : ℕ → List Thread → List Thread
write_all chr [] = []
write_all chr (t ∷ ts) = record t { pipe = t.pipe ++ chr ∷ [] } ∷ write_all chr ts

abbrev pub no_result : Result
no_result = record { cause_close_conn_num = 0; requests = 0; ok_requests = 0 }

-- The loop of `send_recv_call`.
unfoldable pub add_threads : Result → List Thread → Result
add_threads r [] = r
add_threads r (t ∷ ts) =
    add_threads
      (record {
        cause_close_conn_num =
            (r.cause_close_conn_num
              + ((t.worker).close_conn_num + 2 ^ 32 - t.preclose_conn_num) % 2 ^ 32)
            % 2 ^ 32;
        requests = (r.requests + (t.worker).requests) % 2 ^ 32;
        ok_requests = (r.ok_requests + (t.worker).ok_requests) % 2 ^ 32;
      })
      ts

abbrev pub same : ℕ × ℕ → ℕ × ℕ → Bool
same a b = (a.0 == b.0) && (a.1 == b.1)

abbrev pub put_result : ℕ × ℕ → Result → (ℕ × ℕ → Result) → ℕ × ℕ → Result
put_result at r results other = if same other at then r else results other

-- `none` is a write through NULL.
unfoldable pub send_recv_call : Main → Option Main
unfolding add_threads reset
send_recv_call s = elim s.send_recv [
  | none ↦ none
  | some at ↦ some (record s {
    results = put_result at (add_threads no_result s.threads) s.results;
    stats = reset s.stats;
  })
]

-- `joined` is what becomes of the threads until they have ended.
unfoldable pub signal_handler : (List Thread → List Thread) → Main → Option Main
unfolding send_recv_call
signal_handler joined s =
    let u = record s {
      signal_bound = false;
      threads = joined (write_all b'-' s.threads);
      stopped = true;
    } in
    elim s.send_recv [ none ↦ some u | some at ↦ send_recv_call u ]

-- As it is with HAVE_SKIP_BENCH.
unfoldable pub rebind_stdin_event : Bool → Main → Main
rebind_stdin_event is_bind s =
    if is_bind && s.stdin_bound then s else record s { stdin_bound = true }

-- A worker before a round: the main thread clears its counts too.
abbrev pub begin_threads : ℕ → List Thread → List Thread
begin_threads chr [] = []
begin_threads chr (t ∷ ts) =
    record t {
      worker = record (t.worker) { requests = 0; ok_requests = 0 };
      preclose_conn_num = (t.worker).close_conn_num;
      pipe = t.pipe ++ chr ∷ [];
    }
    ∷ begin_threads chr ts

-- Case `b`. `lens` holds the `recvs_len` of the modules; `none` is an access that is out of bounds.
unfoldable pub begin_requests : List ℕ → ℕ → Main → Option Main
unfolding rebind_stdin_event
begin_requests lens chr s = elim (get_elem? lens s.modid) [
  | none ↦ none
  | some len ↦
      if ltb s.send_recv_id len
      then some (
          rebind_stdin_event true (record s {
            send_recv = some (s.modid, s.send_recv_id);
            results = put_result (s.modid, s.send_recv_id) no_result s.results;
            threads = begin_threads chr s.threads;
          }))
      else none
]

-- The end of a round: the next `recvs` of the module, or the next module, or the end.
unfoldable pub go_on : List ℕ → (List Thread → List Thread) → ℕ → Main → Option Main
unfolding begin_requests signal_handler
go_on lens joined chr s = elim (get_elem? lens s.modid) [
  | none ↦ none
  | some len ↦
      let id = (s.send_recv_id + 1) % 2 ^ 32 in
      let m = (s.modid + 1) % 2 ^ 32 in
      if ltb id len
      then begin_requests lens chr (record s { send_recv_id = id })
      else if ltb m (length lens)
      then begin_requests lens chr (record s { modid = m; send_recv_id = 0 })
      else signal_handler joined (record s { modid = m; send_recv_id = id; send_recv = none })
]

-- Case `n`: a worker is ready. The last one ends the round.
unfoldable pub thread_ready : List ℕ → (List Thread → List Thread) → ℕ → Main → Option Main
unfolding send_recv_call go_on
thread_ready lens joined chr s =
    let c = (s.cthreads + 1) % 2 ^ 32 in
    if ltb c (length s.threads)
    then some (record s { cthreads = c })
    else elim (send_recv_call (record s { cthreads = 0 })) [
      | none ↦ none
      | some u ↦ go_on lens joined chr u
    ]

-- Case `c`: a worker has made its connections. The last one begins the first round, if the timer can
-- be set anew; `deleted` is whether `event_del` works.
unfoldable pub thread_connected : List ℕ → (List Thread → List Thread) → Bool → Main → Option Main
unfolding signal_handler rebind_stdin_event begin_requests
thread_connected lens joined deleted s =
    let c = (s.cthreads + 1) % 2 ^ 32 in
    let u = record s { cthreads = 0; stats = record (s.stats) { seconds = 0 } } in
    if ltb c (length s.threads)
    then some (record s { cthreads = c })
    else if deleted
    then begin_requests lens b'b' (rebind_stdin_event false (record u { req_timeout = true }))
    else signal_handler joined u

-- One turn of the loop in `main_notify_handler`.
unfoldable pub main_notify_byte :
    List ℕ → (List Thread → List Thread) → Bool → ℕ → Main → Option Main
unfolding thread_ready thread_connected begin_requests
main_notify_byte lens joined deleted chr s =
    if chr == b'n'
    then thread_ready lens joined chr s
    else if chr == b'b'
    then begin_requests lens chr s
    else if chr == b'c'
    then thread_connected lens joined deleted s
    else some s

-- The loop, on the letters that were read. The letters after the end are lost.
unfoldable pub main_notify_handler :
    List ℕ → (List Thread → List Thread) → Bool → List ℕ → Main → Option Main
unfolding main_notify_byte
main_notify_handler lens joined deleted [] s = some s
main_notify_handler lens joined deleted (chr ∷ buf) s =
    let rest = main_notify_handler lens joined deleted buf in
    elim (main_notify_byte lens joined deleted chr s) [
      | none ↦ none
      | some u ↦ if u.stopped then some u else rest u
    ]

-- `read_line` is whether `getline` gets a line.
unfoldable pub stdin_handler : Bool → Main → Main
stdin_handler read_line s =
    let u = record s { stdin_bound = false } in
    if read_line then record u { threads = write_all b'N' s.threads } else u

unfoldable pub timeout_handler : Main → Main
timeout_handler s = record s {
  stats = record (s.stats) { seconds = ((s.stats).seconds + 1) % 2 ^ 32 };
}

-- A worker when `thread_init` has set it up.
abbrev pub new_thread : Thread
new_thread = record {
  worker = record {
    conns = [];
    complete_conn_num = 0;
    close_conn_num = 0;
    requests = 0;
    ok_requests = 0;
    told = [];
    sent = [];
    stopped = false;
  };
  preclose_conn_num = 0;
  pipe = [];
}

-- The state in which `loop_event` starts its event loop. `results` is what the modules hold before.
unfoldable pub loop_event : ℕ → (ℕ × ℕ → Result) → Main
unfolding new_series
loop_event bench_nthreads results = record {
  cthreads = 0;
  modid = 0;
  send_recv_id = 0;
  send_recv = none;
  results = results;
  stats = record {
    all = new_series;
    ok = new_series;
    current_request_index = 0;
    requests = 0;
    ok_requests = 0;
    seconds = 0;
  };
  threads = write_all b'c' (replicate bench_nthreads new_thread);
  req_timeout = false;
  stdin_bound = false;
  signal_bound = true;
  stopped = false;
}
