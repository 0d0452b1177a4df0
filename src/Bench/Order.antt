-- ===== src/Bench/Order.antt =====
-- bench_event.c: the main thread from its start to its end, when all workers answer.
pub mod Letters
pub mod Progress
use rt_csp.Base.{
  ℕ, suc, ◌+◌, ◌*◌, ◌-◌, ◌/◌, ◌%◌, ◌^◌, ◌<◌, ◌≤◌, ◌≡◌, ◌≢◌, refl, ap, sym, ◌∙◌, Bool, true, false,
  Option, none, some, List, [], ◌∷◌, ltb, if◌then◌else◌, length, length-replicate, get_elem?,
  get_or, drop, replicate, some_rule, arith,
}
use native.Mathlib.Decide.{dec_lt}
use native.Mathlib.Nat.{le-div_iff_mul-le, div-lt_iff_lt-mul, mod-add-div}
use rt_csp.Queue.Fifo.{rest}
use rt_csp.Bench.Window.{Stats}
use rt_csp.Bench.Main.{
  Thread, Result, Main, write_all, begin_threads, thread_ready, thread_connected, main_notify_byte,
  new_thread, loop_event,
}
use rt_csp.Bench.Plan.{
  plan, remaining, drop-suc, get_elem?-drop, get_elem?-drop_nil, remaining-head, remaining-next,
  remaining-turn, remaining-end, plan-remaining,
}
use rt_csp.Bench.Schedule.{
  begun, summed, begin_requests-begun, rebind_stdin_event_lem, thread_ready-waits,
  thread_ready-last, go_on-next, go_on-turn, go_on-end,
}

-- There is a module, each module has an entry, and the numbers of both are below 2^32.
pub record IsModules (lens : List ℕ) : Type 0 where
  pub some_there : 0 < length lens
  pub few : length lens < 2 ^ 32
  pub filled : (m : ℕ) → m < length lens → (0 < get_or lens m 0) × (get_or lens m 0 < 2 ^ 32)

-- The letters of the `bench_nthreads` workers, one by one: each tells `c` when it has its connections,
-- and from then on `n` when it is ready. A worker that has no connections, and tells `b`, is left out.
-- Meanwhile the workers go on, the timer fires and lines are
-- read. `n` counts the letters.
pub data Reach (lens : List ℕ) (joined : List Thread → List Thread) (bench_nthreads : ℕ)
    (results : ℕ × ℕ → Result) : ℕ → Main → Type 0 where
  starts :
      {s : Main}
      → s ≡ loop_event bench_nthreads results
      → Reach lens joined bench_nthreads results 0 s
  works :
      {n : ℕ} {s u : Main} (ts : List Thread) (st : Stats) (b : Bool)
      → Reach lens joined bench_nthreads results n s
      → length ts ≡ bench_nthreads
      → u ≡ record s { threads = ts; stats = st; stdin_bound = b }
      → Reach lens joined bench_nthreads results n u
  tells :
      {n : ℕ} {s u : Main}
      → Reach lens joined bench_nthreads results n s
      → s.stopped ≡ false
      → main_notify_byte lens joined true (if ltb n bench_nthreads then b'c' else b'n') s ≡ some u
      → Reach lens joined bench_nthreads results (suc n) u

module _ (lens : List ℕ) (joined : List Thread → List Thread) (bench_nthreads : ℕ) where
  -- The letter that comes next.
  abbrev letter : ℕ → ℕ
  letter n = if ltb n bench_nthreads then b'c' else b'n'

  record IsConnecting (n : ℕ) (s : Main) : Type 0 where
    size : length s.threads ≡ bench_nthreads
    early : n < bench_nthreads
    counted : s.cthreads ≡ n
    at_module : s.modid ≡ 0
    at_entry : s.send_recv_id ≡ 0
    running : s.stopped ≡ false

  record IsInRound (n r : ℕ) (s : Main) : Type 0 where
    size : length s.threads ≡ bench_nthreads
    counted : n ≡ bench_nthreads * suc r + s.cthreads
    below : s.cthreads < bench_nthreads
    at_module : s.modid < length lens
    at_entry : s.send_recv_id < get_or lens s.modid 0
    chosen : s.send_recv ≡ some (s.modid, s.send_recv_id)
    left : drop r (plan lens) ≡ remaining lens s.modid s.send_recv_id
    running : s.stopped ≡ false

  record IsEnded (n r : ℕ) (s : Main) : Type 0 where
    counted : n ≡ bench_nthreads * suc r
    zeroed : s.cthreads ≡ 0
    chosen : s.send_recv ≡ none
    left : drop r (plan lens) ≡ []
    ended : s.stopped ≡ true

  data IsMain (n : ℕ) (s : Main) : Type 0 where
    connecting : IsConnecting n s → IsMain n s
    in_round : (r : ℕ) → IsInRound n r s → IsMain n s
    is_over : (r : ℕ) → IsEnded n r s → IsMain n s

  data Next (n : ℕ) (s : Main) : Type 0 where
    goes :
        (u : Main)
        → main_notify_byte lens joined true (letter n) s ≡ some u
        → IsMain (suc n) u
        → Next n s

  length-begin_threads : (chr : ℕ) (ts : List Thread) → length (begin_threads chr ts) ≡ length ts
  length-begin_threads chr [] = refl
  length-begin_threads chr (t ∷ ts) = ap suc (length-begin_threads chr ts)

  letter-late : (n : ℕ) → bench_nthreads ≤ n → letter n ≡ b'n'
  letter-late n h = let b : ltb n bench_nthreads ≡ false = ground arith in rw b refl

  letter-early : (n : ℕ) → n < bench_nthreads → letter n ≡ b'c'
  letter-early n h = let b : ltb n bench_nthreads ≡ true = ground arith in rw b refl

  ready :
      (chr : ℕ) (s : Main)
      → chr ≡ b'n'
      → main_notify_byte lens joined true chr s ≡ thread_ready lens joined b'n' s
  unfolding main_notify_byte
  ready chr s e = ap (λ c. main_notify_byte lens joined true c s) e

  connected :
      (chr : ℕ) (s : Main)
      → chr ≡ b'c'
      → main_notify_byte lens joined true chr s ≡ thread_connected lens joined true s
  unfolding main_notify_byte
  connected chr s e = ap (λ c. main_notify_byte lens joined true c s) e

  IsInRound-late : (n r : ℕ) (s : Main) → IsInRound n r s → bench_nthreads ≤ n
  IsInRound-late n r s v = omega (arith, v.counted)
