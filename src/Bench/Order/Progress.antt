-- ===== src/Bench/Order/Progress.antt =====
-- bench_event.c: how far the main thread is, and that it goes on.
use rt_csp.Base.{
  ℕ, suc, ◌^◌, ◌<◌, ◌≡◌, ◌≢◌, refl, ap, sym, ◌∙◌, Bool, true, false, Option, none, some, List, [],
  ◌∷◌, ltb, if◌then◌else◌, length, length-replicate, replicate, some_rule,
}
use rt_csp.Bench.Window.{Stats}
use rt_csp.Bench.Main.{Thread, Result, Main, write_all, main_notify_byte, new_thread, loop_event}
use rt_csp.Bench.Order.{
  IsModules, Reach, starts, works, tells, letter, IsMain, connecting, in_round, is_over, Next, goes,
}
use rt_csp.Bench.Order.Letters.{IsMain-Next}

module _ (lens : List ℕ) (joined : List Thread → List Thread) (bench_nthreads : ℕ) where
  same_length : (chr : ℕ) (ts : List Thread) → length (write_all chr ts) ≡ length ts
  same_length chr [] = refl
  same_length chr (t ∷ ts) = ap suc (same_length chr ts)

  loop_event-IsMain :
      (results : ℕ × ℕ → Result)
      → 0 < bench_nthreads
      → IsMain lens joined bench_nthreads 0 (loop_event bench_nthreads results)
  unfolding loop_event
  loop_event-IsMain results some_threads = connecting (record {
    size =
        same_length b'c' (replicate bench_nthreads new_thread)
        ∙ length-replicate bench_nthreads new_thread;
    early = some_threads;
    counted = refl;
    at_module = refl;
    at_entry = refl;
    running = refl;
  })

  works-IsMain :
      (n : ℕ) (s : Main) (ts : List Thread) (st : Stats) (b : Bool)
      → length ts ≡ bench_nthreads
      → IsMain lens joined bench_nthreads n s
      → IsMain lens joined bench_nthreads n (record s { threads = ts; stats = st; stdin_bound = b })
  works-IsMain n s ts st b e (connecting v) = connecting (record {
    size = e;
    early = v.early;
    counted = v.counted;
    at_module = v.at_module;
    at_entry = v.at_entry;
    running = v.running;
  })
  works-IsMain n s ts st b e (in_round r v) = in_round r (record {
    size = e;
    counted = v.counted;
    below = v.below;
    at_module = v.at_module;
    at_entry = v.at_entry;
    chosen = v.chosen;
    left = v.left;
    running = v.running;
  })
  works-IsMain n s ts st b e (is_over r v) = is_over r (record {
    counted = v.counted;
    zeroed = v.zeroed;
    chosen = v.chosen;
    left = v.left;
    ended = v.ended;
  })

  Next-IsMain :
      (n : ℕ) (s u : Main)
      → main_notify_byte lens joined true (letter lens joined bench_nthreads n) s ≡ some u
      → Next lens joined bench_nthreads n s
      → IsMain lens joined bench_nthreads (suc n) u
  Next-IsMain n s u e (goes x f v) =
      some_rule (IsMain lens joined bench_nthreads (suc n)) x u v (sym f ∙ e)

  Reach-IsMain :
      {results : ℕ × ℕ → Result} {n : ℕ} {s : Main}
      → 0 < bench_nthreads
      → bench_nthreads < 2 ^ 32
      → IsModules lens
      → Reach lens joined bench_nthreads results n s
      → IsMain lens joined bench_nthreads n s
  Reach-IsMain {results} some_threads few w (starts e) =
      rw e (loop_event-IsMain results some_threads)
  Reach-IsMain {results} {n} some_threads few w (works {s} ts st b r size e) =
      rw e (works-IsMain n s ts st b size (Reach-IsMain some_threads few w r))
  Reach-IsMain {results} some_threads few w (tells {n} {s} {u} r on e) =
      Next-IsMain n s u e
        (IsMain-Next lens joined bench_nthreads n s few w (Reach-IsMain some_threads few w r) on)

abbrev pub is_none : Option (ℕ × ℕ) → Bool
is_none none = true
is_none (some at) = false

-- If the letters that have come so far are the `bench_nthreads` letters `c` and then letters `n` only,
-- the next letter of that sequence does not make the main thread, until it stops, read an entry that is
-- not there or write through NULL; under the same conditions on the modules and the numbers.
pub Reach-running :
    {lens : List ℕ} {joined : List Thread → List Thread} {bench_nthreads : ℕ}
    {results : ℕ × ℕ → Result} {n : ℕ} {s : Main}
    → bench_nthreads < 2 ^ 32
    → IsModules lens
    → 0 < bench_nthreads
    → s.stopped ≡ false
    → Reach lens joined bench_nthreads results n s
    → main_notify_byte lens joined true (if ltb n bench_nthreads then b'c' else b'n') s ≢ none
Reach-running {lens} {joined} {bench_nthreads} {results} {n} {s} few w some_threads on r e =
    elim (IsMain-Next lens joined bench_nthreads n s few w
      (Reach-IsMain lens joined bench_nthreads some_threads few w r) on) [ goes u f v ↦ absurd cc ]
