-- ===== src/Bench/Results.antt =====
-- bench_event.c: what `send_recv_call` records at the end of a round.
use rt_csp.Base.{
  ℕ, ◌+◌, ◌-◌, ◌%◌, ◌^◌, ◌<◌, ◌≡◌, refl, sym, ◌∙◌, Bool, true, false, none, some, List, [], ◌∷◌,
  length, get_or, tally, some_rule, if_cases, arith,
}
use mathlib.Core.Path.{subst}
use native.Mathlib.Decide.{dec_lt}
use rt_csp.Bench.Main.{
  Thread, Result, Main, write_all, no_result, same, put_result, add_threads, main_notify_byte,
}
use rt_csp.Bench.Schedule.{begun, summed, thread_ready-last, go_on-next, go_on-turn, go_on-end}
use rt_csp.Bench.Order.{IsModules}

-- The connections that a worker lost in the round.
abbrev pub lost : Thread → ℕ
lost t = ((t.worker).close_conn_num + 2 ^ 32 - t.preclose_conn_num) % 2 ^ 32

-- The sums over the workers, of type `unsigned int`.
pub record IsSum (r : Result) (ts : List Thread) : Type 0 where
  pub closes : r.cause_close_conn_num ≡ tally lost ts % 2 ^ 32
  pub all : r.requests ≡ tally (λ t. t.worker.requests) ts % 2 ^ 32
  pub ok : r.ok_requests ≡ tally (λ t. t.worker.ok_requests) ts % 2 ^ 32

add_threads-closes :
    (r : Result) (ts : List Thread)
    → r.cause_close_conn_num < 2 ^ 32
    → (add_threads r ts).cause_close_conn_num ≡ (r.cause_close_conn_num + tally lost ts) % 2 ^ 32
unfolding add_threads
add_threads-closes r [] h = omega arith
add_threads-closes r (t ∷ ts) h =
    add_threads-closes (add_threads r (t ∷ [])) ts (omega arith) ∙ omega arith

add_threads-requests :
    (r : Result) (ts : List Thread)
    → r.requests < 2 ^ 32
    → (add_threads r ts).requests ≡ (r.requests + tally (λ t. t.worker.requests) ts) % 2 ^ 32
unfolding add_threads
add_threads-requests r [] h = omega arith
add_threads-requests r (t ∷ ts) h =
    add_threads-requests (add_threads r (t ∷ [])) ts (omega arith) ∙ omega arith

add_threads-ok_requests :
    (r : Result) (ts : List Thread)
    → r.ok_requests < 2 ^ 32
    → (add_threads r ts).ok_requests
      ≡ (r.ok_requests + tally (λ t. t.worker.ok_requests) ts) % 2 ^ 32
unfolding add_threads
add_threads-ok_requests r [] h = omega arith
add_threads-ok_requests r (t ∷ ts) h =
    add_threads-ok_requests (add_threads r (t ∷ [])) ts (omega arith) ∙ omega arith

add_threads-IsSum : (ts : List Thread) → IsSum (add_threads no_result ts) ts
add_threads-IsSum ts = record {
  closes = add_threads-closes no_result ts (omega arith) ∙ omega arith;
  all = add_threads-requests no_result ts (omega arith) ∙ omega arith;
  ok = add_threads-ok_requests no_result ts (omega arith) ∙ omega arith;
}

put_result-same : (at : ℕ × ℕ) (r : Result) (f : ℕ × ℕ → Result) → put_result at r f at ≡ r
put_result-same at r f = let b : same at at ≡ true = ground arith in rw b refl

put_result-other :
    (at other : ℕ × ℕ) (r : Result) (f : ℕ × ℕ → Result)
    → same other at ≡ false
    → put_result at r f other ≡ f other
put_result-other at other r f e =
    if_cases (λ x. x ≡ f other) (same other at) r (f other) (λ t. absurd cc) (λ _. refl)

-- The letter `n` of the last worker, in a round for an entry that is there: the results of that entry
-- become the sums over the workers of the replies, of the right replies and of the connections lost in
-- the round, modulo 2^32, and beginning the next round leaves them so.
pub main_notify_byte-IsSum :
    (lens : List ℕ) (joined : List Thread → List Thread) (deleted : Bool) (s u : Main)
    → IsModules lens
    → length s.threads < 2 ^ 32
    → s.cthreads + 1 ≡ length s.threads
    → s.modid < length lens
    → s.send_recv_id < get_or lens s.modid 0
    → s.send_recv ≡ some (s.modid, s.send_recv_id)
    → main_notify_byte lens joined deleted b'n' s ≡ some u
    → IsSum (u.results (s.modid, s.send_recv_id)) s.threads
unfolding main_notify_byte
main_notify_byte-IsSum lens joined deleted s u w few last m i chosen e =
    let at : ℕ × ℕ = (s.modid, s.send_recv_id) in
    let v = summed at s in
    let small = (w.filled s.modid m).1 in
    let byte = sym (thread_ready-last lens joined b'n' s at last few chosen) ∙ e in
    let sums : IsSum (v.results at) s.threads =
      subst (λ r. IsSum r s.threads)
        (sym (put_result-same at (add_threads no_result s.threads) s.results))
        (add_threads-IsSum s.threads) in
    let kept : (other : ℕ × ℕ)
        → same at other ≡ false
        → IsSum (put_result other no_result v.results at) s.threads =
      λ other e.
        subst (λ r. IsSum r s.threads) (sym (put_result-other other at no_result v.results e))
          sums in
    let result : Main → Type 0 = λ x. IsSum (x.results at) s.threads in
    elim (dec_lt (s.send_recv_id + 1) (get_or lens s.modid 0)) [
      | yes next ↦
          some_rule result (begun b'n' s.modid (s.send_recv_id + 1) v) u
            (kept (s.modid, s.send_recv_id + 1) (ground arith))
            (sym (go_on-next lens joined b'n' v m small next) ∙ byte)
      | no no_next ↦ elim (dec_lt (s.modid + 1) (length lens)) [
        | yes turn ↦
            some_rule result (begun b'n' (s.modid + 1) 0 v) u (kept (s.modid + 1, 0) (ground arith))
              (sym (
                  go_on-turn lens joined b'n' v turn w.few small (omega arith)
                    (w.filled (s.modid + 1) turn).0)
                ∙ byte)
        | no no_turn ↦
            some_rule result
              (record v {
                modid = length lens;
                send_recv_id = get_or lens s.modid 0;
                send_recv = none;
                signal_bound = false;
                threads = joined (write_all b'-' s.threads);
                stopped = true;
              })
              u sums
              (sym (go_on-end lens joined b'n' v (omega arith) w.few small (omega arith)) ∙ byte)
      ]
    ]
