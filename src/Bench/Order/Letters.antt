-- ===== src/Bench/Order/Letters.antt =====
-- bench_event.c: what each letter does to the main thread.
use rt_csp.Base.{
  ℕ, suc, ◌+◌, ◌*◌, ◌%◌, ◌^◌, ◌<◌, ◌≡◌, refl, ap, ◌∙◌, true, false, none, List, ltb, length, get_or,
  drop, arith,
}
use native.Mathlib.Decide.{dec_lt}
use rt_csp.Queue.Fifo.{rest}
use rt_csp.Bench.Main.{Thread, Main, write_all, thread_connected}
use rt_csp.Bench.Plan.{
  plan, remaining, drop-suc, remaining-next, remaining-turn, remaining-end, plan-remaining,
}
use rt_csp.Bench.Schedule.{
  begun, summed, begin_requests-begun, rebind_stdin_event_lem, thread_ready-waits,
  thread_ready-last, go_on-next, go_on-turn, go_on-end,
}
use rt_csp.Bench.Order.{
  IsModules, letter, IsConnecting, IsInRound, IsMain, connecting, in_round, is_over, Next, goes,
  length-begin_threads, letter-late, letter-early, ready, connected, IsInRound-late,
}

module _ (lens : List ℕ) (joined : List Thread → List Thread) (bench_nthreads : ℕ) where
  -- A letter in a round that is not the last.
  waits :
      (n r : ℕ) (s : Main)
      → bench_nthreads < 2 ^ 32
      → IsInRound lens joined bench_nthreads n r s
      → s.cthreads + 1 < bench_nthreads
      → Next lens joined bench_nthreads n s
  waits n r s few v more =
      goes (record s { cthreads = s.cthreads + 1 })
        (ready lens joined bench_nthreads (letter lens joined bench_nthreads n) s (
            letter-late lens joined bench_nthreads n
              (IsInRound-late lens joined bench_nthreads n r s v))
          ∙ thread_ready-waits lens joined b'n' s (omega (arith, v.size)) (omega (arith, v.size)))
        (in_round r (record {
          size = v.size;
          counted = omega (arith, v.counted);
          below = more;
          at_module = v.at_module;
          at_entry = v.at_entry;
          chosen = v.chosen;
          left = v.left;
          running = v.running;
        }))

  -- The last letter of a round.
  ends :
      (n r : ℕ) (s : Main)
      → bench_nthreads < 2 ^ 32
      → IsModules lens
      → IsInRound lens joined bench_nthreads n r s
      → s.cthreads + 1 ≡ bench_nthreads
      → Next lens joined bench_nthreads n s
  ends n r s few w v last =
      let len = get_or lens s.modid 0 in
      let u = summed (s.modid, s.send_recv_id) s in
      let small = (w.filled s.modid v.at_module).1 in
      let byte =
        ready lens joined bench_nthreads (letter lens joined bench_nthreads n) s (
          letter-late lens joined bench_nthreads n
            (IsInRound-late lens joined bench_nthreads n r s v))
        ∙ thread_ready-last lens joined b'n' s (s.modid, s.send_recv_id) (omega (arith, v.size))
            (omega (arith, v.size)) v.chosen in
      let left : drop (suc r) (plan lens) ≡ remaining lens s.modid (s.send_recv_id + 1) =
        drop-suc r (plan lens)
        ∙ ap rest v.left
        ∙ remaining-next lens s.modid s.send_recv_id v.at_entry
        ∙ ap (remaining lens s.modid) (omega arith) in
      let count : suc n ≡ bench_nthreads * suc (suc r) = omega (arith, v.counted) in
      elim (dec_lt (s.send_recv_id + 1) len) [
        | yes next ↦
            goes (begun b'n' s.modid (s.send_recv_id + 1) u)
              (byte ∙ go_on-next lens joined b'n' u v.at_module small next)
              (in_round (suc r) (record {
                size = length-begin_threads lens joined bench_nthreads b'n' s.threads ∙ v.size;
                counted = omega (arith, count);
                below = omega arith;
                at_module = v.at_module;
                at_entry = next;
                chosen = refl;
                left = left;
                running = v.running;
              }))
        | no no_next ↦ elim (dec_lt (s.modid + 1) (length lens)) [
          | yes turn ↦
              goes (begun b'n' (s.modid + 1) 0 u)
                (byte
                  ∙ go_on-turn lens joined b'n' u turn w.few small (omega (arith, v.at_entry))
                      (w.filled (s.modid + 1) turn).0)
                (in_round (suc r) (record {
                  size = length-begin_threads lens joined bench_nthreads b'n' s.threads ∙ v.size;
                  counted = omega (arith, count);
                  below = omega arith;
                  at_module = turn;
                  at_entry = (w.filled (s.modid + 1) turn).0;
                  chosen = refl;
                  left =
                      left
                      ∙ remaining-turn lens s.modid (s.send_recv_id + 1) (omega arith) (omega arith)
                      ∙ ap (λ m. remaining lens m 0) (omega arith);
                  running = v.running;
                }))
          | no no_turn ↦
              goes
                (record u {
                  modid = length lens;
                  send_recv_id = len;
                  send_recv = none;
                  signal_bound = false;
                  threads = joined (write_all b'-' s.threads);
                  stopped = true;
                })
                (byte
                  ∙ go_on-end lens joined b'n' u (omega (arith, v.at_module)) w.few small
                      (omega (arith, v.at_entry)))
                (is_over (suc r) (record {
                  counted = count;
                  zeroed = refl;
                  chosen = refl;
                  left =
                      left
                      ∙ remaining-end lens s.modid (s.send_recv_id + 1) (omega arith) (omega arith);
                  ended = refl;
                }))
        ]
      ]

  -- A worker has its connections, and others do not.
  joins :
      (n : ℕ) (s : Main)
      → bench_nthreads < 2 ^ 32
      → IsConnecting lens joined bench_nthreads n s
      → n + 1 < bench_nthreads
      → Next lens joined bench_nthreads n s
  unfolding thread_connected
  joins n s few v more =
      let c : (s.cthreads + 1) % 2 ^ 32 ≡ n + 1 = omega (arith, v.counted) in
      let b : ltb (n + 1) (length s.threads) ≡ true = ground (arith, v.size) in
      goes (record s { cthreads = n + 1 })
        (connected lens joined bench_nthreads (letter lens joined bench_nthreads n) s
            (letter-early lens joined bench_nthreads n v.early)
          ∙ rw (thread_connected, c, b) refl)
        (connecting (record {
          size = v.size;
          early = omega arith;
          counted = omega arith;
          at_module = v.at_module;
          at_entry = v.at_entry;
          running = v.running;
        }))

  -- The last worker has its connections: the first round begins.
  begins :
      (n : ℕ) (s : Main)
      → bench_nthreads < 2 ^ 32
      → IsModules lens
      → IsConnecting lens joined bench_nthreads n s
      → n + 1 ≡ bench_nthreads
      → Next lens joined bench_nthreads n s
  unfolding thread_connected
  begins n s few w v last =
      let c : (s.cthreads + 1) % 2 ^ 32 ≡ bench_nthreads = omega (arith, v.counted) in
      let b : ltb bench_nthreads (length s.threads) ≡ false = ground (arith, v.size) in
      let u = record s {
        cthreads = 0;
        stats = record (s.stats) { seconds = 0 };
        req_timeout = true;
        stdin_bound = true;
      } in
      let there : 0 < get_or lens 0 0 = (w.filled 0 w.some_there).0 in
      let entry : s.send_recv_id < get_or lens s.modid 0 = rw (v.at_module, v.at_entry) there in
      let inside : s.modid < length lens = omega (arith, v.at_module, w.some_there) in
      goes (begun b'b' s.modid s.send_recv_id u)
        (connected lens joined bench_nthreads (letter lens joined bench_nthreads n) s
            (letter-early lens joined bench_nthreads n v.early)
          ∙ rw
              (
                thread_connected,
                c,
                b,
                rebind_stdin_event_lem false (record s {
                  cthreads = 0;
                  stats = record (s.stats) { seconds = 0 };
                  req_timeout = true;
                }),
              )
              (begin_requests-begun lens b'b' u inside entry))
        (in_round 0 (record {
          size = length-begin_threads lens joined bench_nthreads b'b' s.threads ∙ v.size;
          counted = omega arith;
          below = omega arith;
          at_module = inside;
          at_entry = entry;
          chosen = refl;
          left = rw (v.at_module, v.at_entry) (plan-remaining lens w.some_there);
          running = v.running;
        }))

  pub IsMain-Next :
      (n : ℕ) (s : Main)
      → bench_nthreads < 2 ^ 32
      → IsModules lens
      → IsMain lens joined bench_nthreads n s
      → s.stopped ≡ false
      → Next lens joined bench_nthreads n s
  IsMain-Next n s few w (connecting v) on = elim (dec_lt (n + 1) bench_nthreads) [
    | yes more ↦ joins n s few v more
    | no no_more ↦ begins n s few w v (omega (arith, v.early))
  ]
  IsMain-Next n s few w (in_round r v) on = elim (dec_lt (s.cthreads + 1) bench_nthreads) [
    | yes more ↦ waits n r s few v more
    | no no_more ↦ ends n r s few w v (omega (arith, v.below))
  ]
  IsMain-Next n s few w (is_over r v) on = absurd cc
