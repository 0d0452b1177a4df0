-- ===== src/Bench/Round/Replies.antt =====
-- A turn of `read_handler` in bench_event.c, in a round.
use rt_csp.Base.{
  ℕ, zero, suc, ◌+◌, ◌%◌, ◌^◌, ◌<◌, ◌≤◌, ◌≡◌, refl, Bool, true, false, ◌&&◌, not, Option, none,
  some, List, [], ◌∷◌, ◌++◌, ltb, if◌then◌else◌, length-set, get_elem?, arith, if_cases, some_rule,
  ℤ, pos, negsuc,
}
use rt_csp.Socket.{socket_recv}
use rt_csp.Bench.Worker.{
  Client, SendRecv, Worker, put, tell_if_all, close_client, send_next, send_request, sent_by,
  request_of, count_reply, take_reply, Verdict, right, wrong, crashed, out_of_fuel, judge,
  read_handler,
}
use rt_csp.Bench.Round.{
  IsRound, Turn, turn, all_counted, moves, tell_if_all-IsRound, IsRound-untold,
  close_client-IsRound, put-IsRound,
}

-- What is sent and the counts of replies do not matter.
count-IsRound :
    (p : ℕ) (old : List ℕ) (w : Worker) (n m : ℕ) (out : List (ℕ × List ℕ))
    → IsRound p old w
    → IsRound p old (record w { requests = n; ok_requests = m; sent = out })
count-IsRound p old w n m out v = record {
  worker = record {
    closed = (v.worker).closed;
    unskipped = (v.worker).unskipped;
    small = (v.worker).small;
  };
  complete = v.complete;
  told_once = v.told_once;
}

sent_by-IsRound :
    (p : ℕ) (old : List ℕ) (k : SendRecv) (i : ℕ) (w : Worker)
    → IsRound p old w
    → IsRound p old (sent_by k i w)
sent_by-IsRound p old k i w v =
    elim (request_of k)
      as (λ r.
        IsRound p old
          (elim r [ none ↦ w | some packet ↦ record w { sent = w.sent ++ (i, packet) ∷ [] } ])) [
            | none ↦ v
            | some packet ↦
                count-IsRound p old w w.requests w.ok_requests (w.sent ++ (i, packet) ∷ []) v
          ]

more_left : (n p : ℕ) (skip : Bool) → (ltb n p && not skip) ≡ true → n < p
more_left n p skip e = ground arith

none_left :
    (n p : ℕ) (skip : Bool)
    → (if skip then suc zero else zero) ≡ zero
    → (ltb n p && not skip) ≡ false
    → p ≤ n
none_left n p true z e = absurd (ground arith)
none_left n p false z e = ground arith

-- The round goes on at one connection: a request is sent, or the connection is complete.
send_next-IsRound :
    (p : ℕ) (old : List ℕ) (k : SendRecv) (i : ℕ) (c d : Client) (w : Worker)
    → p < 2 ^ 32
    → get_elem? w.conns i ≡ some (some c)
    → c.requests < p
    → d.requests ≡ c.requests
    → d.is_skip ≡ c.is_skip
    → IsRound p old w
    → IsRound p old (send_next p k i d w)
unfolding send_next send_request
send_next-IsRound p old k i c d w few at live same_count same v =
    let n = (d.requests + 1) % 2 ^ 32 in
    if_cases (λ u. IsRound p old u) (ltb n p && not d.is_skip)
      (send_request k i (put i (some (record d { requests = n })) w))
      (tell_if_all (
        put i (some (record d { requests = n; is_skip = false }))
          (record w { complete_conn_num = (w.complete_conn_num + 1) % 2 ^ 32 })))
      (λ more.
        let less = more_left n p d.is_skip more in
        sent_by-IsRound p old k i (put i (some (record d { requests = n })) w)
          (put-IsRound p old i c (record d { requests = n }) w at less live same v))
      (λ last.
        let m = moves p w.conns i (some c) (some (record d { requests = n; is_skip = false })) at in
        let sizes = all_counted p w.conns in
        let size = length-set w.conns i (some (record d { requests = n; is_skip = false })) in
        tell_if_all-IsRound p old
          (put i (some (record d { requests = n; is_skip = false }))
            (record w { complete_conn_num = (w.complete_conn_num + 1) % 2 ^ 32 }))
          (record {
            closed = ground (arith, v.worker.closed);
            unskipped = ground (arith, v.worker.unskipped);
            small = omega (arith, v.worker.small);
          })
          (let least =
              none_left n p d.is_skip (rw same (ground (arith, v.worker.unskipped))) last in
            ground (arith, v.complete))
          (IsRound-untold p old i c w at live v))

take_reply-IsRound :
    (p : ℕ) (old : List ℕ) (k : SendRecv) (i : ℕ) (c d : Client) (r : Verdict) (w u : Worker)
    → p < 2 ^ 32
    → get_elem? w.conns i ≡ some (some c)
    → c.requests < p
    → d.requests ≡ c.requests
    → d.is_skip ≡ c.is_skip
    → IsRound p old w
    → take_reply p k i d r w ≡ some u
    → IsRound p old u
unfolding take_reply
take_reply-IsRound p old k i c d right w u few at live n s v e =
    some_rule (IsRound p old) (send_next p k i d (count_reply true w)) u
      (send_next-IsRound p old k i c d (count_reply true w) few at live n s
        (count-IsRound p old w ((w.requests + 1) % 2 ^ 32) ((w.ok_requests + 1) % 2 ^ 32) w.sent v))
      e
take_reply-IsRound p old k i c d wrong w u few at live n s v e =
    some_rule (IsRound p old) (send_next p k i d (count_reply false w)) u
      (send_next-IsRound p old k i c d (count_reply false w) few at live n s
        (count-IsRound p old w ((w.requests + 1) % 2 ^ 32) w.ok_requests w.sent v))
      e
take_reply-IsRound p old k i c d crashed w u few at live n s v e = absurd cc
take_reply-IsRound p old k i c d out_of_fuel w u few at live n s v e = absurd cc

-- What `read_handler` does after `socket_recv`.
after_recv-IsRound :
    (p : ℕ) (old : List ℕ) (fuel : ℕ) (k : SendRecv) (i : ℕ) (c d : Client) (w u : Worker)
    → p < 2 ^ 32
    → get_elem? w.conns i ≡ some (some c)
    → c.requests < p
    → d.requests ≡ c.requests
    → d.is_skip ≡ c.is_skip
    → IsRound p old w
    → (ret : ℤ) (packet : Option (List ℕ))
    → elim ret [
      | negsuc m ↦ some (put i (some d) w)
      | pos zero ↦ some (close_client i w)
      | pos (suc m) ↦ elim packet [ none ↦ none | some q ↦ take_reply p k i d (judge fuel k q) w ]
    ]
      ≡ some u
    → IsRound p old u
after_recv-IsRound p old fuel k i c d w u few at live n s v (negsuc m) packet e =
    some_rule (IsRound p old) (put i (some d) w) u
      (put-IsRound p old i c d w at (rw n live) live s v) e
after_recv-IsRound p old fuel k i c d w u few at live n s v (pos zero) packet e =
    some_rule (IsRound p old) (close_client i w) u (close_client-IsRound p old i c w at live v) e
after_recv-IsRound p old fuel k i c d w u few at live n s v (pos (suc m)) none e = absurd cc
after_recv-IsRound p old fuel k i c d w u few at live n s v (pos (suc m)) (some q) e =
    take_reply-IsRound p old k i c d (judge fuel k q) w u few at live n s v e

pub Turn-IsRound :
    {p : ℕ} {old : List ℕ} {k : SendRecv} {w u : Worker}
    → p < 2 ^ 32
    → Turn p k w u
    → IsRound p old w
    → IsRound p old u
unfolding read_handler
Turn-IsRound {p} {old} {k} {w} {u} few (turn fuel maxrecvs head body i c at live e) v =
    let r = socket_recv maxrecvs head body c.socket in
    after_recv-IsRound p old fuel k i c (record c { socket = r.conn }) w u few at live refl refl v
      r.ret r.packet (rw (read_handler, at) at e)
