-- ===== src/Bench/Rounds.antt =====
-- A whole round of a worker in bench_event.c, from its beginning on.
use rt_csp.Base.{
  ℕ, suc, ◌^◌, ◌<◌, ◌≤◌, ◌≡◌, refl, ap, sym, ◌∙◌, false, Option, none, some, List, [], ◌∷◌, ◌++◌,
  append_assoc, ◌==◌, length, length-append, set, set-append, tally, arith, if_cases,
}
use rt_csp.Conn.{Conn}
use rt_csp.Bench.Worker.{
  worker_notify_handler, connect_all, first_of, Client, SendRecv, Worker, conn_num, put,
  send_request, sent_by, request_of, begin_all, begin_round,
}
use rt_csp.Bench.Round.Replies.{Turn-IsRound}
use rt_csp.Bench.Round.{
  at_gone, at_busy, at_done, at_skip, owed, IsWorker, IsRound, Turns, here, next, all_counted,
  told_none, told_all,
}

-- What sending leaves as it is.
record IsAlike (w u : Worker) : Type 0 where
  conns : u.conns ≡ w.conns
  close : u.close_conn_num ≡ w.close_conn_num
  complete : u.complete_conn_num ≡ w.complete_conn_num
  told : u.told ≡ w.told

sent_by-IsAlike : (k : SendRecv) (i : ℕ) (w : Worker) → IsAlike w (sent_by k i w)
sent_by-IsAlike k i w =
    elim (request_of k)
      as (λ r.
        IsAlike w
          (elim r [ none ↦ w | some packet ↦ record w { sent = w.sent ++ (i, packet) ∷ [] } ])) [
            | none ↦ record { conns = refl; close = refl; complete = refl; told = refl }
            | some packet ↦ record { conns = refl; close = refl; complete = refl; told = refl }
          ]

-- The connections, each with no request counted.
abbrev fresh : List (Option Client) → List (Option Client)
fresh [] = []
fresh (none ∷ cs) = none ∷ fresh cs
fresh (some c ∷ cs) = some (record c { requests = 0 }) ∷ fresh cs

record IsBegun (pre cs : List (Option Client)) (w u : Worker) : Type 0 where
  conns : u.conns ≡ pre ++ fresh cs
  close : u.close_conn_num ≡ w.close_conn_num
  complete : u.complete_conn_num ≡ w.complete_conn_num
  told : u.told ≡ w.told

index_after :
    (pre : List (Option Client)) (i : ℕ) (c : Option Client)
    → length pre ≡ i
    → length (pre ++ c ∷ []) ≡ suc i
index_after pre i c e = omega (arith, length-append pre (c ∷ []))

begin_all-IsBegun :
    (k : SendRecv) (i : ℕ) (pre cs : List (Option Client)) (w : Worker)
    → length pre ≡ i
    → w.conns ≡ pre ++ cs
    → IsBegun pre cs w (begin_all k i cs w)
unfolding begin_all send_request
begin_all-IsBegun k i pre [] w at e = record {
  conns = e;
  close = refl;
  complete = refl;
  told = refl;
}
begin_all-IsBegun k i pre (none ∷ cs) w at e =
    let r =
      begin_all-IsBegun k (suc i) (pre ++ none ∷ []) cs w (index_after pre i none at)
        (e ∙ sym (append_assoc pre (none ∷ []) cs)) in
    record {
      conns = r.conns ∙ append_assoc pre (none ∷ []) (fresh cs);
      close = r.close;
      complete = r.complete;
      told = r.told;
    }
begin_all-IsBegun k i pre (some c ∷ cs) w at e =
    let d = some (record c { requests = 0 }) in
    let a = sent_by-IsAlike k i (put i d w) in
    let written : set w.conns i d ≡ pre ++ d ∷ cs = rw (e, ← at) (set-append pre cs (some c) d) in
    let r =
      begin_all-IsBegun k (suc i) (pre ++ d ∷ []) cs (sent_by k i (put i d w))
        (index_after pre i d at) (a.conns ∙ written ∙ sym (append_assoc pre (d ∷ []) cs)) in
    record {
      conns = r.conns ∙ append_assoc pre (d ∷ []) (fresh cs);
      close = r.close ∙ a.close;
      complete = r.complete ∙ a.complete;
      told = r.told ∙ a.told;
    }

length-fresh : (cs : List (Option Client)) → length (fresh cs) ≡ length cs
length-fresh [] = refl
length-fresh (none ∷ cs) = ap suc (length-fresh cs)
length-fresh (some c ∷ cs) = ap suc (length-fresh cs)

at_gone-fresh : (cs : List (Option Client)) → tally at_gone (fresh cs) ≡ tally at_gone cs
at_gone-fresh [] = refl
at_gone-fresh (none ∷ cs) = omega (arith, at_gone-fresh cs)
at_gone-fresh (some c ∷ cs) = omega (arith, at_gone-fresh cs)

at_skip-fresh : (cs : List (Option Client)) → tally at_skip (fresh cs) ≡ tally at_skip cs
at_skip-fresh [] = refl
at_skip-fresh (none ∷ cs) = omega (arith, at_skip-fresh cs)
at_skip-fresh (some c ∷ cs) = omega (arith, at_skip-fresh cs)

at_done-fresh : (p : ℕ) (cs : List (Option Client)) → 1 ≤ p → tally (at_done p) (fresh cs) ≡ 0
at_done-fresh p [] h = refl
at_done-fresh p (none ∷ cs) h = omega (arith, at_done-fresh p cs h)
at_done-fresh p (some c ∷ cs) h = ground (arith, at_done-fresh p cs h)

begin_round-IsRound :
    (p : ℕ) (k : SendRecv) (w : Worker)
    → 1 ≤ p
    → IsWorker w
    → IsRound p w.told (begin_round b'n' k w)
unfolding begin_round
begin_round-IsRound p k w some_requests v =
    let w' = record w { requests = 0; ok_requests = 0; complete_conn_num = 0 } in
    if_cases (λ u. IsRound p w.told u) (w.close_conn_num == conn_num w)
      (record w' { told = w.told ++ b'n' ∷ [] }) (begin_all k 0 w.conns w')
      (λ all_closed.
        let sizes = all_counted p w.conns in
        record {
          worker = record { closed = v.closed; unskipped = v.unskipped; small = v.small };
          complete = ground (arith, v.closed);
          told_once =
              told_all w.told w.told (tally (at_busy p) w.conns) refl (ground (arith, v.closed));
        })
      (λ some_open.
        let r = begin_all-IsBegun k 0 [] w.conns w' refl refl in
        let sizes = all_counted p (fresh w.conns) in
        let gone = at_gone-fresh w.conns in
        let size = length-fresh w.conns in
        let done = at_done-fresh p w.conns some_requests in
        record {
          worker = record {
            closed = rw r.conns (r.close ∙ v.closed ∙ sym gone);
            unskipped = rw r.conns (at_skip-fresh w.conns ∙ v.unskipped);
            small = rw r.conns (omega (arith, v.small));
          };
          complete = rw r.conns (r.complete ∙ sym done);
          told_once = rw r.conns (
              told_none (begin_all k 0 w.conns w').told w.told (tally (at_busy p) (fresh w.conns))
                r.told (λ z. ground (arith, v.closed)));
        })

Turns-IsRound :
    {p : ℕ} {old : List ℕ} {k : SendRecv} {w u : Worker}
    → p < 2 ^ 32
    → Turns p k w u
    → IsRound p old w
    → IsRound p old u
Turns-IsRound few (here e) v = rw e v
Turns-IsRound few (next ts t) v = Turn-IsRound few t (Turns-IsRound few ts v)

-- A worker that gets the letter `n`, with the right count of closed connections, no `N` left over and
-- fewer than 2^32 connections, then takes any number of turns on connections that still wait for a
-- reply, whatever the kernel and the module answer: it has told the main thread `n` exactly once if no
-- connection waits any more, and nothing before that, and between two turns the same can be said of it
-- as at the beginning. The number of requests for each connection is positive and below 2^32. Two
-- things must not happen meanwhile: the letter `N`, and a turn on a connection that has had all its
-- replies, as when its peer closes it.
pub worker_notify_handler-told :
    (answers : List (Option Conn × Option Conn × Option Conn)) (p : ℕ) (k : SendRecv) (w u : Worker)
    → 1 ≤ p
    → p < 2 ^ 32
    → IsWorker w
    → Turns p k (worker_notify_handler answers k b'n' w) u
    → (u.told ≡ w.told ++ owed (tally (at_busy p) u.conns)) × IsWorker u
unfolding worker_notify_handler
worker_notify_handler-told answers p k w u some_requests few v ts =
    let r = Turns-IsRound few ts (begin_round-IsRound p k w some_requests v) in
    (r.told_once, r.worker)

abbrev IsNew : List (Option Client) → ℕ → Type 0
IsNew cs n = (tally at_gone cs ≡ 0) × (tally at_skip cs ≡ 0) × (length cs ≤ n)

connect_all-IsNew :
    (answers : List (Option Conn × Option Conn × Option Conn))
    → IsNew (connect_all answers) (length answers)
unfolding connect_all
connect_all-IsNew [] = (refl, refl, omega arith)
connect_all-IsNew ((a, b, c) ∷ answers) =
    let r = connect_all-IsNew answers in
    elim (first_of (a ∷ b ∷ c ∷ []))
      as (λ o.
        IsNew
          (elim o [
            | none ↦ connect_all answers
            | some s ↦
                some (record { socket = s; requests = 0; is_skip = false }) ∷ connect_all answers
          ])
          (suc (length answers))) [
            | none ↦ (r.0, r.1, omega (arith, r.2))
            | some s ↦ (omega (arith, r.0), omega (arith, r.1), omega (arith, r.2))
          ]

-- A worker without closed connections that makes its connections is ready for a round, whatever the
-- kernel answers, if it tries fewer than 2^32.
pub worker_notify_handler-IsWorker :
    (answers : List (Option Conn × Option Conn × Option Conn)) (k : SendRecv) (w : Worker)
    → w.close_conn_num ≡ 0
    → length answers < 2 ^ 32
    → IsWorker (worker_notify_handler answers k b'c' w)
unfolding worker_notify_handler
worker_notify_handler-IsWorker answers k w none_closed few =
    let r = connect_all-IsNew answers in
    record { closed = omega (arith, r.0); unskipped = r.1; small = omega (arith, r.2) }
