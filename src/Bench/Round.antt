-- ===== src/Bench/Round.antt =====
-- One round of a worker in bench_event.c: from the letter `n` to the letter that it writes back.
pub mod Replies
use rt_csp.Base.{
  ℕ, zero, suc, ◌+◌, ◌%◌, ◌^◌, ◌<◌, ◌≤◌, ◌≡◌, ◌≢◌, refl, Bool, true, false, ◌&&◌, not, Option, none,
  some, List, [], ◌∷◌, ◌++◌, append-nil, ◌==◌, ltb, if◌then◌else◌, length, length-set, get_elem?,
  set, tally, tally-set, arith, if_cases, some_rule, ℤ, pos, negsuc,
}
use rt_csp.Socket.{Recv, socket_recv}
use rt_csp.Bench.Worker.{
  Client, SendRecv, Worker, conn_num, put, tell_if_all, close_client, send_next, send_request,
  sent_by, request_of, count_reply, take_reply, Verdict, right, wrong, crashed, out_of_fuel, judge,
  read_handler,
}

abbrev pub at_gone : Option Client → ℕ
at_gone none = 1
at_gone (some c) = 0

-- A connection that still waits for replies of the round.
abbrev pub at_busy : ℕ → Option Client → ℕ
at_busy p none = 0
at_busy p (some c) = if ltb c.requests p then 1 else 0

abbrev pub at_done : ℕ → Option Client → ℕ
at_done p none = 0
at_done p (some c) = if ltb c.requests p then 0 else 1

abbrev pub at_skip : Option Client → ℕ
at_skip none = 0
at_skip (some c) = if c.is_skip then 1 else 0

-- What the worker is to have told in a round, with so many connections that still wait.
abbrev pub owed : ℕ → List ℕ
owed zero = b'n' ∷ []
owed (suc n) = []

-- Between two rounds: the count of closed connections is right, and no `N` is left over.
pub record IsWorker (w : Worker) : Type 0 where
  pub closed : w.close_conn_num ≡ tally at_gone w.conns
  pub unskipped : tally at_skip w.conns ≡ 0
  pub small : length w.conns < 2 ^ 32

-- In a round that began when `old` was told.
pub record IsRound (p : ℕ) (old : List ℕ) (w : Worker) : Type 0 where
  pub worker : IsWorker w
  pub complete : w.complete_conn_num ≡ tally (at_done p) w.conns
  pub told_once : w.told ≡ old ++ owed (tally (at_busy p) w.conns)

-- A turn of `read_handler` on a connection that waits for a reply.
pub data Turn (p : ℕ) (k : SendRecv) (w u : Worker) : Type 0 where
  turn :
      (fuel maxrecvs : ℕ) (head : Recv) (body : ℕ → Recv) (i : ℕ) (c : Client)
      → get_elem? w.conns i ≡ some (some c)
      → c.requests < p
      → read_handler fuel maxrecvs p k head body i w ≡ some u
      → Turn p k w u

pub data Turns (p : ℕ) (k : SendRecv) (w : Worker) : Worker → Type 0 where
  here : {u : Worker} → u ≡ w → Turns p k w u
  next : {u v : Worker} → Turns p k w u → Turn p k u v → Turns p k w v

pub all_counted :
    (p : ℕ) (cs : List (Option Client))
    → tally at_gone cs + tally (at_busy p) cs + tally (at_done p) cs ≡ length cs
all_counted p [] = refl
all_counted p (none ∷ cs) = omega (arith, all_counted p cs)
all_counted p (some c ∷ cs) = let rest = all_counted p cs in ground (arith, rest)

-- How the tallies change when the connection at index `i` goes from `a` to `b`.
abbrev Moves : ℕ → List (Option Client) → ℕ → Option Client → Option Client → Type 0
Moves p cs i a b =
    (tally at_gone (set cs i b) + at_gone a ≡ tally at_gone cs + at_gone b)
    × (tally (at_busy p) (set cs i b) + at_busy p a ≡ tally (at_busy p) cs + at_busy p b)
    × (tally (at_done p) (set cs i b) + at_done p a ≡ tally (at_done p) cs + at_done p b)
    × (tally at_skip (set cs i b) + at_skip a ≡ tally at_skip cs + at_skip b)

moves :
    (p : ℕ) (cs : List (Option Client)) (i : ℕ) (a b : Option Client)
    → get_elem? cs i ≡ some a
    → Moves p cs i a b
moves p cs i a b e = (
  tally-set at_gone cs i a b e,
  tally-set (at_busy p) cs i a b e,
  tally-set (at_done p) cs i a b e,
  tally-set at_skip cs i a b e,
)

owed_none : (busy : ℕ) → busy ≢ 0 → owed busy ≡ []
owed_none zero f = absurd (f refl)
owed_none (suc n) f = refl

pub told_all :
    (told old : List ℕ) (busy : ℕ) → told ≡ old → busy ≡ 0 → told ++ b'n' ∷ [] ≡ old ++ owed busy
told_all told old busy e z = rw (z, e) refl

pub told_none : (told old : List ℕ) (busy : ℕ) → told ≡ old → busy ≢ 0 → told ≡ old ++ owed busy
told_none told old busy e f = rw (owed_none busy f, append-nil old) e

untold : (told old : List ℕ) (busy : ℕ) → told ≡ old ++ owed busy → busy ≢ 0 → told ≡ old
untold told old busy e f = rw (owed_none busy f, append-nil old) at e

-- The worker tells in time: `told` before the test is what was told when the round began, and the two
-- counts are right.
tell_if_all-IsRound :
    (p : ℕ) (old : List ℕ) (w : Worker)
    → IsWorker w
    → w.complete_conn_num ≡ tally (at_done p) w.conns
    → w.told ≡ old
    → IsRound p old (tell_if_all w)
unfolding tell_if_all
tell_if_all-IsRound p old w v done e =
    let sizes = all_counted p w.conns in
    let busy = tally (at_busy p) w.conns in
    if_cases (λ u. IsRound p old u) (w.close_conn_num + w.complete_conn_num == conn_num w)
      (record w { told = w.told ++ b'n' ∷ [] }) w
      (λ all. record {
        worker = record { closed = v.closed; unskipped = v.unskipped; small = v.small };
        complete = done;
        told_once = told_all w.told old busy e (ground (arith, v.closed));
      })
      (λ some_left. record {
        worker = v;
        complete = done;
        told_once = told_none w.told old busy e (λ z. ground (arith, v.closed));
      })

-- While a connection waits, nothing is told.
IsRound-untold :
    (p : ℕ) (old : List ℕ) (i : ℕ) (c : Client) (w : Worker)
    → get_elem? w.conns i ≡ some (some c)
    → c.requests < p
    → IsRound p old w
    → w.told ≡ old
IsRound-untold p old i c w at live v =
    untold w.told old (tally (at_busy p) w.conns) v.told_once
      (λ z. ground (arith, tally-set (at_busy p) w.conns i (some c) none at))

close_client-IsRound :
    (p : ℕ) (old : List ℕ) (i : ℕ) (c : Client) (w : Worker)
    → get_elem? w.conns i ≡ some (some c)
    → c.requests < p
    → IsRound p old w
    → IsRound p old (close_client i w)
unfolding close_client
close_client-IsRound p old i c w at live v =
    let m = moves p w.conns i (some c) none at in
    let sizes = all_counted p w.conns in
    let size = length-set w.conns i none in
    tell_if_all-IsRound p old
      (put i none (record w { close_conn_num = (w.close_conn_num + 1) % 2 ^ 32 }))
      (record {
        closed = ground (arith, v.worker.closed, v.worker.small);
        unskipped = ground (arith, v.worker.unskipped);
        small = omega (arith, v.worker.small);
      })
      (ground (arith, v.complete)) (IsRound-untold p old i c w at live v)

-- The same connection, with more in its buffer.
put-IsRound :
    (p : ℕ) (old : List ℕ) (i : ℕ) (c d : Client) (w : Worker)
    → get_elem? w.conns i ≡ some (some c)
    → d.requests < p
    → c.requests < p
    → d.is_skip ≡ c.is_skip
    → IsRound p old w
    → IsRound p old (put i (some d) w)
put-IsRound p old i c d w at more live same v =
    let m = moves p w.conns i (some c) (some d) at in
    let size = length-set w.conns i (some d) in
    let busy : tally (at_busy p) (set w.conns i (some d)) ≡ tally (at_busy p) w.conns =
      ground (arith, m) in
    record {
      worker = record {
        closed = ground (arith, v.worker.closed);
        unskipped = ground (arith, v.worker.unskipped);
        small = omega (arith, v.worker.small);
      };
      complete = ground (arith, v.complete);
      told_once = rw busy v.told_once;
    }
