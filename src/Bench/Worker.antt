-- ===== src/Bench/Worker.antt =====
-- bench_event.c: `send_request`, `read_handler` and `worker_notify_handler`, on the state of one worker
-- thread. Times, which are floating point, are left out. What the kernel answers, the functions of the
-- module that is measured, and the addresses of new objects are arguments.
use rt_csp.Base.{
  ℕ, zero, suc, ◌+◌, ◌%◌, ◌^◌, Bool, true, false, ◌&&◌, ◌||◌, not, Option, none, some, List, [],
  ◌∷◌, ◌++◌, ◌==◌, ltb, if◌then◌else◌, length, get_elem?, set, drop, str_eq, pos, negsuc,
}
use rt_csp.Conn.{Conn}
use rt_csp.Socket.{Recv, socket_recv, packet_of}
use rt_csp.Serialize.{string, serialize_string_ex}
use rt_csp.Serialize.Elements.{Parsed, read, invalid, starved, until_nul}
use rt_csp.Serialize.Parse.{blank, _serialize_parse}

-- conn_t of bench.h: the socket with its buffer, and the count of requests of the round.
pub record Client : Type 0 where
  pub socket : Conn
  pub requests : ℕ
  pub is_skip : Bool

-- conn_send_recv_t, as far as it is set before a run. A function of the module gives its answer and, if
-- it sends, the text that it appends.
pub record SendRecv : Type 0 where
  pub key : List ℕ
  pub send_call : Bool × List ℕ
  pub recv_call : List ℕ → Bool

-- worker_thread_t. `told` holds the letters that the worker writes to the main thread, `sent` the
-- packets that it sends, with the index of their connection.
pub record Worker : Type 0 where
  pub conns : List (Option Client)
  pub complete_conn_num : ℕ
  pub close_conn_num : ℕ
  pub requests : ℕ
  pub ok_requests : ℕ
  pub told : List ℕ
  pub sent : List (ℕ × List ℕ)
  pub stopped : Bool

-- `conn_num`: the connections that were made, those closed since included.
abbrev pub conn_num : Worker → ℕ
conn_num w = length w.conns

-- The packet that `send_request` sends, if any.
unfoldable pub request_of : SendRecv → Option (List ℕ)
unfolding serialize_string_ex packet_of
request_of k =
    if (k.send_call).0
    then packet_of (serialize_string_ex string (some k.key) ++ (k.send_call).1)
    else none

abbrev pub sent_by : SendRecv → ℕ → Worker → Worker
sent_by k i w = elim (request_of k) [
  | none ↦ w
  | some p ↦ record w { sent = w.sent ++ (i, p) ∷ [] }
]

unfoldable pub send_request : SendRecv → ℕ → Worker → Worker
unfolding request_of
send_request k i w = sent_by k i w

-- What `read_handler` makes of a packet: a reply that counts as right, or one that does not. A key of
-- length 0 is NULL, which `strcmp` reads through.
pub data Verdict : Type 0 where
  right : Verdict
  wrong : Verdict
  crashed : Verdict
  out_of_fuel : Verdict

abbrev pub with_key : SendRecv → List ℕ → Parsed (Option (List ℕ)) → Verdict
with_key k packet (read none n) = crashed
with_key k packet (read (some key) n) =
    if not (str_eq k.key (until_nul key))
    then wrong
    else if k.recv_call (drop n packet)
    then right
    else wrong
with_key k packet invalid = wrong
with_key k packet starved = out_of_fuel

unfoldable pub judge : ℕ → SendRecv → List ℕ → Verdict
unfolding _serialize_parse
judge fuel k packet =
    with_key k packet (_serialize_parse blank fuel string none packet (length packet))

-- `n` for the main thread, once all connections are complete or closed.
unfoldable pub tell_if_all : Worker → Worker
tell_if_all w =
    if w.close_conn_num + w.complete_conn_num == conn_num w
    then record w { told = w.told ++ b'n' ∷ [] }
    else w

abbrev pub put : ℕ → Option Client → Worker → Worker
put i c w = record w { conns = set w.conns i c }

-- The end of the connection at index `i`.
unfoldable pub close_client : ℕ → Worker → Worker
unfolding tell_if_all
close_client i w =
    tell_if_all (put i none (record w { close_conn_num = (w.close_conn_num + 1) % 2 ^ 32 }))

-- After a reply on connection `c` at index `i`: the next request, or the connection is complete.
unfoldable pub send_next : ℕ → SendRecv → ℕ → Client → Worker → Worker
unfolding send_request tell_if_all
send_next preconn_requests k i c w =
    let n = (c.requests + 1) % 2 ^ 32 in
    if ltb n preconn_requests && not c.is_skip
    then send_request k i (put i (some (record c { requests = n })) w)
    else tell_if_all (
        put i (some (record c { requests = n; is_skip = false }))
          (record w { complete_conn_num = (w.complete_conn_num + 1) % 2 ^ 32 }))

-- A reply is counted, as a success if it is right.
abbrev pub count_reply : Bool → Worker → Worker
count_reply ok w = record w {
  requests = (w.requests + 1) % 2 ^ 32;
  ok_requests = (if ok then (w.ok_requests + 1) % 2 ^ 32 else w.ok_requests);
}

-- A packet on the connection `c` at index `i`. `none` is a crash, or too little fuel.
unfoldable pub take_reply : ℕ → SendRecv → ℕ → Client → Verdict → Worker → Option Worker
unfolding send_next
take_reply preconn_requests k i c right w =
    some (send_next preconn_requests k i c (count_reply true w))
take_reply preconn_requests k i c wrong w =
    some (send_next preconn_requests k i c (count_reply false w))
take_reply preconn_requests k i c crashed w = none
take_reply preconn_requests k i c out_of_fuel w = none

-- `read_handler` on the connection at index `i`.
unfoldable pub read_handler :
    (fuel maxrecvs preconn_requests : ℕ)
    → SendRecv
    → (head : Recv) (body : ℕ → Recv) → ℕ
    → Worker
    → Option Worker
unfolding close_client judge take_reply
read_handler fuel maxrecvs preconn_requests k head body i w = elim (get_elem? w.conns i) [
  | none ↦ none
  | some none ↦ none
  | some (some c) ↦
      let r = socket_recv maxrecvs head body c.socket in
      let c' = record c { socket = r.conn } in
      elim r.ret [
        | negsuc m ↦ some (put i (some c') w)
        | pos zero ↦ some (close_client i w)
        | pos (suc m) ↦ elim r.packet [
          | none ↦ none
          | some p ↦ take_reply preconn_requests k i c' (judge fuel k p) w
        ]
      ]
]

-- Letter `N`: every connection is to stop at its next reply.
unfoldable pub skip_all : List (Option Client) → List (Option Client)
skip_all [] = []
skip_all (none ∷ cs) = none ∷ skip_all cs
skip_all (some c ∷ cs) = some (record c { is_skip = true }) ∷ skip_all cs

-- Letters `n` and `b`: the loop that begins a round, from index `i` on.
unfoldable pub begin_all : SendRecv → ℕ → List (Option Client) → Worker → Worker
unfolding send_request
begin_all k i [] w = w
begin_all k i (none ∷ cs) w = begin_all k (suc i) cs w
begin_all k i (some c ∷ cs) w =
    begin_all k (suc i) cs (send_request k i (put i (some (record c { requests = 0 })) w))

unfoldable pub begin_round : ℕ → SendRecv → Worker → Worker
unfolding begin_all
begin_round chr k w =
    let w' = record w { requests = 0; ok_requests = 0; complete_conn_num = 0 } in
    if w.close_conn_num == conn_num w
    then record w' { told = w.told ++ chr ∷ [] }
    else begin_all k 0 w.conns w'

-- Letter `c`: the loop of `socket_connect`, each with three tries. `answers` are the results.
abbrev pub first_of : List (Option Conn) → Option Conn
first_of [] = none
first_of (none ∷ rest) = first_of rest
first_of (some c ∷ rest) = some c

unfoldable pub connect_all : List (Option Conn × Option Conn × Option Conn) → List (Option Client)
connect_all [] = []
connect_all ((a, b, c) ∷ answers) = elim (first_of (a ∷ b ∷ c ∷ [])) [
  | none ↦ connect_all answers
  | some s ↦ some (record { socket = s; requests = 0; is_skip = false }) ∷ connect_all answers
]

-- Letter `-`: all connections are closed and freed.
unfoldable pub close_all : List (Option Client) → List (Option Client)
close_all [] = []
close_all (c ∷ cs) = none ∷ close_all cs

-- One letter in `worker_notify_handler`. `k` is the current `send_recv`.
unfoldable pub worker_notify_handler :
    (answers : List (Option Conn × Option Conn × Option Conn)) → SendRecv → ℕ → Worker → Worker
unfolding skip_all begin_round connect_all close_all
worker_notify_handler answers k chr w =
    if chr == b'N'
    then record w { conns = skip_all w.conns }
    else if (chr == b'n') || (chr == b'b')
    then begin_round chr k w
    else if chr == b'c'
    then record w { conns = connect_all answers; told = w.told ++ b'c' ∷ [] }
    else if chr == b'-'
    then record w { conns = close_all w.conns; stopped = true }
    else w
