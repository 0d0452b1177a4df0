-- ===== src/Examples/Load.antt =====
-- The load generator: a worker with two connections, and a main thread with two workers.
use rt_csp.Base.{ℕ, ◌≡◌, refl, true, false, Option, none, some, List, [], ◌∷◌, ◌++◌, tally, arith}
use rt_csp.Conn.{Conn, new_conn}
use rt_csp.Socket.{
  failed, bytes, socket_recv, recv_at, recv_head, recv_data_len, head_value, recv_body, take_bytes,
}
use rt_csp.Bench.Window.{Stats, new_series, reset}
use rt_csp.Bench.Seconds.{Shows, run_seconds, timeout_req_handler-latest}
use rt_csp.Serialize.{serialize_string_ex}
use rt_csp.Serialize.Number.{print_nat, digits_to}
use rt_csp.Bench.Worker.{
  connect_all, begin_round, begin_all, close_client, send_next, send_request, tell_if_all,
  request_of, judge, take_reply, Client, SendRecv, Worker, worker_notify_handler, read_handler,
}
use rt_csp.Bench.Round.{at_busy, owed, IsWorker, turn, Turns}
use rt_csp.Bench.Rounds.{worker_notify_handler-told, worker_notify_handler-IsWorker}

abbrev stats : Stats
stats = record {
  all = new_series;
  ok = new_series;
  current_request_index = 3;
  requests = 0;
  ok_requests = 0;
  seconds = 8;
}

abbrev counts : List (ℕ × ℕ)
counts = (3, 2) ∷ (5, 5) ∷ []

timeout_req_handler-latest_example :
    Shows (run_seconds (reset stats) counts).all (3 ∷ 5 ∷ [])
    × Shows (run_seconds (reset stats) counts).ok (2 ∷ 5 ∷ [])
timeout_req_handler-latest_example =
    timeout_req_handler-latest stats counts (omega arith, (omega arith, tt))
      (omega arith, (omega arith, tt))

abbrev load : SendRecv
load = record { key = b'd' ∷ []; send_call = (true, b'?' ∷ []); recv_call = λ reply. true }

abbrev unconnected : Worker
unconnected = record {
  conns = [];
  complete_conn_num = 0;
  close_conn_num = 0;
  requests = 0;
  ok_requests = 0;
  told = [];
  sent = [];
  stopped = false;
}

-- The first and the third connection are made, each at its second try or the first.
abbrev answers : List (Option Conn × Option Conn × Option Conn)
answers =
    (none, some (new_conn 5), none) ∷ (none, none, none) ∷ (some (new_conn 6), none, none) ∷ []

connected-IsWorker : IsWorker (worker_notify_handler answers load b'c' unconnected)
connected-IsWorker = worker_notify_handler-IsWorker answers load unconnected refl (omega arith)

abbrev connected : Worker
connected = worker_notify_handler answers load b'c' unconnected

abbrev or_unconnected : Option Worker → Worker
or_unconnected none = unconnected
or_unconnected (some w) = w

abbrev reply : List ℕ
reply = b's' ∷ b':' ∷ b'1' ∷ b':' ∷ b'd' ∷ b';' ∷ b'!' ∷ []

-- A reply on the first connection, then the end of the second.
abbrev replied : Worker
replied = or_unconnected (
    read_handler 1 100 1 load (bytes (0 ∷ 0 ∷ 0 ∷ 7 ∷ [])) (λ _. bytes reply) 0
      (worker_notify_handler answers load b'n' connected))

abbrev half_closed : Worker
half_closed = or_unconnected (read_handler 1 100 1 load (bytes []) (λ _. failed) 1 replied)

abbrev fresh : ℕ → Client
fresh fd = record { socket = new_conn fd; requests = 0; is_skip = false }

both : Turns 1 load (worker_notify_handler answers load b'n' connected) half_closed
unfolding worker_notify_handler read_handler connect_all begin_round begin_all close_client
    send_next send_request tell_if_all request_of judge take_reply new_conn serialize_string_ex
    print_nat digits_to socket_recv recv_at recv_head recv_data_len head_value recv_body take_bytes
both =
    Turns.next {u = replied}
      (Turns.next (Turns.here refl) (
        turn 1 100 (bytes (0 ∷ 0 ∷ 0 ∷ 7 ∷ [])) (λ _. bytes reply) 0 (fresh 5) refl (omega arith)
          refl))
      (turn 1 100 (bytes []) (λ _. failed) 1 (fresh 6) refl (omega arith) refl)

worker_notify_handler-told_example :
    (half_closed.told ≡ connected.told ++ owed (tally (at_busy 1) half_closed.conns))
    × IsWorker half_closed
worker_notify_handler-told_example =
    worker_notify_handler-told answers 1 load connected half_closed (omega arith) (omega arith)
      connected-IsWorker both
