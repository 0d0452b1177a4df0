-- ===== src/Examples/Threads.antt =====
-- The locks of conn.c and the server of loop_event.c with few threads.
use rt_csp.Base.{Option, List, tally, ℕ, ◌≤◌, ◌≡◌, ◌⊎◌, refl, true, false, [], ◌∷◌}
use rt_csp.Conn.{new_conn, attach_conn, insert_conn, _conn_num}
use rt_csp.Conn.Lock.{
  Pc, writing, entering, reading, Lock, initial, begin_write, open_reading, at_writing, at_reading,
  Reach-exclusive,
}
use rt_csp.Conn.Lock
use rt_csp.Loop.{Worker, Server, Run, ok, ◌>>=◌}
use rt_csp.Loop.Listen.{listen_handler, admit, settle, worker_of, all_accept}
use rt_csp.Loop.Serve.{
  socket_close, close_conn, notify_next, notify_byte, notify_accept, read_handler,
}
use rt_csp.Socket.{bytes, failed, socket_recv, recv_at, recv_head, recv_data_len}
use rt_csp.Conn
use rt_csp.Loop.{fault, is_accept_conn}
use rt_csp.Conn.{clean_conn, remove_conn, remove_unlink, remove_free}
use rt_csp.Loop.Twice.{notify_next-freed}
use rt_csp.Loop.Reach.{Config, loop_start}
use rt_csp.Loop.Reach

-- One thread waits in `begin_read_lock` while another writes.
abbrev contended : Lock.Lock
contended = record {
  readers = 1;
  mx_reader = true;
  mx_writer = true;
  threads = writing ∷ entering ∷ [];
}

contended-Reach : Lock.Reach 2 contended
unfolding initial
contended-Reach =
    Lock.next (Lock.next (Lock.here refl) (begin_write 0 refl refl refl))
      (open_reading 1 refl refl refl refl)

Reach-exclusive_example :
    (tally at_writing contended.threads ≤ 1)
    × ((tally at_writing contended.threads ≡ 0) ⊎ (tally at_reading contended.threads ≡ 0))
    × (contended.mx_reader ≡ false → contended.readers ≡ tally at_reading contended.threads)
Reach-exclusive_example = Reach-exclusive 2 contended contended-Reach

-- A server with one worker and room for two connections.
abbrev small : Config
small = record {
  rtcsp_backlog = 5;
  rtcsp_maxclients = 3;
  rtcsp_maxrecvs = 100;
  rtcsp_nthreads = 1;
  hooks = [];
}

abbrev or_start : Run Server → Server
or_start (ok s) = s
or_start _ = loop_start 5 3 1

-- A connection has been accepted and its worker has not been woken yet.
abbrev admitted : Server
admitted = or_start (listen_handler 5 3 true [] (loop_start 5 3 1) 7 9)

abbrev woken : Worker
woken = record { accept_queue = 7 ∷ []; close_queue = []; pipe = b'l' ∷ []; stopped = false }

abbrev letter : ℕ
letter = b'l'

-- The worker serves the connection, the server closes it, and then the peer has gone.
abbrev served : Server
served = or_start (notify_next admitted 0)

abbrev closing : Server
closing = or_start (socket_close served 7)

abbrev left_by : Run (Server × Option (List ℕ)) → Server
left_by (ok r) = r.0
left_by _ = loop_start 5 3 1

abbrev gone : Server
gone = left_by (read_handler 100 (bytes []) (λ _. failed) closing 7)

abbrev told : Worker
told = record { accept_queue = []; close_queue = 7 ∷ []; pipe = b'x' ∷ []; stopped = false }

abbrev closed_conn : Conn.Conn
closed_conn = record (new_conn 9) {
  index = 1;
  thread = 0;
  watched = true;
  opened = true;
  refable = false;
}

notify_next-freed_example : notify_next gone 0 ≡ fault
unfolding read_handler notify_next notify_byte notify_accept socket_recv recv_at recv_head
    close_conn clean_conn remove_conn remove_unlink remove_free is_accept_conn socket_close
    listen_handler admit settle worker_of all_accept loop_start attach_conn insert_conn new_conn
    _conn_num recv_data_len ◌>>=◌
notify_next-freed_example =
    notify_next-freed 100 (bytes []) (λ _. failed) closing gone 7 0 closed_conn told [] refl refl
      refl refl refl refl
