-- ===== src/Loop/Serve.antt =====
-- The worker's side: `notify_handler`, what `read_handler` does with what it received, and
-- `socket_close`.
use rt_csp.Base.{
  ℕ, zero, suc, true, false, Option, none, List, [], ◌∷◌, ◌++◌, ◌==◌, if◌then◌else◌, get_elem?, pos,
  negsuc,
}
use rt_csp.Queue.Fifo.{push, front, rest}
use rt_csp.Conn.{remove_conn, clean_conn, modify}
use rt_csp.Socket.{Recv, socket_recv}
use rt_csp.Loop.{
  Worker, Server, Run, ok, fault, ◌>>=◌, lift, lift_removal, with_table, set_worker, is_accept_conn,
}

-- A connection is closed: `clean_conn`, the hooks, `remove_conn`, and connections are welcome again.
unfoldable pub close_conn : Server → ℕ → Run Server
close_conn s p = do
  t ← lift (clean_conn s.table p)
  t' ← lift_removal (remove_conn t p)
  ok (is_accept_conn true (with_table s t'))

-- Byte `x`: the oldest connection of the close queue. The queue must not be empty.
unfoldable pub notify_close : Server → ℕ → Worker → Run Server
notify_close s i w = do
  p ← lift (front w.close_queue)
  close_conn (set_worker s i (record w { close_queue = rest w.close_queue })) p

-- Byte `l`: the oldest connection of the accept queue is watched from now on. The queue must not be
-- empty, and the connection must be this worker's.
unfoldable pub notify_accept : Server → ℕ → Worker → Run Server
notify_accept s i w = do
  p ← lift (front w.accept_queue)
  c ← lift ((s.table).conns p)
  t ← if c.thread == i then lift (modify s.table p λ c. record c { watched = true }) else fault
  ok (with_table (set_worker s i (record w { accept_queue = rest w.accept_queue })) t)

-- One byte in `notify_handler` of worker `i`.
unfoldable pub notify_byte : ℕ → Server → ℕ → Run Server
notify_byte b s i = do
  w ← lift (get_elem? s.workers i)
  if b == b'x'
      then notify_close s i w
      else if b == b'-'
      then ok (set_worker s i (record w { stopped = true }))
      else if b == b'l'
      then notify_accept s i w
      else ok s

-- Reads the next byte of the pipe, if there is one, and handles it.
unfoldable pub notify_next : Server → ℕ → Run Server
notify_next s i = do
  w ← lift (get_elem? s.workers i)
  elim w.pipe [ [] ↦ ok s | b ∷ bs ↦ notify_byte b (set_worker s i (record w { pipe = bs })) i ]

-- `read_handler` up to the packet that it hands to the hooks, if one is complete.
unfoldable pub read_handler :
    (rtcsp_maxrecvs : ℕ) (head : Recv) (body : ℕ → Recv)
    → Server
    → ℕ
    → Run (Server × Option (List ℕ))
unfolding close_conn
read_handler rtcsp_maxrecvs head body s p = do
  c ← lift ((s.table).conns p)
  let r = socket_recv rtcsp_maxrecvs head body c
  t ← lift (modify s.table p λ _. r.conn)
  elim r.ret [
    | negsuc k ↦ ok (with_table s t, none)
    | pos zero ↦ (do s' ← close_conn (with_table s t) p; ok (s', none))
    | pos (suc n) ↦ ok (with_table s t, r.packet)
  ]

-- `socket_close`, from any thread: at most once for each connection.
unfoldable pub socket_close : Server → ℕ → Run Server
socket_close s p = do
  c ← lift ((s.table).conns p)
  if c.refable
      then (do
        w ← lift (get_elem? s.workers c.thread)
        t ← lift (modify s.table p λ c. record c { refable = false })
        ok (
            with_table
              (set_worker s c.thread
                (record w { close_queue = push w.close_queue p; pipe = w.pipe ++ b'x' ∷ [] }))
              t))
      else ok s
