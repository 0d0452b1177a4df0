-- ===== src/Loop/Shutdown.antt =====
-- `signal_handler`: every connection is handed to its worker's close queue, and the workers are told
-- to end; and what a worker does when its event loop has ended.
use rt_csp.Base.{ℕ, Bool, false, List, [], ◌∷◌, ◌++◌, ◌==◌, if◌then◌else◌, get_elem?, map}
use rt_csp.Queue.Fifo.{push}
use rt_csp.Conn.{clean_conn, remove_conn}
use rt_csp.Conn
use rt_csp.Loop.{
  Worker, Server, Run, ok, ◌>>=◌, lift, lift_removal, with_table, set_worker, is_accept_conn_ex,
}

-- One slot of the array: its connection, if any, goes to the close queue of its worker, whether or
-- not it is there already.
unfoldable pub hand_over : Server → ℕ → Run Server
hand_over s p = if p == 0 then ok s else (do
  c ← lift ((s.table).conns p)
  w ← lift (get_elem? s.workers c.thread)
  ok (set_worker s c.thread (record w { close_queue = push w.close_queue p })))

-- The loop over `iconns`.
unfoldable pub hand_over_all : List ℕ → Server → Run Server
unfolding hand_over
hand_over_all [] s = ok s
hand_over_all (p ∷ ps) s = hand_over s p >>= hand_over_all ps

abbrev pub told_to_end : Worker → Worker
told_to_end w = record w { pipe = w.pipe ++ b'-' ∷ [] }

-- Up to the wait for the workers.
unfoldable pub signal_handler : ℕ → Bool → Server → Run Server
unfolding hand_over_all
signal_handler rtcsp_backlog deleted s = do
  u ← hand_over_all (s.table).iconns (is_accept_conn_ex rtcsp_backlog deleted false s)
  ok (record u { workers = map told_to_end u.workers })

-- `close_conn_free` on the items of one queue, in order.
unfoldable pub close_conn_free : List ℕ → Conn.Table → Run Conn.Table
close_conn_free [] t = ok t
close_conn_free (p ∷ ps) t = do
  t' ← lift (clean_conn t p)
  t'' ← lift_removal (remove_conn t' p)
  close_conn_free ps t''

-- The end of `worker_thread_handler`: the connections in both queues are closed.
unfoldable pub worker_end : Worker → Server → Run Server
unfolding close_conn_free
worker_end w s = do
  t ← close_conn_free w.accept_queue s.table
  t' ← close_conn_free w.close_queue t
  ok (with_table s t')
