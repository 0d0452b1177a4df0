-- ===== src/Loop/Listen.antt =====
-- `listen_handler`: a connection is accepted or denied.
use rt_csp.Base.{
  ℕ, ◌-◌, ◌%◌, Bool, true, false, not, Option, none, some, List, [], ◌∷◌, ◌++◌, ◌==◌, leb,
  if◌then◌else◌, length, get_elem?, update,
}
use rt_csp.Queue.Fifo.{push}
use rt_csp.Conn.{new_conn, insert_conn, remove_conn, clean_conn, _conn_num, modify}
use rt_csp.Conn
use rt_csp.Loop.{
  Worker, Server, Run, ok, ◌>>=◌, lift, lift_removal, with_table, set_worker, is_accept_conn_ex,
}

-- The hooks `conn_accept` of the modules, NULL ones left out, in order: the loop stops at the first
-- that refuses.
unfoldable pub all_accept : List (Conn.Conn → Bool) → Conn.Conn → Bool
all_accept [] c = true
all_accept (accept ∷ rest) c = if not (accept c) then false else all_accept rest c

-- The worker that serves a connection: `(index - 1) % rtcsp_nthreads`.
unfoldable pub worker_of : ℕ → ℕ → Option ℕ
worker_of index nthreads = if index == 0 then none else some ((index - 1) % nthreads)

-- Puts a connection in the worker's queue and tells it so.
abbrev pub enqueue : Worker → ℕ → Worker
enqueue w p = record w { accept_queue = push w.accept_queue p; pipe = w.pipe ++ b'l' ∷ [] }

-- Too many connections: no more are accepted, and this one, which is in no slot, is cleaned and freed.
-- The hooks `conn_denied` leave the server's state alone.
unfoldable pub deny : ℕ → Bool → Server → ℕ → ℕ → Run Server
deny rtcsp_backlog deleted s p fd =
    let u = is_accept_conn_ex rtcsp_backlog deleted false s in
    let t = record u.table { conns = update (u.table).conns p (some (new_conn fd)) } in
    lift (clean_conn t p) >>= λ t'. ok (with_table u (record t' { conns = update t'.conns p none }))

-- After the hooks: the connection goes to its worker, or is closed and removed.
unfoldable pub settle : Bool → Server → ℕ → ℕ → Run Server
settle accepted s p i =
    if accepted
    then (do w ← lift (get_elem? s.workers i); ok (set_worker s i (enqueue w p)))
    else (do
      t ← lift (clean_conn s.table p)
      t' ← lift_removal (remove_conn t p)
      ok (with_table s t'))

-- `p` is the address of the new object.
unfoldable pub admit : List (Conn.Conn → Bool) → Server → ℕ → ℕ → Run Server
unfolding settle
admit hooks s p fd = do
  t ←
      lift
        (insert_conn (record s.table { conns = update (s.table).conns p (some (new_conn fd)) }) p)
  c ← lift (t.conns p)
  i ← lift (worker_of c.index (length s.workers))
  t' ← lift (modify t p λ c. record c { thread = i })
  c' ← lift (t'.conns p)
  settle (all_accept hooks c') (with_table s t') p i

-- `fd` is what `accept` returns, 0 if that is not positive.
unfoldable pub listen_handler :
    (rtcsp_backlog rtcsp_maxclients : ℕ) (deleted : Bool) (hooks : List (Conn.Conn → Bool))
    → Server
    → (p fd : ℕ) → Run Server
unfolding admit deny
listen_handler rtcsp_backlog rtcsp_maxclients deleted hooks s p fd =
    if fd == 0
    then ok s
    else if leb rtcsp_maxclients (_conn_num s.table)
    then deny rtcsp_backlog deleted s p fd
    else admit hooks s p fd
