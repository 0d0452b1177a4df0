-- ===== src/Loop.antt =====
-- loop_event.h and loop_event.c: the listening thread and the worker threads of the server, and
-- `socket_close` of socket.c, which hands a connection to its worker.
--
-- Each thread runs one handler at a time, and the handlers touch shared state under locks or through
-- pipes, so a handler, or a handler's turn on one byte, is a step on the state. The hooks of the
-- modules are arguments; they are taken to leave the server's state alone.
pub mod Listen
pub mod Serve
pub mod Hooks
pub mod Shutdown
pub mod Tokens
pub mod Reach
pub mod Accepting
pub mod Dispatch
pub mod Twice
pub mod Lifecycle
use rt_csp.Base.{
  ℕ, zero, suc, ◌+◌, ◌-◌, ◌%◌, ◌≡◌, Bool, true, false, ◌&&◌, not, Option, none, some, List, [], ◌∷◌,
  ◌++◌, ◌==◌, ltb, leb, if◌then◌else◌, length, get_elem?, get_or, set, update,
}
use rt_csp.Conn.{Conn, Table, Removal, removed, waits}
use rt_csp.Conn

-- worker_thread_t. `pipe` holds the bytes written to `write_fd` and not yet read, `stopped` that the
-- event loop has been told to end.
pub record Worker : Type 0 where
  pub accept_queue : List ℕ
  pub close_queue : List ℕ
  pub pipe : List ℕ
  pub stopped : Bool

-- listen_thread_t and the table. `backlog` is the argument of the last call of `listen`.
pub record Server : Type 0 where
  pub table : Conn.Table
  pub workers : List Worker
  pub ev_flags : ℕ
  pub backlog : ℕ
  pub pipe : List ℕ
  pub stopped : Bool

-- A step is done, or its thread waits inside it, or it faults: a failed assertion, or an access
-- through a pointer to no object.
pub data Run {ℓ} (A : Type ℓ) : Type ℓ where
  ok : A → Run A
  waiting : Run A
  fault : Run A

infixl 5 ◌>>=◌
unfoldable pub ◌>>=◌ {ℓ κ} : {A : Type ℓ} {B : Type κ} → Run A → (A → Run B) → Run B
ok a >>= f = f a
waiting >>= f = waiting
fault >>= f = fault

abbrev pub lift {ℓ} : {A : Type ℓ} → Option A → Run A
lift none = fault
lift (some a) = ok a

abbrev pub lift_removal : Removal → Run Conn.Table
lift_removal (removed t) = ok t
lift_removal (waits t) = waiting
lift_removal Removal.fault = fault

-- EV_READ | EV_PERSIST of libevent
abbrev pub ev_read_persist : ℕ
ev_read_persist = 18

abbrev pub with_table : Server → Conn.Table → Server
with_table s t = record s { table = t }

abbrev pub set_worker : Server → ℕ → Worker → Server
set_worker s i w = record s { workers = set s.workers i w }

-- `deleted` is that `event_del` succeeds.
unfoldable pub update_accept_event : Bool → ℕ → Server → Server × Bool
update_accept_event deleted flags s =
    if s.ev_flags == flags
    then (s, false)
    else if not deleted
    then (s, false)
    else (record s { ev_flags = flags }, true)

abbrev pub listen_if : ℕ → Server × Bool → Server
listen_if n (s, updated) = if updated then record s { backlog = n } else s

unfoldable pub is_accept_conn_ex : ℕ → Bool → Bool → Server → Server
unfolding update_accept_event
is_accept_conn_ex rtcsp_backlog deleted true s =
    listen_if rtcsp_backlog (update_accept_event deleted ev_read_persist s)
is_accept_conn_ex rtcsp_backlog deleted false s = listen_if 0 (update_accept_event deleted 0 s)

-- Writes the letter for enable or disable to the listening thread's pipe.
unfoldable pub is_accept_conn : Bool → Server → Server
is_accept_conn do_accept s = record s { pipe = s.pipe ++ (if do_accept then b'e' else b'd') ∷ [] }

-- One byte in `listen_notify_handler`.
unfoldable pub listen_notify_byte : ℕ → Bool → ℕ → Server → Server
listen_notify_byte rtcsp_backlog deleted b s =
    if b == b'e'
    then is_accept_conn_ex rtcsp_backlog deleted true s
    else if b == b'd'
    then is_accept_conn_ex rtcsp_backlog deleted false s
    else s

unfoldable pub listen_notify_bytes : ℕ → Bool → List ℕ → Server → Server
listen_notify_bytes rtcsp_backlog deleted [] s = s
listen_notify_bytes rtcsp_backlog deleted (b ∷ bs) s =
    listen_notify_bytes rtcsp_backlog deleted bs (listen_notify_byte rtcsp_backlog deleted b s)
