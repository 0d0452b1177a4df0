-- ===== src/Loop/Reach.antt =====
-- All states that the server can reach, and what holds in each of them.
use rt_csp.Base.{ℕ, ◌≡◌, Bool, false, Option, List, [], ◌∷◌, replicate}
use rt_csp.Conn
use rt_csp.Conn.{attach_conn, modify}
use rt_csp.Socket.{Recv}
use rt_csp.Loop.{Worker, Server, ok, ◌>>=◌, ev_read_persist, listen_notify_byte}
use rt_csp.Loop.Listen.{listen_handler}
use rt_csp.Loop.Serve.{notify_next, read_handler, socket_close}
use rt_csp.Loop.Shutdown.{signal_handler}
use rt_csp.Loop.Tokens.{Good}

-- The server when `loop_event` has set it up, before its event loops run.
abbrev pub new_worker : Worker
new_worker = record { accept_queue = []; close_queue = []; pipe = []; stopped = false }

unfoldable pub loop_start : (rtcsp_backlog rtcsp_maxclients rtcsp_nthreads : ℕ) → Server
loop_start rtcsp_backlog rtcsp_maxclients rtcsp_nthreads = record {
  table = attach_conn rtcsp_maxclients;
  workers = replicate rtcsp_nthreads new_worker;
  ev_flags = ev_read_persist;
  backlog = rtcsp_backlog;
  pipe = [];
  stopped = false;
}

-- The limits that the command line sets, and the modules' `conn_accept` hooks.
pub record Config : Type 0 where
  pub rtcsp_backlog : ℕ
  pub rtcsp_maxclients : ℕ
  pub rtcsp_maxrecvs : ℕ
  pub rtcsp_nthreads : ℕ
  pub hooks : List (Conn.Conn → Bool)

-- One turn of a thread. What the kernel and libevent answer is free.
pub data Step (k : Config) (s : Server) (u : Server) : Type 0 where
  listens :
      (deleted : Bool) (p fd : ℕ)
      → listen_handler k.rtcsp_backlog k.rtcsp_maxclients deleted k.hooks s p fd ≡ ok u
      → Step k s u
  is_told :
      (deleted : Bool) (b : ℕ) (bs : List ℕ)
      → s.pipe ≡ b ∷ bs
      → u ≡ listen_notify_byte k.rtcsp_backlog deleted b (record s { pipe = bs })
      → Step k s u
  notified : (i : ℕ) → notify_next s i ≡ ok u → Step k s u
  reads :
      (head : Recv) (body : ℕ → Recv) (p : ℕ) (out : Option (List ℕ))
      → read_handler k.rtcsp_maxrecvs head body s p ≡ ok (u, out)
      → Step k s u
  closes : (p : ℕ) → socket_close s p ≡ ok u → Step k s u
  interrupted : (deleted : Bool) → signal_handler k.rtcsp_backlog deleted s ≡ ok u → Step k s u

pub data Reach (k : Config) : Server → Type 0 where
  here :
      {s : Server} → s ≡ loop_start k.rtcsp_backlog k.rtcsp_maxclients k.rtcsp_nthreads → Reach k s
  next : {s u : Server} → Reach k s → Step k s u → Reach k u

abbrev GoodFirst : Server × Option (List ℕ) → Type 0
GoodFirst r = Good r.0
