-- ===== src/Examples/Service.antt =====
-- The service, started and stopped from a terminal of 32 columns.
use rt_csp.Base.{ℕ, ◌≡◌, refl, Bool, true, none, some, ltb, ◌==◌, if◌then◌else◌, pos, arith}
use rt_csp.Control.{Credentials, Answers, Stop, server_start, server_stop}
use rt_csp.Control.Stopping.{IsStopped, server_start-server_stop}

abbrev root : Credentials
root = record { uid = 0; gid = 0 }

-- As POSIX has it, without saved numbers.
abbrev set_user : ℕ → Credentials → Credentials
set_user u c = if c.uid == 0 then record { uid = u; gid = c.gid } else c

abbrev set_group : ℕ → Credentials → Credentials
set_group g c = if c.uid == 0 then record { uid = c.uid; gid = g } else c

abbrev at_fork : ℕ → Answers
at_fork n = record {
  cols = 32;
  socket = pos 3;
  bind = pos 0;
  listen = pos 0;
  fork = pos n;
  fopen = true;
  pwnam = some (2, 5);
  setuid = set_user;
  setgid = set_group;
}

-- The process is there when it is asked for the first two times.
abbrev twice : ℕ → Bool
twice n = ltb n 2

server_start-server_stop_example :
    (r : Stop) × (server_stop 2 twice 32 (server_start (at_fork 77) root none).pidfile ≡ some r)
    × IsStopped twice 32 77 r
server_start-server_stop_example =
    server_start-server_stop (at_fork 77) root none 2 32 76 twice refl refl refl refl refl
      (omega arith) (omega arith) (omega arith) refl
