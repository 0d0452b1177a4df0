-- ===== src/Control.antt =====
-- server.c and strnprint of api.c: starting and stopping the service. What the system calls and `tput`
-- answer is an argument, and so is what `setuid` and `setgid` do. Messages are left out, but the dots
-- that fill the line are counted.
pub mod Stopping
pub mod Groups
use rt_csp.Base.{
  ℕ, zero, suc, ◌+◌, ◌-◌, ◌%◌, ◌^◌, Bool, true, false, Option, none, some, List, [], ◌∷◌, ◌++◌,
  ◌==◌, leb, ltb, if◌then◌else◌, ℤ, pos, negsuc,
}

-- The user and the group that a process runs for.
pub record Credentials : Type 0 where
  pub uid : ℕ
  pub gid : ℕ

-- What the calls of `server_start` answer, in their order. `fork` is below 0 if it fails, 0 in the
-- child; `pwnam` holds the user's `pw_uid` and `pw_gid`.
pub record Answers : Type 0 where
  pub cols : ℕ
  pub socket : ℤ
  pub bind : ℤ
  pub listen : ℤ
  pub fork : ℤ
  pub fopen : Bool
  pub pwnam : Option (ℕ × ℕ)
  pub setuid : ℕ → Credentials → Credentials
  pub setgid : ℕ → Credentials → Credentials

-- What `server_start` leaves behind: the dots, the file with the process's number, whether the event
-- loop was run, for whom, and the value returned, if any.
pub record Start : Type 0 where
  pub dots : ℕ
  pub pidfile : Option ℕ
  pub serves : Bool
  pub credentials : Credentials
  pub ret : Option ℕ

-- `strnprint(".", cols - i - 9)`: the count is of type `size_t`.
unfoldable pub strnprint : ℕ → ℕ → ℕ
strnprint cols i = (cols + 2 ^ 64 - (i + 9)) % 2 ^ 64

abbrev pub is_negative : ℤ → Bool
is_negative (pos n) = false
is_negative (negsuc n) = true

-- The child. The result of `setsid` only decides what is printed.
unfoldable pub run_child : Answers → Start → Start
run_child a s = elim a.pwnam [
  | none ↦ record s { serves = true; ret = none }
  | some (pw_uid, pw_gid) ↦ record s {
    serves = true;
    ret = none;
    credentials = a.setgid pw_gid (a.setuid pw_uid s.credentials);
  }
]

-- After `fork`.
unfoldable pub forked : Answers → ℤ → Start → Start
unfolding run_child
forked a (negsuc n) s = s
forked a (pos zero) s = run_child a s
forked a (pos (suc n)) s = record s {
  pidfile = (if a.fopen then some (suc n) else s.pidfile);
  ret = some 1;
}

-- The process has credentials `c`, and `file` is what the file holds before.
unfoldable pub server_start : Answers → Credentials → Option ℕ → Start
unfolding strnprint forked
server_start a c file =
    let failed : Start = record {
      dots = strnprint a.cols 21;
      pidfile = file;
      serves = false;
      credentials = c;
      ret = some 0;
    } in
    if is_negative a.socket
    then failed
    else if is_negative a.bind
    then failed
    else if is_negative a.listen
    then failed
    else forked a a.fork failed

pub data Signal : Type 0 where
  sigint sigkill : Signal

-- The loop that waits for the end of the process: the number of polls, the column, and whether the
-- process was killed.
pub record Polled : Type 0 where
  pub polls : ℕ
  pub i : ℕ
  pub killed : Bool

-- `alive n` is whether the process is there when it is asked for the n-th time.
unfoldable pub stop_loop : ℕ → (ℕ → Bool) → ℕ → ℕ → ℕ → Option Polled
stop_loop zero alive cols polls i = none
stop_loop (suc fuel) alive cols polls i =
    let rest = stop_loop fuel alive cols (suc polls) (suc i) in
    if alive polls
    then (if cols == suc i + 9
        then some (record { polls = suc polls; i = suc i; killed = true })
        else rest)
    else some (record { polls = polls; i = i; killed = false })

pub record Stop : Type 0 where
  pub signals : List (ℕ × Signal)
  pub pidfile : Option ℕ
  pub dots : ℕ
  pub ret : ℕ

-- After the loop, which polls from the second time on.
unfoldable pub stopped : ℕ → ℕ → Polled → Stop
unfolding strnprint
stopped cols pid r = record {
  signals = (pid, sigint) ∷ (if r.killed then (pid, sigkill) ∷ [] else []);
  pidfile = none;
  dots = r.polls - 1 + strnprint cols r.i;
  ret = 1;
}

-- `none` is too little fuel.
unfoldable pub server_stop : ℕ → (ℕ → Bool) → ℕ → Option ℕ → Option Stop
unfolding stop_loop stopped
server_stop fuel alive cols none =
    some (record { signals = []; pidfile = none; dots = strnprint cols 20; ret = 0 })
server_stop fuel alive cols (some pid) =
    let r = stop_loop fuel alive cols 1 21 in
    if alive 0
    then elim r [ none ↦ none | some r ↦ some (stopped cols pid r) ]
    else some (record { signals = []; pidfile = none; dots = strnprint cols 20; ret = 0 })

-- What `server_status` returns, and what it leaves of the file.
unfoldable pub server_status : Bool → Option ℕ → Option ℕ × ℕ
server_status alive none = (none, 0)
server_status alive (some pid) = if alive then (some pid, 1) else (none, 0)
