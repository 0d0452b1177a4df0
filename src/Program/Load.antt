-- ===== src/Program/Load.antt =====
-- bench.c: `main`, up to the call of `loop_event`. What the pages say is left out. `atoi` and the number
-- of processors are arguments.
use rt_csp.Base.{
  ℕ, ◌*◌, ◌%◌, ◌^◌, Bool, true, false, ◌||◌, Option, none, some, List, [], ◌∷◌, ◌==◌, if◌then◌else◌,
  length, ℤ,
}
use rt_csp.Getopt.{Opt, initial}
use rt_csp.Program.{
  usage, version, modules, Choice, goes_on, shows, crashes, Options, ended, options_loop,
  with_number, to_uint,
}

-- OPT_HOST and so on.
abbrev pub opt_host : ℕ
opt_host = 1

abbrev pub opt_port : ℕ
opt_port = 2

abbrev pub opt_nthreads : ℕ
opt_nthreads = 3

abbrev pub opt_conns : ℕ
opt_conns = 4

abbrev pub opt_requests : ℕ
opt_requests = 5

abbrev pub opt_max_recvs : ℕ
opt_max_recvs = 6

abbrev entry : ℕ → ℕ → List ℕ → Opt
entry c needs name = record { opt_char = c; need_param = needs; opt_name = some name }

abbrev pub options : List Opt
options =
    entry b'h' 0 (b'h' ∷ b'e' ∷ b'l' ∷ b'p' ∷ [])
    ∷ entry b'?' 0 (b'u' ∷ b's' ∷ b'a' ∷ b'g' ∷ b'e' ∷ [])
    ∷ entry b'H' 0 (b'h' ∷ b'i' ∷ b'd' ∷ b'e' ∷ b'-' ∷ b'a' ∷ b'r' ∷ b'g' ∷ b's' ∷ [])
    ∷ entry b'v' 0 (b'v' ∷ b'e' ∷ b'r' ∷ b's' ∷ b'i' ∷ b'o' ∷ b'n' ∷ [])
    ∷ entry b'm' 0 (b'm' ∷ b'o' ∷ b'd' ∷ b'u' ∷ b'l' ∷ b'e' ∷ [])
    ∷ entry opt_host 1 (b'h' ∷ b'o' ∷ b's' ∷ b't' ∷ [])
    ∷ entry opt_port 1 (b'p' ∷ b'o' ∷ b'r' ∷ b't' ∷ [])
    ∷ entry opt_nthreads 1 (b'n' ∷ b't' ∷ b'h' ∷ b'r' ∷ b'e' ∷ b'a' ∷ b'd' ∷ b's' ∷ [])
    ∷ entry opt_conns 1 (b'c' ∷ b'o' ∷ b'n' ∷ b'n' ∷ b's' ∷ [])
    ∷ entry opt_requests 1 (b'r' ∷ b'e' ∷ b'q' ∷ b'u' ∷ b'e' ∷ b's' ∷ b't' ∷ b's' ∷ [])
    ∷ entry opt_max_recvs 1 (b'm' ∷ b'a' ∷ b'x' ∷ b'-' ∷ b'r' ∷ b'e' ∷ b'c' ∷ b'v' ∷ b's' ∷ [])
    ∷ record { opt_char = b'-'; need_param = 0; opt_name = none }
    ∷ []

-- The globals that the options set, and `hide_argv`. The host is a copy, and not lost when the arguments
-- are overwritten.
pub record Settings : Type 0 where
  pub bench_host : List ℕ
  pub bench_port : ℕ
  pub bench_nthreads : ℕ
  pub bench_prethread_conns : ℕ
  pub bench_preconn_requests : ℕ
  pub bench_maxrecvs : ℤ
  pub hide_argv : Bool

-- `strdup` reads through NULL.
abbrev pub with_copy : Option (List ℕ) → (List ℕ → Settings) → Choice Settings
with_copy none set = crashes
with_copy (some v) set = goes_on (set v)

unfoldable pub choose : (List ℕ → ℤ) → ℕ → Option (List ℕ) → Settings → Choice Settings
choose atoi c optarg s =
    if c == opt_host
    then with_copy optarg (λ v. record s { bench_host = v })
    else if c == opt_port
    then with_number atoi optarg (λ n. record s { bench_port = to_uint n })
    else if c == opt_nthreads
    then with_number atoi optarg (λ n. record s { bench_nthreads = to_uint n })
    else if c == opt_conns
    then with_number atoi optarg (λ n. record s { bench_prethread_conns = to_uint n })
    else if c == opt_requests
    then with_number atoi optarg (λ n. record s { bench_preconn_requests = to_uint n })
    else if c == opt_max_recvs
    then with_number atoi optarg (λ n. record s { bench_maxrecvs = n })
    else if (c == b'h') || (c == b'?')
    then shows usage
    else if c == b'v'
    then shows version
    else if c == b'm'
    then shows modules
    else if c == b'H'
    then goes_on (record s { hide_argv = true })
    else goes_on s

-- The settings before the loop.
abbrev pub started : ℕ → Settings → Settings
started processors s = record s { bench_nthreads = processors * 2 % 2 ^ 32; hide_argv = false }

-- `ended` is the call of `loop_event`.
unfoldable pub main : ℕ → (List ℕ → ℤ) → ℕ → List (List ℕ) → Settings → Options Settings
unfolding choose
main fuel atoi processors argv s =
    if length argv == 1
    then ended (started processors s)
    else options_loop fuel (choose atoi) argv options initial (started processors s)
