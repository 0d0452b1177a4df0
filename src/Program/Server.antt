-- ===== src/Program/Server.antt =====
-- RtCSP.c: `main`, as far as the calls that control the service. What the pages say is left out. `atoi`
-- and the number of processors are arguments.
use rt_csp.Base.{
  ℕ, ◌*◌, Bool, true, false, ◌||◌, Option, none, some, List, [], ◌∷◌, ◌++◌, ◌==◌, if◌then◌else◌,
  length, str_eq, ℤ, pos,
}
use rt_csp.Getopt.{Opt, initial}
use rt_csp.Program.{
  Page, usage, version, modules, Choice, goes_on, shows, Options, ended, shown, crashed,
  out_of_fuel, options_loop, with_number, to_uint, to_short,
}

-- OPT_HOST and so on, and the names of the options.
abbrev pub opt_host : ℕ
opt_host = 1

abbrev pub opt_port : ℕ
opt_port = 2

abbrev pub opt_pidfile : ℕ
opt_pidfile = 3

abbrev pub opt_user : ℕ
opt_user = 4

abbrev pub opt_max_clients : ℕ
opt_max_clients = 5

abbrev pub opt_max_recvs : ℕ
opt_max_recvs = 6

abbrev pub opt_nthreads : ℕ
opt_nthreads = 7

abbrev entry : ℕ → ℕ → List ℕ → Opt
entry c needs name = record { opt_char = c; need_param = needs; opt_name = some name }

abbrev pub options : List Opt
options =
    entry b'h' 0 (b'h' ∷ b'e' ∷ b'l' ∷ b'p' ∷ [])
    ∷ entry b'?' 0 (b'u' ∷ b's' ∷ b'a' ∷ b'g' ∷ b'e' ∷ [])
    ∷ entry b'H' 0 (b'h' ∷ b'i' ∷ b'd' ∷ b'e' ∷ b'-' ∷ b'a' ∷ b'r' ∷ b'g' ∷ b's' ∷ [])
    ∷ entry b'v' 0 (b'v' ∷ b'e' ∷ b'r' ∷ b's' ∷ b'i' ∷ b'o' ∷ b'n' ∷ [])
    ∷ entry b'm' 0 (b'm' ∷ b'o' ∷ b'd' ∷ b'u' ∷ b'l' ∷ b'e' ∷ [])
    ∷ entry b'b' 1 (b'b' ∷ b'a' ∷ b'c' ∷ b'k' ∷ b'l' ∷ b'o' ∷ b'g' ∷ [])
    ∷ entry b's' 1 (b's' ∷ b'e' ∷ b'r' ∷ b'v' ∷ b'i' ∷ b'c' ∷ b'e' ∷ [])
    ∷ entry opt_host 1 (b'h' ∷ b'o' ∷ b's' ∷ b't' ∷ [])
    ∷ entry opt_port 1 (b'p' ∷ b'o' ∷ b'r' ∷ b't' ∷ [])
    ∷ entry opt_pidfile 1 (b'p' ∷ b'i' ∷ b'd' ∷ b'f' ∷ b'i' ∷ b'l' ∷ b'e' ∷ [])
    ∷ entry opt_user 1 (b'u' ∷ b's' ∷ b'e' ∷ b'r' ∷ [])
    ∷ entry opt_nthreads 1 (b'n' ∷ b't' ∷ b'h' ∷ b'r' ∷ b'e' ∷ b'a' ∷ b'd' ∷ b's' ∷ [])
    ∷ entry opt_max_clients 1
        (b'm' ∷ b'a' ∷ b'x' ∷ b'-' ∷ b'c' ∷ b'l' ∷ b'i' ∷ b'e' ∷ b'n' ∷ b't' ∷ b's' ∷ [])
    ∷ entry opt_max_recvs 1 (b'm' ∷ b'a' ∷ b'x' ∷ b'-' ∷ b'r' ∷ b'e' ∷ b'c' ∷ b'v' ∷ b's' ∷ [])
    ∷ record { opt_char = b'-'; need_param = 0; opt_name = none }
    ∷ []

-- A `char *`: NULL, a text of the program, or one that lies in `argv`.
pub data Text : Type 0 where
  null : Text
  literal : List ℕ → Text
  of_argv : List ℕ → Text

abbrev pub optarg_text : Option (List ℕ) → Text
optarg_text none = null
optarg_text (some t) = of_argv t

-- The globals of server.c that the options set, and two variables of `main`: `serv_opt`, which is NULL
-- or lies in `argv`, and `hide_argv`.
pub record Settings : Type 0 where
  pub rtcsp_host : Text
  pub rtcsp_port : ℤ
  pub rtcsp_pidfile : Text
  pub rtcsp_user : Text
  pub rtcsp_maxclients : ℤ
  pub rtcsp_maxrecvs : ℤ
  pub rtcsp_nthreads : ℤ
  pub rtcsp_backlog : ℕ
  pub serv_opt : Option (List ℕ)
  pub hide_argv : Bool

unfoldable pub choose : (List ℕ → ℤ) → ℕ → Option (List ℕ) → Settings → Choice Settings
choose atoi c optarg s =
    if c == opt_host
    then goes_on (record s { rtcsp_host = optarg_text optarg })
    else if c == opt_port
    then with_number atoi optarg (λ n. record s { rtcsp_port = to_short n })
    else if c == opt_pidfile
    then goes_on (record s { rtcsp_pidfile = optarg_text optarg })
    else if c == opt_user
    then goes_on (record s { rtcsp_user = optarg_text optarg })
    else if c == opt_max_clients
    then with_number atoi optarg (λ n. record s { rtcsp_maxclients = n })
    else if c == opt_max_recvs
    then with_number atoi optarg (λ n. record s { rtcsp_maxrecvs = n })
    else if c == opt_nthreads
    then with_number atoi optarg (λ n. record s { rtcsp_nthreads = n })
    else if c == b'b'
    then with_number atoi optarg (λ n. record s { rtcsp_backlog = to_uint n })
    else if (c == b'h') || (c == b'?')
    then shows usage
    else if c == b'v'
    then shows version
    else if c == b'm'
    then shows modules
    else if c == b's'
    then goes_on (record s { serv_opt = optarg })
    else if c == b'H'
    then goes_on (record s { hide_argv = true })
    else goes_on s

-- Every text in `argv` is overwritten with NULs.
abbrev pub hide : Text → Text
hide null = null
hide (literal t) = literal t
hide (of_argv t) = of_argv []

abbrev pub hide_arg : Option (List ℕ) → Option (List ℕ)
hide_arg none = none
hide_arg (some t) = some []

unfoldable pub hide_args : Settings → Settings
hide_args s = record s {
  rtcsp_host = hide s.rtcsp_host;
  rtcsp_pidfile = hide s.rtcsp_pidfile;
  rtcsp_user = hide s.rtcsp_user;
  serv_opt = hide_arg s.serv_opt;
}

pub data Call : Type 0 where
  server_start server_stop server_status : Call

-- What the program does: the calls, the page, the exit status.
pub record Done : Type 0 where
  pub calls : List Call
  pub page : Option Page
  pub exit_status : ℕ
  pub settings : Settings

pub data Outcome : Type 0 where
  done : Done → Outcome
  faulty : Outcome
  starving : Outcome

abbrev pub start_text : List ℕ
start_text = b's' ∷ b't' ∷ b'a' ∷ b'r' ∷ b't' ∷ []

abbrev pub stop_text : List ℕ
stop_text = b's' ∷ b't' ∷ b'o' ∷ b'p' ∷ []

abbrev pub restart_text : List ℕ
restart_text = b'r' ∷ b'e' ∷ start_text

abbrev pub status_text : List ℕ
status_text = b's' ∷ b't' ∷ b'a' ∷ b't' ∷ b'u' ∷ b's' ∷ []

-- The chain of `strcmp` on `serv_opt`.
unfoldable pub control : List ℕ → Settings → Done
control t s =
    if str_eq t restart_text
    then record {
      calls = server_stop ∷ server_start ∷ [];
      page = none;
      exit_status = 0;
      settings = s;
    }
    else if str_eq t stop_text
    then record { calls = server_stop ∷ []; page = none; exit_status = 0; settings = s }
    else if str_eq t start_text
    then record { calls = server_start ∷ []; page = none; exit_status = 0; settings = s }
    else if str_eq t status_text
    then record { calls = server_stop ∷ []; page = none; exit_status = 0; settings = s }
    else record { calls = []; page = some usage; exit_status = 1; settings = s }

unfoldable pub serve : Option (List ℕ) → Settings → Done
unfolding control
serve none s = record { calls = []; page = none; exit_status = 0; settings = s }
serve (some t) s = control t s

unfoldable pub after_options : Options Settings → Outcome
unfolding hide_args serve
after_options (ended s) =
    let u = if s.hide_argv then hide_args s else s in done (serve u.serv_opt u)
after_options (shown page s) =
    done (record { calls = []; page = some page; exit_status = 0; settings = s })
after_options crashed = faulty
after_options out_of_fuel = starving

-- A command line without arguments gets `-?`.
abbrev pub arguments : List (List ℕ) → List (List ℕ)
arguments argv = if length argv == 1 then argv ++ (b'-' ∷ b'?' ∷ []) ∷ [] else argv

-- The settings before the loop.
abbrev pub started : ℕ → Settings → Settings
started processors s = record s {
  rtcsp_nthreads = pos (processors * 2);
  serv_opt = none;
  hide_argv = false;
}

unfoldable pub main : ℕ → (List ℕ → ℤ) → ℕ → List (List ℕ) → Settings → Outcome
unfolding after_options choose
main fuel atoi processors argv s =
    after_options
      (options_loop fuel (choose atoi) (arguments argv) options initial (started processors s))
