-- ===== src/Program/Commands.antt =====
-- RtCSP.c: from the command line to the calls that control the service.
use rt_csp.Base.{
  ℕ, suc, ◌≡◌, refl, ap, ◌∙◌, false, some, List, [], ◌∷◌, map, ◌==◌, length, ℤ, arith,
}
use rt_csp.Getopt.{initial, find_long}
use rt_csp.Getopt.Long.{IsLong}
use rt_csp.Program.{goes_on, shows, crashes, ended, shown, crashed, options_loop, to_uint, to_short}
use rt_csp.Program.Rendered.{Given, render, AllLong, choose_all, options_loop-render}
use rt_csp.Program.Server.{
  started, options, of_argv, Settings, choose, done, serve, after_options, arguments, main,
}

-- What a user asks for by an option with a value.
pub data Setting : Type 0 where
  host_is port_is pidfile_is user_is max_clients_is max_recvs_is nthreads_is backlog_is service_is :
      List ℕ → Setting

abbrev at : List ℕ → ℕ → ℕ → List ℕ → Given
at name i c v = record {
  name = name;
  index = i;
  opt = record { opt_char = c; need_param = 1; opt_name = some name };
  value = v;
}

-- As a long option.
abbrev pub long : Setting → Given
long (backlog_is v) = at (b'b' ∷ b'a' ∷ b'c' ∷ b'k' ∷ b'l' ∷ b'o' ∷ b'g' ∷ []) 5 b'b' v
long (service_is v) = at (b's' ∷ b'e' ∷ b'r' ∷ b'v' ∷ b'i' ∷ b'c' ∷ b'e' ∷ []) 6 b's' v
long (host_is v) = at (b'h' ∷ b'o' ∷ b's' ∷ b't' ∷ []) 7 1 v
long (port_is v) = at (b'p' ∷ b'o' ∷ b'r' ∷ b't' ∷ []) 8 2 v
long (pidfile_is v) = at (b'p' ∷ b'i' ∷ b'd' ∷ b'f' ∷ b'i' ∷ b'l' ∷ b'e' ∷ []) 9 3 v
long (user_is v) = at (b'u' ∷ b's' ∷ b'e' ∷ b'r' ∷ []) 10 4 v
long (nthreads_is v) = at (b'n' ∷ b't' ∷ b'h' ∷ b'r' ∷ b'e' ∷ b'a' ∷ b'd' ∷ b's' ∷ []) 11 7 v
long (max_clients_is v) =
    at (b'm' ∷ b'a' ∷ b'x' ∷ b'-' ∷ b'c' ∷ b'l' ∷ b'i' ∷ b'e' ∷ b'n' ∷ b't' ∷ b's' ∷ []) 12 5 v
long (max_recvs_is v) =
    at (b'm' ∷ b'a' ∷ b'x' ∷ b'-' ∷ b'r' ∷ b'e' ∷ b'c' ∷ b'v' ∷ b's' ∷ []) 13 6 v

abbrev pub set_to : (List ℕ → ℤ) → Setting → Settings → Settings
set_to atoi (host_is v) s = record s { rtcsp_host = of_argv v }
set_to atoi (port_is v) s = record s { rtcsp_port = to_short (atoi v) }
set_to atoi (pidfile_is v) s = record s { rtcsp_pidfile = of_argv v }
set_to atoi (user_is v) s = record s { rtcsp_user = of_argv v }
set_to atoi (max_clients_is v) s = record s { rtcsp_maxclients = atoi v }
set_to atoi (max_recvs_is v) s = record s { rtcsp_maxrecvs = atoi v }
set_to atoi (nthreads_is v) s = record s { rtcsp_nthreads = atoi v }
set_to atoi (backlog_is v) s = record s { rtcsp_backlog = to_uint (atoi v) }
set_to atoi (service_is v) s = record s { serv_opt = some v }

abbrev pub set_all : (List ℕ → ℤ) → List Setting → Settings → Settings
set_all atoi [] s = s
set_all atoi (x ∷ xs) s = set_all atoi xs (set_to atoi x s)

long-IsLong : (x : Setting) → IsLong options (long x).name (long x).index (long x).opt
unfolding find_long
long-IsLong (host_is v) = record {
  named = refl;
  needs = refl;
  there = refl;
  filled = ground arith;
  no_equals = refl;
}
long-IsLong (port_is v) = record {
  named = refl;
  needs = refl;
  there = refl;
  filled = ground arith;
  no_equals = refl;
}
long-IsLong (pidfile_is v) = record {
  named = refl;
  needs = refl;
  there = refl;
  filled = ground arith;
  no_equals = refl;
}
long-IsLong (user_is v) = record {
  named = refl;
  needs = refl;
  there = refl;
  filled = ground arith;
  no_equals = refl;
}
long-IsLong (max_clients_is v) = record {
  named = refl;
  needs = refl;
  there = refl;
  filled = ground arith;
  no_equals = refl;
}
long-IsLong (max_recvs_is v) = record {
  named = refl;
  needs = refl;
  there = refl;
  filled = ground arith;
  no_equals = refl;
}
long-IsLong (nthreads_is v) = record {
  named = refl;
  needs = refl;
  there = refl;
  filled = ground arith;
  no_equals = refl;
}
long-IsLong (backlog_is v) = record {
  named = refl;
  needs = refl;
  there = refl;
  filled = ground arith;
  no_equals = refl;
}
long-IsLong (service_is v) = record {
  named = refl;
  needs = refl;
  there = refl;
  filled = ground arith;
  no_equals = refl;
}

choose-long :
    (atoi : List ℕ → ℤ) (x : Setting) (s : Settings)
    → choose atoi ((long x).opt).opt_char (some (long x).value) s ≡ goes_on (set_to atoi x s)
unfolding choose
choose-long atoi (host_is v) s = refl
choose-long atoi (port_is v) s = refl
choose-long atoi (pidfile_is v) s = refl
choose-long atoi (user_is v) s = refl
choose-long atoi (max_clients_is v) s = refl
choose-long atoi (max_recvs_is v) s = refl
choose-long atoi (nthreads_is v) s = refl
choose-long atoi (backlog_is v) s = refl
choose-long atoi (service_is v) s = refl

all_long : (xs : List Setting) → AllLong options (map long xs)
all_long [] = tt
all_long (x ∷ xs) = (long-IsLong x, all_long xs)

choose_all-long :
    (atoi : List ℕ → ℤ) (xs : List Setting) (s : Settings)
    → choose_all (choose atoi) (map long xs) s ≡ ended (set_all atoi xs s)
choose_all-long atoi [] s = refl
choose_all-long atoi (x ∷ xs) s =
    ap
      (λ r. elim r [
        | goes_on b ↦ choose_all (choose atoi) (map long xs) b
        | shows page ↦ shown page s
        | crashes ↦ crashed
      ])
      (choose-long atoi x s)
    ∙ choose_all-long atoi xs (set_to atoi x s)

set_to-shown :
    (atoi : List ℕ → ℤ) (x : Setting) (s : Settings) → (set_to atoi x s).hide_argv ≡ s.hide_argv
set_to-shown atoi (host_is v) s = refl
set_to-shown atoi (port_is v) s = refl
set_to-shown atoi (pidfile_is v) s = refl
set_to-shown atoi (user_is v) s = refl
set_to-shown atoi (max_clients_is v) s = refl
set_to-shown atoi (max_recvs_is v) s = refl
set_to-shown atoi (nthreads_is v) s = refl
set_to-shown atoi (backlog_is v) s = refl
set_to-shown atoi (service_is v) s = refl

set_all-shown :
    (atoi : List ℕ → ℤ) (xs : List Setting) (s : Settings)
    → (set_all atoi xs s).hide_argv ≡ s.hide_argv
set_all-shown atoi [] s = refl
set_all-shown atoi (x ∷ xs) s = set_all-shown atoi xs (set_to atoi x s) ∙ set_to-shown atoi x s

-- A command line of at least one long option of `main`, each with its value in the next argument: the
-- program takes over the settings in order, the later over the earlier, whatever the values are, and
-- then makes the calls for the last service option. Fuel above the number of options is enough.
pub main-render :
    (atoi : List ℕ → ℤ) (processors : ℕ) (program : List ℕ) (x : Setting) (xs : List Setting)
    (s : Settings)
    → main
        (suc (length (map long (x ∷ xs))))
        atoi
        processors
        (program ∷ render (map long (x ∷ xs)))
        s
      ≡ done (
          serve
            (set_all atoi (x ∷ xs) (started processors s)).serv_opt
            (set_all atoi (x ∷ xs) (started processors s)))
unfolding main after_options initial
main-render atoi processors program x xs s =
    let u = started processors s in
    let argv = program ∷ render (map long (x ∷ xs)) in
    let rest = render (map long xs) in
    let several : (suc (suc (suc (length rest))) == 1) ≡ false = ground arith in
    let whole : arguments argv ≡ argv = rw several refl in
    let out =
      options_loop-render (choose atoi) options (map long (x ∷ xs)) (program ∷ []) argv initial u
        (all_long (x ∷ xs)) refl refl refl
      ∙ choose_all-long atoi (x ∷ xs) u in
    let shown_args = set_all-shown atoi (x ∷ xs) u in
    ap
      (λ argv'.
        after_options
          (options_loop (suc (length (map long (x ∷ xs)))) (choose atoi) argv' options initial u))
      whole
    ∙ ap after_options out
    ∙ rw shown_args refl
