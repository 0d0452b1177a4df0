-- ===== src/Examples/Lines.antt =====
-- Command lines of the two programs.
use rt_csp.Base.{ℕ, ◌≡◌, refl, true, false, none, some, List, [], ◌∷◌, map, length, ℤ, pos, arith}
use rt_csp.Getopt.{
  initial, find_short, long_option, find_long, take_param, finish, short_found, short_option,
  getopt_arg, rtcsp_getopt,
}
use rt_csp.Program.{options_loop}
use rt_csp.Program.Server
use rt_csp.Program.Server.{
  started, Settings, literal, done, start_text, status_text, serve, choose, after_options,
  hide_args, control,
}
use rt_csp.Program.Rendered.{render}
use rt_csp.Program.Commands.{Setting, host_is, port_is, service_is, long, set_all, main-render}
use rt_csp.Program.Load
use rt_csp.Program.Pages.{with_page, fsize, page_written}
use rt_csp.Program.Sizes.{is_writable, fsize-is_writable}
use rt_csp.Program.Service.{main-hidden}

abbrev atoi : List ℕ → ℤ
atoi text = pos (length text)

abbrev program : List ℕ
program = b'r' ∷ []

abbrev defaults : Settings
defaults = record {
  rtcsp_host = literal (b'*' ∷ []);
  rtcsp_port = pos 8083;
  rtcsp_pidfile = literal (b'p' ∷ []);
  rtcsp_user = literal (b'd' ∷ []);
  rtcsp_maxclients = pos 1000;
  rtcsp_maxrecvs = pos 100;
  rtcsp_nthreads = pos 0;
  rtcsp_backlog = 1024;
  serv_opt = none;
  hide_argv = false;
}

abbrev asked : List Setting
asked = port_is (b'8' ∷ b'0' ∷ []) ∷ service_is start_text ∷ []

main-render_example :
    Server.main 4 atoi 2 (program ∷ render (map long (host_is (b'h' ∷ []) ∷ asked))) defaults
    ≡ done
        (serve (some start_text) (set_all atoi (host_is (b'h' ∷ []) ∷ asked) (started 2 defaults)))
main-render_example = main-render atoi 2 program (host_is (b'h' ∷ [])) asked defaults

-- -H -s start
abbrev hidden_line : List (List ℕ)
hidden_line = program ∷ (b'-' ∷ b'H' ∷ []) ∷ (b'-' ∷ b's' ∷ []) ∷ start_text ∷ []

abbrev hidden_settings : Settings
hidden_settings =
    hide_args (record (started 2 defaults) { serv_opt = some start_text; hide_argv = true })

main-hidden_example : (serve (some []) hidden_settings).calls ≡ []
unfolding Server.main choose after_options serve control hide_args options_loop initial rtcsp_getopt
    getopt_arg short_option short_found find_short finish take_param
main-hidden_example =
    main-hidden 4 atoi 2 hidden_line defaults (serve (some []) hidden_settings) refl refl

abbrev load_defaults : Load.Settings
load_defaults = record {
  bench_host = b'l' ∷ [];
  bench_port = 8083;
  bench_nthreads = 0;
  bench_prethread_conns = 10;
  bench_preconn_requests = 10;
  bench_maxrecvs = pos 100;
  hide_argv = false;
}

-- --max-recvs 0 -h, where `nothing` stands for `atoi`.
abbrev nothing : List ℕ → ℤ
nothing text = pos 0

abbrev usage_line : List (List ℕ)
usage_line =
    program
    ∷ (b'-' ∷ b'-' ∷ b'm' ∷ b'a' ∷ b'x' ∷ b'-' ∷ b'r' ∷ b'e' ∷ b'c' ∷ b'v' ∷ b's' ∷ [])
    ∷ (b'0' ∷ [])
    ∷ (b'-' ∷ b'h' ∷ [])
    ∷ []

usage_faults : with_page (Server.main 40 nothing 2 usage_line defaults) ≡ Server.faulty
unfolding with_page page_written fsize Server.main choose after_options options_loop initial
    rtcsp_getopt getopt_arg long_option find_long finish short_option find_short
usage_faults = refl

fsize-is_writable_example : fsize (pos 1024000) ≡ is_writable 1024000
fsize-is_writable_example = fsize-is_writable 1024000 (omega arith)
