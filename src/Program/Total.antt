-- ===== src/Program/Total.antt =====
-- RtCSP.c and bench.c: the loops over the options come to an end for every command line.
use rt_csp.Base.{ℕ, ◌≡◌, ◌⊎◌, Bool, not, if◌then◌else◌, ◌&&◌, ◌||◌, ◌==◌, leb, some}
use rt_csp.Program.Pages.{fsize, load_page, is_usage}
use rt_csp.Program.{Page, Options, ended, shown, crashed}
use rt_csp.Program.Load
use rt_csp.Program.Server

-- The codes that are read through their value.
abbrev load_valued : ℕ → Bool
load_valued c = leb 1 c && leb c 6

-- What `load_page` makes of an end of the loop.
abbrev pub LoadOutcome : Options Load.Settings → Type 0
LoadOutcome r =
    ((u : Load.Settings) × (r ≡ ended u) × (load_page r ≡ ended u))
    ⊎ ((page : Page) × (u : Load.Settings) × (r ≡ shown page u)
        × (load_page r ≡ (
            if is_usage (some page) && not (fsize u.bench_maxrecvs)
            then crashed
            else shown page u)))

abbrev server_valued : ℕ → Bool
server_valued c = (c == 2) || (c == 5) || (c == 6) || (c == 7) || (c == b'b')

-- The program has come to its end.
abbrev pub IsDone : Server.Outcome → Type 0
IsDone (Server.done d) = Unit {0}
IsDone Server.faulty = ⊥
IsDone Server.starving = ⊥
