-- ===== src/Program/Pages.antt =====
-- `fsize` of api.c and the pages of RtCSP.c and bench.c that use it: whether a page can be written.
use rt_csp.Base.{
  ℕ, ◌+◌, ◌*◌, ◌/◌, ◌^◌, Bool, true, false, ◌&&◌, not, Option, none, some, ◌==◌, ltb, leb,
  if◌then◌else◌, ℤ, pos, negsuc,
}
use rt_csp.Program.{Page, usage, version, modules, Options, ended, shown, crashed, out_of_fuel}
use rt_csp.Program.Server.{Outcome, done, faulty, starving}
use rt_csp.Program.Load

-- The unit of a size of at least 1 that is an `int`, the integer part of the quotient of two logarithms,
-- which are taken as exact.
unfoldable pub unit_of : ℕ → ℕ
unit_of n = if ltb n 1024 then 0 else if ltb n 1048576 then 1 else if ltb n 1073741824 then 2 else 3

-- The thousandths that `%.3f` writes of the size in its unit.
unfoldable pub thousandths : ℕ → ℕ
unfolding unit_of
thousandths n = (2000 * n + 1024 ^ unit_of n) / (2 * 1024 ^ unit_of n)

-- The digits of a number below 10000.
unfoldable pub digits : ℕ → ℕ
digits n = if ltb n 10 then 1 else if ltb n 100 then 2 else if ltb n 1000 then 3 else 4

-- The bytes that `sprintf` writes with the closing NUL: digits, the point, three digits, the unit.
unfoldable pub text_bytes : ℕ → ℕ
unfolding thousandths digits
text_bytes n = digits (thousandths n / 1000) + 4 + (if unit_of n == 0 then 1 else 2) + 1

-- `fsize` stays within `units` and its `buf` of 10 bytes. A size below 1 has no logarithm, and what the
-- conversion to `int` makes of it is no index of `units`.
unfoldable pub fsize : ℤ → Bool
unfolding text_bytes
fsize (negsuc n) = false
fsize (pos n) = not (n == 0) && leb (text_bytes n) 10

-- `rtcsp_usage` and `bench_usage` show the limit of the packets, which has been set by then.
unfoldable pub page_written : Page → ℤ → Bool
unfolding fsize
page_written usage maxrecvs = fsize maxrecvs
page_written version maxrecvs = true
page_written modules maxrecvs = true

unfoldable pub is_usage : Option Page → Bool
is_usage (some usage) = true
is_usage (some version) = false
is_usage (some modules) = false
is_usage none = false

-- `main` of RtCSP.c with the page that it writes.
unfoldable pub with_page : Outcome → Outcome
unfolding page_written
with_page (done d) = elim d.page [
  | none ↦ done d
  | some page ↦ if page_written page (d.settings).rtcsp_maxrecvs then done d else faulty
]
with_page faulty = faulty
with_page starving = starving

-- `main` of bench.c with the page that it writes.
unfoldable pub load_page : Options Load.Settings → Options Load.Settings
unfolding page_written
load_page (ended s) = ended s
load_page (shown page s) = if page_written page s.bench_maxrecvs then shown page s else crashed
load_page crashed = crashed
load_page out_of_fuel = out_of_fuel
