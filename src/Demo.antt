-- ===== src/Demo.antt =====
-- modules/demo: demo.c on the server and demo_bench.c in the load generator. The queries of a database
-- that demo.c makes are an argument, as far as a hook shows them.
pub mod Table
pub mod Queries
use rt_csp.Base.{ℕ, zero, suc, Bool, true, List, [], ◌∷◌, ◌++◌, length}
use rt_csp.Serialize.Number.{print_nat}
use rt_csp.Serialize.Elements.{until_nul}
use rt_csp.Loop.Hooks.{Recvs}
use rt_csp.Loop.Dispatch.{Hook}
use rt_csp.Bench.Worker.{SendRecv}

-- "demo.string"
abbrev pub string_key : List ℕ
string_key = b'd' ∷ b'e' ∷ b'm' ∷ b'o' ∷ b'.' ∷ b's' ∷ b't' ∷ b'r' ∷ b'i' ∷ b'n' ∷ b'g' ∷ []

-- "demo.mysql"
abbrev pub mysql_key : List ℕ
mysql_key = b'd' ∷ b'e' ∷ b'm' ∷ b'o' ∷ b'.' ∷ b'm' ∷ b'y' ∷ b's' ∷ b'q' ∷ b'l' ∷ []

-- "demo_string"
abbrev pub func : List ℕ
func = b'd' ∷ b'e' ∷ b'm' ∷ b'o' ∷ b'_' ∷ b's' ∷ b't' ∷ b'r' ∷ b'i' ∷ b'n' ∷ b'g' ∷ []

-- "..."
abbrev pub dots : List ℕ
dots = b'.' ∷ b'.' ∷ b'.' ∷ []

-- Appends "%s...(%d: %s)". The text after the data's first NUL is not shown.
unfoldable pub demo_string : List ℕ → List ℕ → Bool × List ℕ
demo_string body gstr = (
  true,
  gstr
      ++ func
      ++ dots
      ++ b'(' ∷ print_nat (length body)
      ++ b':' ∷ b' ' ∷ until_nul body
      ++ b')' ∷ [],
)

-- The table of hooks, by number.
abbrev pub demo_recvs : Recvs
demo_recvs = (string_key, 0) ∷ (mysql_key, 1) ∷ []

-- `mysql` is what `demo_mysql` does.
unfoldable pub demo_hook : Hook → Hook
unfolding demo_string
demo_hook mysql zero body gstr = demo_string body gstr
demo_hook mysql (suc n) body gstr = mysql (suc n) body gstr

-- "demo_string_request"
abbrev pub request_func : List ℕ
request_func = func ++ b'_' ∷ b'r' ∷ b'e' ∷ b'q' ∷ b'u' ∷ b'e' ∷ b's' ∷ b't' ∷ []

-- The load generator's entries: demo_string_request and demo_string_response, and those of demo.mysql.
unfoldable pub load_string : SendRecv
load_string = record {
  key = string_key;
  send_call = (true, request_func ++ dots);
  recv_call = λ reply. true;
}

unfoldable pub load_mysql : SendRecv
load_mysql = record { key = mysql_key; send_call = (true, []); recv_call = λ reply. true }
