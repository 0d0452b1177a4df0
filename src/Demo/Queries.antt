-- ===== src/Demo/Queries.antt =====
-- demo.c: the hooks that make a query, and what they leave.
pub mod Blocks
pub mod Released
use rt_csp.Base.{ℕ, ◌+◌, Bool, true, false, not, ◌&&◌, List, ◌++◌, ◌==◌, if◌then◌else◌, length}
use rt_csp.Database.Query.{Act, Answers, query_close, query_only, query_rows}
use rt_csp.Demo.Table.{Column, print_table}

-- The calls that are made, and whether the connection is accepted.
unfoldable pub demo_conn_accept : Answers → List Act × Bool
unfolding query_close
demo_conn_accept a = query_close a

unfoldable pub demo_conn_close : Answers → List Act
unfolding query_only
demo_conn_close a = query_only a

-- The columns could be bound: the code between the macros is run.
abbrev pub writes : Answers → Bool
writes a =
    not a.prepare_fails
    && not a.bind_fails
    && not a.attr_fails
    && not a.execute_fails
    && not (a.field_count == 0)
    && not a.store_fails
    && a.has_result
    && not a.bind_result_fails

-- The calls, what the hook returns, and the reply. No row is fetched if there is none, else one more.
unfoldable pub demo_mysql :
    Answers → List Column → List (List (List ℕ)) → List ℕ → List Act × Bool × List ℕ
unfolding query_rows print_table
demo_mysql a fields rows gstr =
    let n = length rows in
    let (acts, sent) = query_rows a (length fields) (if n == 0 then 0 else n + 1) in
    (acts, sent, if writes a then gstr ++ print_table fields rows else gstr)
