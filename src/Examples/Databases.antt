-- ===== src/Examples/Databases.antt =====
-- The database module and the queries of the demo module at concrete inputs.
use rt_csp.Base.{
  map, ◌≤◌, ℕ, ◌≡◌, refl, Bool, true, false, none, some, List, [], ◌∷◌, ◌==◌, if◌then◌else◌, length,
  codes, pos,
}
use rt_csp.Database.{KeyFile, defaults, read_config}
use rt_csp.Database.Config.{IsRead, configured, strings_of, read_config-IsRead}
use rt_csp.Database.Handles.Uses.{closed}
use rt_csp.Database.Handles.Turns.{tick, thread_stop, turns, tick-unanswered}
use rt_csp.Database.Query.{Answers, query_ex}
use rt_csp.Demo.Table.{Column, row_length, print_table}
use rt_csp.Demo.Table.Lines.{
  unlines, table_lines, line_lengths, spread, IsFitting, print_table-line_lengths,
}
use rt_csp.Demo.Queries.{demo_conn_accept, demo_conn_close, demo_mysql}
use rt_csp.Demo.Queries.Blocks.{absent, gone, stmt_after, IsFreed}
use rt_csp.Demo.Queries.Released.{demo_mysql-released, demo_conn_close-twice}

-- A host and a port, and for every other key G_KEY_FILE_ERROR_KEY_NOT_FOUND.
abbrev file : KeyFile
file = record {
  load_error = none;
  text = λ key. if length key == 4 then some (codes "db.local") else none;
  number = λ key. pos 3307;
  error_of = λ key. if length key == 4 then none else some 3;
}

abbrev socket_path : List ℕ
socket_path = codes "/tmp/mysql.sock"

read_config-IsRead_example :
    IsRead
      (configured file (defaults socket_path))
      (strings_of file)
      (read_config file (defaults socket_path))
read_config-IsRead_example = read_config-IsRead file (defaults socket_path)

tick-unanswered_example :
    turns 50100 (codes "utf8") 1 closed (tick 1 false true ∷ thread_stop 0 ∷ []) ≡ none
tick-unanswered_example = tick-unanswered 50100 (codes "utf8") 1 true closed (thread_stop 0 ∷ [])

abbrev column : List ℕ → Bool → ℕ → Column
column name is_time max_length = record { name = name; is_time = is_time; max_length = max_length }

-- The columns of the table session, for a row of it that no user has logged in to.
abbrev columns : List Column
columns =
    column (codes "sessId") false 1
    ∷ column (codes "sockfd") false 2
    ∷ column (codes "host") false 9
    ∷ column (codes "port") false 5
    ∷ column (codes "tid") false 1
    ∷ column (codes "dateline") false 10
    ∷ column (codes "createTime") true 0
    ∷ column (codes "uid") false 1
    ∷ column (codes "loginDateline") false 1
    ∷ column (codes "loginTime") true 0
    ∷ column (codes "logoutDateline") false 1
    ∷ column (codes "logoutTime") true 0
    ∷ []

abbrev rows : List (List (List ℕ))
rows =
    (codes "3"
      ∷ codes "17"
      ∷ codes "127.0.0.1"
      ∷ codes "40000"
      ∷ codes "0"
      ∷ codes "1400000000"
      ∷ codes "2014-05-13 16:53:20"
      ∷ codes "0"
      ∷ codes "0"
      ∷ []
      ∷ codes "0"
      ∷ []
      ∷ [])
    ∷ []

print_table-line_lengths_example :
    (print_table columns rows ≡ unlines (table_lines columns rows))
    × (map length (table_lines columns rows) ≡ line_lengths columns rows)
    × ((cells : List (List ℕ))
        → length cells ≡ length columns
        → (row_length columns ≤ spread columns cells)
          × (spread columns cells ≡ row_length columns → IsFitting columns cells)
          × (IsFitting columns cells → spread columns cells ≡ row_length columns))
print_table-line_lengths_example = print_table-line_lengths columns rows

-- The names do not fit: their line is longer than the rulers.
names_longer : line_lengths columns rows ≡ 100 ∷ 132 ∷ 100 ∷ 100 ∷ 100 ∷ []
names_longer = refl

-- Everything goes well, but for what is asked.
abbrev answers : Bool → Answers
answers execute_fails = record {
  init_fails = false;
  prepare_fails = false;
  bind_fails = false;
  attr_fails = false;
  execute_fails = execute_fails;
  close_fails = false;
  max_fails = false;
  field_count = 12;
  store_fails = false;
  has_result = true;
  bind_result_fails = false;
  rows_left = false;
}

demo_mysql-released_example :
    (stmt_after absent (demo_mysql (answers false) columns rows []).0 ≡ some gone)
    × IsFreed 4 (demo_mysql (answers false) columns rows []).0
unfolding query_ex
demo_mysql-released_example = demo_mysql-released (answers false) columns rows [] 4

demo_conn_close-twice_example :
    (stmt_after absent (demo_conn_close (answers true)) ≡ none)
    × (stmt_after absent (demo_conn_accept (answers true)).0 ≡ some gone)
    × ((demo_conn_accept (answers true)).1 ≡ false)
unfolding query_ex
demo_conn_close-twice_example = demo_conn_close-twice (answers true)
