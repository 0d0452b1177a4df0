-- ===== src/Database/Query.antt =====
-- mod_my.h: the macros that make a query with a prepared statement, as the calls that they make. What the
-- client library answers is an argument.
use rt_csp.Base.{
  ℕ, zero, suc, ◌+◌, Bool, true, false, not, List, [], ◌∷◌, ◌++◌, ◌==◌, if◌then◌else◌, replicate,
}

-- The calls on the statement, and those of malloc and free with a number for each block. `stmt_init`
-- comes with whether it gives NULL, `stmt_error` is the pair of calls that a message makes.
pub data Act : Type 0 where
  stmt_init : Bool → Act
  stmt_error stmt_prepare stmt_bind_param stmt_attr_set stmt_execute stmt_close : Act
  stmt_attr_max stmt_field_count stmt_store_result stmt_bind_result stmt_fetch : Act
  result_metadata free_result : Act
  malloc free : ℕ → Act

-- Which of the calls fail, whether there are columns, and whether there is a result.
pub record Answers : Type 0 where
  pub init_fails : Bool
  pub prepare_fails : Bool
  pub bind_fails : Bool
  pub attr_fails : Bool
  pub execute_fails : Bool
  pub close_fails : Bool
  pub max_fails : Bool
  pub field_count : ℕ
  pub store_fails : Bool
  pub has_result : Bool
  pub bind_result_fails : Bool
  pub rows_left : Bool

-- MOD_MY_QUERY_EX: the steps up to the first that fails, and whether one did. The statement is then
-- closed, and what follows the macro in braces is run.
unfoldable pub query_ex : Answers → List Act × Bool
query_ex a =
    if a.prepare_fails
    then (stmt_init a.init_fails ∷ stmt_prepare ∷ stmt_error ∷ stmt_close ∷ [], true)
    else if a.bind_fails
    then (
      stmt_init a.init_fails ∷ stmt_prepare ∷ stmt_bind_param ∷ stmt_error ∷ stmt_close ∷ [],
      true,
    )
    else if a.attr_fails
    then (
      stmt_init a.init_fails
          ∷ stmt_prepare
          ∷ stmt_bind_param
          ∷ stmt_attr_set
          ∷ stmt_error
          ∷ stmt_close
          ∷ [],
      true,
    )
    else if a.execute_fails
    then (
      stmt_init a.init_fails
          ∷ stmt_prepare
          ∷ stmt_bind_param
          ∷ stmt_attr_set
          ∷ stmt_execute
          ∷ stmt_error
          ∷ stmt_close
          ∷ [],
      true,
    )
    else (
      stmt_init a.init_fails ∷ stmt_prepare ∷ stmt_bind_param ∷ stmt_attr_set ∷ stmt_execute ∷ [],
      false,
    )

-- A message asks the statement for its error.
abbrev pub message : Bool → List Act
message shown = if shown then stmt_error ∷ [] else []

-- The blocks: bind_results, lengths, isnulls, row, and the cells of row.
abbrev pub first_cell : ℕ
first_cell = 4

-- The loops over the cells.
abbrev pub each_cell : (ℕ → Act) → ℕ → ℕ → List Act
each_cell act i zero = []
each_cell act i (suc n) = act i ∷ each_cell act (suc i) n

-- MOD_MY_QUERY_RESULT_EX, from the result's metadata on, with the fetches between, to the end of
-- MOD_MY_QUERY_RESULT_END_EX, which fetches once more.
unfoldable pub result_blocks : Answers → ℕ → ℕ → List Act
result_blocks a num_fields fetches =
    malloc 0
    ∷ malloc 1
    ∷ malloc 2
    ∷ malloc 3
    ∷ (each_cell malloc first_cell num_fields
        ++ (stmt_bind_result
            ∷ ((if a.bind_result_fails
                  then message true
                  else replicate (fetches + 1) stmt_fetch ++ message a.rows_left)
                ++ (each_cell free first_cell num_fields
                    ++ (free 0 ∷ free 3 ∷ free 1 ∷ free 2 ∷ free_result ∷ [])))))

unfoldable pub query_result : Answers → ℕ → ℕ → List Act
unfolding result_blocks
query_result a num_fields fetches =
    stmt_attr_max
    ∷ (message a.max_fails
        ++ (stmt_field_count
            ∷ (if a.field_count == 0
                then message true
                else stmt_store_result
                  ∷ (if a.store_fails
                      then message true
                      else result_metadata
                        ∷ (if a.has_result
                            then result_blocks a num_fields fetches
                            else message true)))))

-- MOD_MY_QUERY_CLOSE: a message if the closing fails.
abbrev pub closing : Answers → List Act
closing a = stmt_close ∷ message a.close_fails

-- A query with `{ return false; }` behind the macros, and MOD_MY_QUERY_CLOSE: what it returns.
unfoldable pub query_close : Answers → List Act × Bool
unfolding query_ex
query_close a =
    let (acts, failed) = query_ex a in
    if failed then (acts, false) else (acts ++ closing a, not a.close_fails)

-- MOD_MY_QUERY_PTR_ONLY: nothing is returned, and MOD_MY_QUERY_CLOSE comes in either case.
unfoldable pub query_only : Answers → List Act
unfolding query_ex
query_only a = (query_ex a).0 ++ closing a

-- A query whose result is read, with `{ return false; }` behind the macros.
unfoldable pub query_rows : Answers → ℕ → ℕ → List Act × Bool
unfolding query_ex query_result
query_rows a num_fields fetches =
    let (acts, failed) = query_ex a in
    if failed
    then (acts, false)
    else (acts ++ (query_result a num_fields fetches ++ closing a), not a.close_fails)
