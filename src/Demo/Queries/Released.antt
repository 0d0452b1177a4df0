-- ===== src/Demo/Queries/Released.antt =====
-- What the queries leave: statements closed and blocks freed.
use rt_csp.Base.{
  ℕ, ◌+◌, ◌≡◌, refl, ap, ◌∙◌, Bool, true, false, not, ◌&&◌, ◌||◌, Option, inl, inr, none, some,
  List, [], ◌∷◌, ◌++◌, ◌==◌, if_cases, if◌then◌else◌, length,
}
use rt_csp.Database.Query.{
  message, closing, stmt_init, stmt_error, stmt_prepare, stmt_bind_param, stmt_attr_set,
  stmt_execute, stmt_attr_max, stmt_field_count, stmt_store_result, result_metadata, Act,
  stmt_close, Answers, query_ex, result_blocks, query_result, query_close, query_only, query_rows,
}
use rt_csp.Demo.Table.{Column}
use rt_csp.Demo.Queries.{demo_conn_accept, demo_conn_close, demo_mysql}
use rt_csp.Demo.Queries.Blocks.{
  message_none, stmt_after-fault, Stmt, absent, live, gone, stmt_after, block_calls,
  stmt_after-append, block_calls-append, IsFreed, result_blocks-live, result_blocks-IsFreed,
}

-- The statement stays as it is, and the block is freed.
abbrev Keeps : ℕ → List Act → Type 0
Keeps k cs = (stmt_after live cs ≡ some live) × IsFreed k cs

query_result-Keeps : (a : Answers) (n f k : ℕ) → Keeps k (query_result a n f)
unfolding query_result stmt_after block_calls
query_result-Keeps a n f k = after a.max_fails
  where
    read : Act → List Act
    read c =
        c
        ∷ (if a.field_count == 0
            then message true
            else stmt_store_result
              ∷ (if a.store_fails
                  then message true
                  else result_metadata
                    ∷ (if a.has_result then result_blocks a n f else message true)))

    rest : Keeps k (read stmt_field_count)
    rest =
        let nothing : Keeps k (message true) = (refl, inl refl) in
        if_cases (Keeps k) (a.field_count == 0) (message true) _ (λ _. nothing)
          λ _.
            if_cases (Keeps k) a.store_fails (message true) _ (λ _. nothing)
              λ _.
                if_cases (Keeps k) a.has_result (result_blocks a n f) (message true)
                  (λ _. (result_blocks-live a n f, result_blocks-IsFreed a n f k)) (λ _. nothing)

    after : (b : Bool) → Keeps k (stmt_attr_max ∷ (message b ++ read stmt_field_count))
    after true = rest
    after false = rest

IsFreed-behind :
    (k : ℕ) (cs ds : List Act) → block_calls k ds ≡ [] → IsFreed k cs → IsFreed k (cs ++ ds)
unfolding block_calls
IsFreed-behind k cs ds d (inl e) =
    inl (block_calls-append k cs ds ∙ ap (λ t. t ++ block_calls k ds) e ∙ d)
IsFreed-behind k cs ds d (inr e) =
    inr (
      block_calls-append k cs ds ∙ ap (λ t. t ++ block_calls k ds) e ∙ ap (λ t. true ∷ false ∷ t) d)

IsFreed-before :
    (k : ℕ) (cs ds : List Act) → block_calls k cs ≡ [] → IsFreed k ds → IsFreed k (cs ++ ds)
IsFreed-before k cs ds c (inl e) =
    inl (block_calls-append k cs ds ∙ ap (λ t. t ++ block_calls k ds) c ∙ e)
IsFreed-before k cs ds c (inr e) =
    inr (block_calls-append k cs ds ∙ ap (λ t. t ++ block_calls k ds) c ∙ e)

-- How a query stands: at a use of a statement that is not there, closed, or open.
abbrev pub stands : Bool → Bool → Option Stmt
stands null failed = if null then none else some (if failed then gone else live)

abbrev IsOpened : Bool → ℕ → List Act × Bool → Type 0
IsOpened null k r = (stmt_after absent r.0 ≡ stands null r.1) × (block_calls k r.0 ≡ [])

-- A query that failed has closed its statement.
query_ex-IsOpened : (a : Answers) (k : ℕ) → IsOpened a.init_fails k (query_ex a)
unfolding query_ex stmt_after block_calls
query_ex-IsOpened a k = go a.init_fails a.prepare_fails a.bind_fails a.attr_fails a.execute_fails
  where
    go :
        (n p b t e : Bool)
        → IsOpened n k (
            if p
            then (stmt_init n ∷ stmt_prepare ∷ stmt_error ∷ stmt_close ∷ [], true)
            else if b
            then (stmt_init n ∷ stmt_prepare ∷ stmt_bind_param ∷ stmt_error ∷ stmt_close ∷ [], true)
            else if t
            then (
              stmt_init n
                  ∷ stmt_prepare
                  ∷ stmt_bind_param
                  ∷ stmt_attr_set
                  ∷ stmt_error
                  ∷ stmt_close
                  ∷ [],
              true,
            )
            else if e
            then (
              stmt_init n
                  ∷ stmt_prepare
                  ∷ stmt_bind_param
                  ∷ stmt_attr_set
                  ∷ stmt_execute
                  ∷ stmt_error
                  ∷ stmt_close
                  ∷ [],
              true,
            )
            else (
              stmt_init n ∷ stmt_prepare ∷ stmt_bind_param ∷ stmt_attr_set ∷ stmt_execute ∷ [],
              false,
            ))
    go true true b t e = (refl, refl)
    go true false true t e = (refl, refl)
    go true false false true e = (refl, refl)
    go true false false false true = (refl, refl)
    go true false false false false = (refl, refl)
    go false true b t e = (refl, refl)
    go false false true t e = (refl, refl)
    go false false false true e = (refl, refl)
    go false false false false true = (refl, refl)
    go false false false false false = (refl, refl)

-- The macros behind the steps of a query.
abbrev behind : Answers → List Act → Bool → List Act → List Act × Bool
behind a acts failed rest =
    if failed then (acts, false) else (acts ++ (rest ++ closing a), not a.close_fails)

closing-live :
    (a : Answers) → stmt_after live (closing a) ≡ (if a.close_fails then none else some gone)
unfolding stmt_after
closing-live a = go a.close_fails
  where
    go : (b : Bool) → stmt_after live (stmt_close ∷ message b) ≡ (if b then none else some gone)
    go true = refl
    go false = refl

closing-gone : (a : Answers) → stmt_after gone (closing a) ≡ none
unfolding stmt_after
closing-gone a = refl

closing_none : (k : ℕ) (a : Answers) → block_calls k (closing a) ≡ []
unfolding block_calls
closing_none k a = message_none k a.close_fails

-- What a query leaves: a use of a statement that is not there or no more, or a closed one.
abbrev pub left_by : Answers → Bool → Option Stmt
left_by a failed = if a.init_fails || (not failed && a.close_fails) then none else some gone

closed_after :
    (k : ℕ) (a : Answers) (acts rest : List Act) (failed : Bool)
    → IsOpened a.init_fails k (acts, failed)
    → Keeps k rest
    → (stmt_after absent (behind a acts failed rest).0 ≡ left_by a failed)
      × IsFreed k (behind a acts failed rest).0
closed_after k a acts rest true o r = (o.0 ∙ go a.init_fails, inl o.1)
  where
    go : (b : Bool) → stands b true ≡ (if b || false then none else some gone)
    go true = refl
    go false = refl
closed_after k a acts rest false o r = (
  go a.init_fails refl o.0,
  IsFreed-before k acts (rest ++ closing a) o.1
      (IsFreed-behind k rest (closing a) (closing_none k a) r.1),
)
  where
    go :
        (b : Bool)
        → b ≡ a.init_fails
        → stmt_after absent acts ≡ stands b false
        → stmt_after absent (acts ++ (rest ++ closing a))
          ≡ (if b || a.close_fails then none else some gone)
    go true e q = stmt_after-fault absent acts (rest ++ closing a) q
    go false e q =
        stmt_after-append absent live acts (rest ++ closing a) q
        ∙ stmt_after-append live live rest (closing a) r.0
        ∙ closing-live a

-- demo_mysql closes its statement once, after it was made, uses it at no other time than between, and
-- frees each block that it allocates once and after that, if mysql_stmt_init gives a statement and the
-- closing does not fail. Otherwise, and only then, it uses a statement that is not there: the one that
-- was not made, or, for the message that closing it failed, the one that is closed already.
pub demo_mysql-released :
    (a : Answers) (fields : List Column) (rows : List (List (List ℕ))) (gstr : List ℕ) (k : ℕ)
    → (stmt_after absent (demo_mysql a fields rows gstr).0 ≡ left_by a (query_ex a).1)
      × IsFreed k (demo_mysql a fields rows gstr).0
unfolding demo_mysql query_rows
demo_mysql-released a fields rows gstr k =
    let n = length rows in
    let rest = query_result a (length fields) (if n == 0 then 0 else n + 1) in
    closed_after k a (query_ex a).0 rest (query_ex a).1 (query_ex-IsOpened a k)
      (query_result-Keeps a (length fields) (if n == 0 then 0 else n + 1) k)

closed_twice :
    (a : Answers) (acts : List Act) (failed : Bool)
    → IsOpened a.init_fails 0 (acts, failed)
    → stmt_after absent (acts ++ closing a)
      ≡ (if a.init_fails || (failed || a.close_fails) then none else some gone)
closed_twice a acts failed o = go a.init_fails failed o.0
  where
    go :
        (b f : Bool)
        → stmt_after absent acts ≡ stands b f
        → stmt_after absent (acts ++ closing a)
          ≡ (if b || (f || a.close_fails) then none else some gone)
    go true f q = stmt_after-fault absent acts (closing a) q
    go false true q = stmt_after-append absent gone acts (closing a) q ∙ closing-gone a
    go false false q = stmt_after-append absent live acts (closing a) q ∙ closing-live a

-- If any step of its query fails, demo_conn_close closes the statement twice, the second time after it
-- is gone. If none fails, demo_conn_close and demo_conn_accept close it once, and so does
-- demo_conn_accept if one fails; but if the closing fails, the message for it uses the closed
-- statement, and if mysql_stmt_init gives none, that is used. demo_conn_accept accepts the connection
-- exactly if no step and not the closing fails.
pub demo_conn_close-twice :
    (a : Answers)
    → (stmt_after absent (demo_conn_close a)
        ≡ (if a.init_fails || ((query_ex a).1 || a.close_fails) then none else some gone))
      × (stmt_after absent (demo_conn_accept a).0 ≡ left_by a (query_ex a).1)
      × ((demo_conn_accept a).1 ≡ (not (query_ex a).1 && not a.close_fails))
unfolding demo_conn_close demo_conn_accept query_only query_close stmt_after block_calls
demo_conn_close-twice a = (
  closed_twice a (query_ex a).0 (query_ex a).1 (query_ex-IsOpened a 0),
  (closed_after 0 a (query_ex a).0 [] (query_ex a).1 (query_ex-IsOpened a 0) (refl, inl refl)).0,
  accepted (query_ex a).0 (query_ex a).1,
)
  where
    accepted :
        (acts : List Act) (failed : Bool)
        → (behind a acts failed []).1 ≡ (not failed && not a.close_fails)
    accepted acts true = refl
    accepted acts false = refl
