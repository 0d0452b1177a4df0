-- ===== src/Database/Handles.antt =====
-- mod_my.c: the calls of the MySQL client library, each with the index of its connection handle. What the
-- library answers is an argument, the version of its headers too.
pub mod Uses
pub mod Lives
pub mod Turns
use rt_csp.Base.{
  ℕ, zero, suc, ◌+◌, Bool, true, false, Option, none, some, List, [], ◌∷◌, ◌++◌, if◌then◌else◌,
  length, ltb, codes,
}

-- `real_connect` with whether it succeeds.
pub data Call : Type 0 where
  library_init library_end thread_init thread_end free_conns free_events exit_one : Call
  alloc_conns alloc_events : ℕ → Call
  init options ping close add_event del_event : ℕ → Call
  real_connect : ℕ → Bool → Call
  query : ℕ → List ℕ → Call

abbrev pub behind : List Call → Option (List Call) → Option (List Call)
behind before none = none
behind before (some after) = some (before ++ after)

-- The timer of a handle, or the end of the process.
abbrev pub add_timer : ℕ → Bool → List Call
add_timer i added = add_event i ∷ (if added then [] else exit_one ∷ [])

abbrev pub then_timer : ℕ → Bool → List Call → Option (List Call) → Option (List Call)
then_timer i added allocs none = none
then_timer i added allocs (some calls) = some (calls ++ allocs ++ add_timer i added)

unfoldable pub mod_my_thread_destory : ℕ → List Call
mod_my_thread_destory id = close (id + 1) ∷ thread_end ∷ del_event (id + 1) ∷ []

unfoldable pub mod_my_stop : List Call
mod_my_stop = close 0 ∷ thread_end ∷ library_end ∷ free_conns ∷ del_event 0 ∷ free_events ∷ []

module _ (version : ℕ) (charset : List ℕ) where
  -- What is sent once connected; `none` is a write behind `query[100]`.
  abbrev pub set_names : ℕ → Option (List Call)
  set_names i =
      if ltb 40100 version
      then if ltb 99 (10 + length charset)
        then none
        else some (
            query i (codes "SET NAMES " ++ charset)
            ∷ (if ltb 50001 version then query i (codes "SET sql_mode=''") ∷ [] else []))
      else some []

  unfoldable pub mod_my_connect : ℕ → Bool → Option (List Call)
  mod_my_connect i connected =
      behind (options i ∷ options i ∷ real_connect i connected ∷ [])
        (if connected then set_names i else some [])

  unfoldable pub mod_my_timeout_handler : ℕ → Bool → Bool → Option (List Call)
  unfolding mod_my_connect
  mod_my_timeout_handler i alive connected =
      behind (ping i ∷ [])
        (if alive then some [] else behind (close i ∷ []) (mod_my_connect i connected))

  unfoldable pub mod_my_thread_init : ℕ → Bool → Bool → Option (List Call)
  unfolding mod_my_connect
  mod_my_thread_init id connected added =
      behind (init (id + 1) ∷ thread_init ∷ [])
        (then_timer (id + 1) added [] (mod_my_connect (id + 1) connected))

  -- Behind the reading of the file.
  unfoldable pub mod_my_start : ℕ → Bool → Bool → Option (List Call)
  unfolding mod_my_connect
  mod_my_start nthreads connected added =
      behind (alloc_conns (nthreads + 1) ∷ library_init ∷ init 0 ∷ thread_init ∷ [])
        (then_timer 0 added (alloc_events (nthreads + 1) ∷ []) (mod_my_connect 0 connected))
