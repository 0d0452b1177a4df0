-- ===== src/Database/Handles/Lives.antt =====
-- The life of each connection handle, from the start of the module or of a thread to its end.
use rt_csp.Base.{
  ℕ, ◌+◌, ◌≤◌, ◌≡◌, refl, ◌∙◌, Bool, true, false, Option, none, some, List, [], ◌∷◌, ◌++◌,
  if◌then◌else◌, length, ltb, codes, arith,
}
use rt_csp.Database.Handles.{
  Call, library_init, thread_init, alloc_conns, alloc_events, init, options, real_connect, query,
  behind, then_timer, add_timer, set_names, mod_my_connect, mod_my_timeout_handler,
  mod_my_thread_init, mod_my_thread_destory, mod_my_start, mod_my_stop,
}
use rt_csp.Database.Handles.Uses.{
  Handle, raw, ready, opened, closed, plain, Only, Only-append, plain-append,
}

abbrev pub IsLive : Handle → Type 0
IsLive raw = ⊥
IsLive ready = Unit {0}
IsLive opened = Unit {0}
IsLive closed = ⊥

-- The calls are there, are about handle `i` only, and lead from `h` to a handle that `P` holds of.
abbrev pub Leads : ℕ → Handle → (Handle → Type 0) → Option (List Call) → Type 0
Leads i h P none = ⊥
Leads i h P (some cs) = Only i cs × ((g : Handle) × (plain h cs ≡ some g) × P g)

pub behind-Leads :
    (i : ℕ) (h h' : Handle) (P : Handle → Type 0) (cs : List Call) (o : Option (List Call))
    → Only i cs
    → plain h cs ≡ some h'
    → Leads i h' P o
    → Leads i h P (behind cs o)
behind-Leads i h h' P cs none own to l = absurd l
behind-Leads i h h' P cs (some ds) own to l =
    (Only-append i cs ds own l.0, (l.1.0, plain-append h h' cs ds to ∙ l.1.1, l.1.2))

timer-Leads :
    (i : ℕ) (h : Handle) (P : Handle → Type 0) (added : Bool) (allocs : List Call)
    (o : Option (List Call))
    → Only i allocs
    → ((g : Handle) → plain g allocs ≡ some g)
    → Leads i h P o
    → Leads i h P (then_timer i added allocs o)
unfolding plain
timer-Leads i h P added allocs none own to l = absurd l
timer-Leads i h P added allocs (some ds) own to l = (
  Only-append i (ds ++ allocs) (add_timer i added) (Only-append i ds allocs l.0 own)
      (timer-Only added),
  (
    l.1.0,
    plain-append h l.1.0 (ds ++ allocs) (add_timer i added)
          (plain-append h l.1.0 ds allocs l.1.1 ∙ to l.1.0)
        ∙ timer added,
    l.1.2,
  ),
)
  where
    timer-Only : (b : Bool) → Only i (add_timer i b)
    timer-Only true = (tt, tt)
    timer-Only false = (tt, (tt, tt))

    timer : (b : Bool) → plain l.1.0 (add_timer i b) ≡ some l.1.0
    timer true = refl
    timer false = refl

module _ (version : ℕ) (charset : List ℕ) (short : length charset ≤ 89) where
  names-Leads : (i : ℕ) → Leads i opened IsLive (set_names version charset i)
  unfolding plain
  names-Leads i = go (ltb 40100 version) (ltb 50001 version)
    where
      fits : ltb 99 (10 + length charset) ≡ false
      fits = ground (arith, short)

      go :
          (a b : Bool)
          → Leads i opened IsLive (
              if a
              then (if ltb 99 (10 + length charset)
                  then none
                  else some (
                      query i (codes "SET NAMES " ++ charset)
                      ∷ (if b then query i (codes "SET sql_mode=''") ∷ [] else [])))
              else some [])
      go false b = (tt, (opened, refl, tt))
      go true true = rw fits ((refl, (refl, tt)), (opened, refl, tt))
      go true false = rw fits ((refl, tt), (opened, refl, tt))

  pub connect-Leads :
      (i : ℕ) (ok : Bool) → Leads i ready IsLive (mod_my_connect version charset i ok)
  unfolding mod_my_connect plain
  connect-Leads i true =
      behind-Leads i ready opened IsLive (options i ∷ options i ∷ real_connect i true ∷ [])
        (set_names version charset i) (refl, (refl, (refl, tt))) refl (names-Leads i)
  connect-Leads i false = ((refl, (refl, (refl, tt))), (ready, refl, tt))

  pub timeout-Leads :
      (i : ℕ) (h : Handle) (ok : Bool)
      → IsLive h
      → Leads i h IsLive (mod_my_timeout_handler version charset i true ok)
  unfolding mod_my_timeout_handler plain
  timeout-Leads i ready ok h = ((refl, tt), (ready, refl, tt))
  timeout-Leads i opened ok h = ((refl, tt), (opened, refl, tt))
  timeout-Leads i raw ok h = absurd h
  timeout-Leads i closed ok h = absurd h

  pub thread_init-Leads :
      (id : ℕ) (ok added : Bool)
      → Leads (id + 1) raw IsLive (mod_my_thread_init version charset id ok added)
  unfolding mod_my_thread_init plain
  thread_init-Leads id ok added =
      behind-Leads (id + 1) raw ready IsLive (init (id + 1) ∷ thread_init ∷ [])
        (then_timer (id + 1) added [] (mod_my_connect version charset (id + 1) ok)) (refl, (tt, tt))
        refl
        (timer-Leads (id + 1) ready IsLive added [] _ tt (λ g. refl) (connect-Leads (id + 1) ok))

  pub start-Leads :
      (n : ℕ) (ok added : Bool) → Leads 0 raw IsLive (mod_my_start version charset n ok added)
  unfolding mod_my_start plain
  start-Leads n ok added =
      behind-Leads 0 raw ready IsLive
        (alloc_conns (n + 1) ∷ library_init ∷ init 0 ∷ thread_init ∷ [])
        (then_timer 0 added (alloc_events (n + 1) ∷ []) (mod_my_connect version charset 0 ok))
        (tt, (tt, (refl, (tt, tt)))) refl
        (timer-Leads 0 ready IsLive added (alloc_events (n + 1) ∷ []) _ (tt, tt) (λ g. refl)
          (connect-Leads 0 ok))

pub ended-Leads :
    (id : ℕ) (h : Handle)
    → IsLive h
    → Leads (id + 1) h (λ g. g ≡ closed) (some (mod_my_thread_destory id))
unfolding mod_my_thread_destory plain
ended-Leads id ready h = ((refl, (tt, (tt, tt))), (closed, refl, refl))
ended-Leads id opened h = ((refl, (tt, (tt, tt))), (closed, refl, refl))
ended-Leads id raw h = absurd h
ended-Leads id closed h = absurd h

pub stop-Leads : (h : Handle) → IsLive h → Leads 0 h (λ g. g ≡ closed) (some mod_my_stop)
unfolding mod_my_stop plain
stop-Leads ready h = ((refl, (tt, (tt, (tt, (tt, (tt, tt)))))), (closed, refl, refl))
stop-Leads opened h = ((refl, (tt, (tt, (tt, (tt, (tt, tt)))))), (closed, refl, refl))
stop-Leads raw h = absurd h
stop-Leads closed h = absurd h
