-- ===== src/Database/Schedule.antt =====
-- The database module in the life of the server: which of its functions are called, by the calls of the hooks
-- of module 0, which it is in rtcsp_modules.
use rt_csp.Base.{
  ℕ, ◌+◌, ◌≤◌, ◌<◌, ◌≡◌, refl, sym, ◌∙◌, ap, Bool, true, false, Bool-cases, inl, inr, ◌==◌,
  if◌then◌else◌, Option, none, some, List, [], ◌∷◌, ◌++◌, length,
}
use rt_csp.Loop.Lifecycle.{
  Event, started, stopped, inited, destroyed, accepted, served, closed, Life, Reach,
}
use rt_csp.Loop.Lifecycle.Bracketed.{
  Use, enter, leave, inside, caller, use_by, use_of, use_after, Reach-brackets,
}
use rt_csp.Loop.Lifecycle.Bracketed
use rt_csp.Database.Handles.Uses.{Handle, raw}
use rt_csp.Database.Handles.Turns.{
  Turn, start, thread_start, tick, thread_stop, stop, Stage, before, within, after, move, owner,
  orderly, turns, turns-Orderly,
}

same_use : (u v : Use) → some u ≡ some v → u ≡ v
same_use u v q = cc

abbrev stage_of : Use → Stage
stage_of Bracketed.before = before
stage_of Bracketed.within = within
stage_of Bracketed.after = after

-- What the library and libevent answer at each call, and whether a handler of an event loop is the
-- timer's.
module _ (nthreads : ℕ) (connected added is_timer : ℕ → Bool) where
  abbrev pub turn_of : ℕ → Event → List Turn
  turn_of k (started m) = if m == 0 then start nthreads (connected k) (added k) ∷ [] else []
  turn_of k (stopped m) = if m == 0 then stop ∷ [] else []
  turn_of k (inited w m) = if m == 0 then thread_start w (connected k) (added k) ∷ [] else []
  turn_of k (destroyed w m) = if m == 0 then thread_stop w ∷ [] else []
  turn_of k accepted = if is_timer k then tick 0 true (connected k) ∷ [] else []
  turn_of k (served w) = if is_timer k then tick (w + 1) true (connected k) ∷ [] else []
  turn_of k (closed w) = []

  unfoldable pub turns_of : ℕ → List Event → List Turn
  turns_of k [] = []
  turns_of k (e ∷ es) = turn_of k e ++ turns_of (k + 1) es

  -- A call that is a turn, and one that is none.
  one_turn :
      (i : ℕ) (u v : Use) (e : Event) (t : Turn) (ts : List Turn)
      → owner t ≡ caller e
      → (use_by 0 u e ≡ some v → move (stage_of u) t ≡ some (stage_of v))
      → use_of 0 i u e ≡ some v
      → orderly i (stage_of v) ts ≡ true
      → orderly i (stage_of u) (t ∷ ts) ≡ true
  one_turn i u v e t ts o step q h = elim (Bool-cases (caller e == i)) [
    | inl y ↦ rw (orderly, o, y, step (rw y at q)) h
    | inr y ↦ let d : u ≡ v = same_use u v (rw y at q) in rw (orderly, o, y, d) h
  ]

  no_turn :
      (i : ℕ) (u v : Use) (e : Event) (ts : List Turn)
      → (use_by 0 u e ≡ some v → u ≡ v)
      → use_of 0 i u e ≡ some v
      → orderly i (stage_of v) ts ≡ true
      → orderly i (stage_of u) ts ≡ true
  no_turn i u v e ts step q h = elim (Bool-cases (caller e == i)) [
    | inl y ↦ rw (step (rw y at q)) h
    | inr y ↦ rw (same_use u v (rw y at q)) h
  ]

  entering :
      (u v : Use) (t : Turn)
      → move before t ≡ some within
      → enter true u ≡ some v
      → move (stage_of u) t ≡ some (stage_of v)
  entering Bracketed.before v t h q =
      h ∙ ap (λ x. some (stage_of x)) (same_use Bracketed.within v q)
  entering Bracketed.within v t h q = cc
  entering Bracketed.after v t h q = cc

  staying :
      (u v : Use) (t : Turn)
      → move within t ≡ some within
      → inside u ≡ some v
      → move (stage_of u) t ≡ some (stage_of v)
  staying Bracketed.before v t h q = cc
  staying Bracketed.within v t h q = h ∙ ap (λ x. some (stage_of x)) (same_use Bracketed.within v q)
  staying Bracketed.after v t h q = cc

  leaving :
      (u v : Use) (t : Turn)
      → move within t ≡ some after
      → leave true u ≡ some v
      → move (stage_of u) t ≡ some (stage_of v)
  leaving Bracketed.before v t h q = cc
  leaving Bracketed.within v t h q = h ∙ ap (λ x. some (stage_of x)) (same_use Bracketed.after v q)
  leaving Bracketed.after v t h q = cc

  staying_same : (u v : Use) → inside u ≡ some v → u ≡ v
  staying_same Bracketed.before v q = cc
  staying_same Bracketed.within v q = same_use Bracketed.within v q
  staying_same Bracketed.after v q = cc

  timer_turn :
      (b : Bool) (i : ℕ) (u v : Use) (e : Event) (t : Turn) (ts : List Turn)
      → owner t ≡ caller e
      → move within t ≡ some within
      → use_by 0 u e ≡ inside u
      → use_of 0 i u e ≡ some v
      → orderly i (stage_of v) ts ≡ true
      → orderly i (stage_of u) ((if b then t ∷ [] else []) ++ ts) ≡ true
  timer_turn true i u v e t ts o m s q h =
      one_turn i u v e t ts o (λ r. staying u v t m (sym s ∙ r)) q h
  timer_turn false i u v e t ts o m s q h =
      no_turn i u v e ts (λ r. staying_same u v (sym s ∙ r)) q h

  entering_turn :
      (b : Bool) (i : ℕ) (u v : Use) (e : Event) (t : Turn) (ts : List Turn)
      → owner t ≡ caller e
      → move before t ≡ some within
      → use_by 0 u e ≡ enter b u
      → use_of 0 i u e ≡ some v
      → orderly i (stage_of v) ts ≡ true
      → orderly i (stage_of u) ((if b then t ∷ [] else []) ++ ts) ≡ true
  entering_turn true i u v e t ts o m s q h =
      one_turn i u v e t ts o (λ r. entering u v t m (sym s ∙ r)) q h
  entering_turn false i u v e t ts o m s q h =
      no_turn i u v e ts (λ r. same_use u v (sym s ∙ r)) q h

  leaving_turn :
      (b : Bool) (i : ℕ) (u v : Use) (e : Event) (t : Turn) (ts : List Turn)
      → owner t ≡ caller e
      → move within t ≡ some after
      → use_by 0 u e ≡ leave b u
      → use_of 0 i u e ≡ some v
      → orderly i (stage_of v) ts ≡ true
      → orderly i (stage_of u) ((if b then t ∷ [] else []) ++ ts) ≡ true
  leaving_turn true i u v e t ts o m s q h =
      one_turn i u v e t ts o (λ r. leaving u v t m (sym s ∙ r)) q h
  leaving_turn false i u v e t ts o m s q h = no_turn i u v e ts (λ r. same_use u v (sym s ∙ r)) q h

  turn_orderly :
      (k i : ℕ) (u v : Use) (e : Event) (ts : List Turn)
      → use_of 0 i u e ≡ some v
      → orderly i (stage_of v) ts ≡ true
      → orderly i (stage_of u) (turn_of k e ++ ts) ≡ true
  turn_orderly k i u v (started m) ts q h =
      entering_turn (m == 0) i u v (started m) (start nthreads (connected k) (added k)) ts refl refl
        refl q h
  turn_orderly k i u v (stopped m) ts q h =
      leaving_turn (m == 0) i u v (stopped m) stop ts refl refl refl q h
  turn_orderly k i u v (inited w m) ts q h =
      entering_turn (m == 0) i u v (inited w m) (thread_start w (connected k) (added k)) ts refl
        refl refl q h
  turn_orderly k i u v (destroyed w m) ts q h =
      leaving_turn (m == 0) i u v (destroyed w m) (thread_stop w) ts refl refl refl q h
  turn_orderly k i u v accepted ts q h =
      timer_turn (is_timer k) i u v accepted (tick 0 true (connected k)) ts refl refl refl q h
  turn_orderly k i u v (served w) ts q h =
      timer_turn (is_timer k) i u v (served w) (tick (w + 1) true (connected k)) ts refl refl refl q
        h
  turn_orderly k i u v (closed w) ts q h = no_turn i u v (closed w) ts (staying_same u v) q h

  turns_orderly :
      (k i : ℕ) (u v : Use) (es : List Event)
      → use_after 0 i u es ≡ some v
      → orderly i (stage_of u) (turns_of k es) ≡ true
  unfolding use_after turns_of
  turns_orderly k i u v [] q = refl
  turns_orderly k i u v (e ∷ es) q =
      go (use_of 0 i u e) (λ w x. turns_orderly (k + 1) i w v es x)
        (λ w x. turn_orderly k i u w e (turns_of (k + 1) es) x) q
    where
      go :
          (o : Option Use)
          → ((w : Use)
              → use_after 0 i w es ≡ some v
              → orderly i (stage_of w) (turns_of (k + 1) es) ≡ true)
          → ((w : Use)
              → o ≡ some w
              → orderly i (stage_of w) (turns_of (k + 1) es) ≡ true
              → orderly i (stage_of u) (turn_of k e ++ turns_of (k + 1) es) ≡ true)
          → elim o as (λ _. Option Use) [ none ↦ none | some w ↦ use_after 0 i w es ] ≡ some v
          → orderly i (stage_of u) (turn_of k e ++ turns_of (k + 1) es) ≡ true
      go none ih step q = cc
      go (some w) ih step q = step w refl (ih w q)

-- In every state of the server that its threads can reach, the calls that the database module's own
-- functions have made on a connection handle are in an order that the library's manual allows, if the
-- module comes first in rtcsp_modules, the server answers the pings of the timers so far, and the name
-- of the character set has at most 89 bytes. The queries of other modules on the handle, which may
-- also come after a failed connect, are not among these calls.
pub Reach-handles :
    (rtcsp_length rtcsp_nthreads version : ℕ) (charset : List ℕ)
    (connected added is_timer : ℕ → Bool) (i : ℕ) (s : Life)
    → Reach rtcsp_length rtcsp_nthreads s
    → 0 < rtcsp_length
    → length charset ≤ 89
    → (g : Handle) × (turns version charset i raw
          (turns_of rtcsp_nthreads connected added is_timer 0 s.log)
        ≡ some g)
Reach-handles len n version charset connected added is_timer i s r l short =
    turns-Orderly version charset i (turns_of n connected added is_timer 0 s.log) short (
      turns_orderly n connected added is_timer 0 i Bracketed.before _ s.log
        (Reach-brackets len n 0 i s r l))
