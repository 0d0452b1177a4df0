-- ===== src/Loop/Lifecycle/Bracketed.antt =====
-- The order in which a thread calls the hooks of one module.
use rt_csp.Base.{
  ℕ, zero, suc, ◌+◌, ◌<◌, ◌≡◌, refl, sym, ◌≢◌, ap, ◌∙◌, Bool, true, false, Bool-cases, inl, inr,
  Option, none, some, List, [], ◌∷◌, ◌++◌, ◌==◌, if◌then◌else◌, ltb, arith, get_elem?, get_or,
  get_or-set, set, get_or-replicate, length,
}
use mathlib.Core.Path.{subst}
use rt_csp.Loop.Lifecycle.{
  Event, started, stopped, inited, destroyed, accepted, served, closed, Place, Phase, absent,
  initialising, up, closing, destroying, gone, starting, creating, awaiting, looping, notifying,
  draining, stopping, Life, at_phase, begin_life, Step, starts, begins, creates, waits, loops,
  accepts, signalled, notifies, drains, breaks, stops, inits, counts, serves, leaves, closes,
  destroys_all, destroys, ends, Reach, here, next,
}

-- The thread that calls: 0 for the main thread, or the worker's `id` and 1.
abbrev pub caller : Event → ℕ
caller (started k) = 0
caller (stopped k) = 0
caller accepted = 0
caller (inited w k) = w + 1
caller (destroyed w k) = w + 1
caller (served w) = w + 1
caller (closed w) = w + 1

-- A thread has not set up the module, has, or has given it up again.
pub data Use : Type 0 where
  before within after : Use

abbrev pub enter : Bool → Use → Option Use
enter false u = some u
enter true before = some within
enter true u = none

abbrev pub leave : Bool → Use → Option Use
leave false u = some u
leave true within = some after
leave true u = none

abbrev pub inside : Use → Option Use
inside within = some within
inside u = none

get_elem?-found :
    (ws : List Phase) (w : ℕ) (a : Phase)
    → get_elem? ws w ≡ some a
    → (w < length ws) × (get_or ws w absent ≡ a)
get_elem?-found [] w a e = cc
get_elem?-found (p ∷ ws) zero a e = (omega arith, cc)
get_elem?-found (p ∷ ws) (suc w) a e = let r = get_elem?-found ws w a e in (omega (arith, r.0), r.1)

module _ (m : ℕ) where
  -- What a call of the thread makes of its use of module `m`.
  abbrev pub use_by : Use → Event → Option Use
  use_by u (started k) = enter (k == m) u
  use_by u (stopped k) = leave (k == m) u
  use_by u (inited w k) = enter (k == m) u
  use_by u (destroyed w k) = leave (k == m) u
  use_by u accepted = inside u
  use_by u (served w) = inside u
  use_by u (closed w) = inside u

  abbrev pub use_of : ℕ → Use → Event → Option Use
  use_of i u e = if caller e == i then use_by u e else some u

  -- The calls of thread `i`, in order; `none` if one comes where it should not.
  unfoldable pub use_after : ℕ → Use → List Event → Option Use
  use_after i u [] = some u
  use_after i u (e ∷ es) = elim (use_of i u e) [ none ↦ none | some v ↦ use_after i v es ]

  kept : (o : Option Use) → elim o as (λ _. Option Use) [ none ↦ none | some v ↦ some v ] ≡ o
  kept none = refl
  kept (some v) = refl

  own_call : (i : ℕ) (u : Use) (e : Event) → caller e ≡ i → use_of i u e ≡ use_by u e
  own_call i u e c = ground (arith, c)

  others_call : (i : ℕ) (u : Use) (e : Event) → caller e ≢ i → use_of i u e ≡ some u
  others_call i u e c = ground (arith, c)

  use_after-last :
      (i : ℕ) (u v : Use) (es : List Event) (e : Event)
      → use_after i u es ≡ some v
      → use_after i u (es ++ e ∷ []) ≡ use_of i v e
  unfolding use_after
  use_after-last i u v [] e q =
      let d : u ≡ v = cc in ap (λ x. use_after i x (e ∷ [])) d ∙ kept (use_of i v e)
  use_after-last i u v (d ∷ es) e q = go (use_of i u d) (λ x. use_after-last i x v es e) q
    where
      go :
          (o : Option Use)
          → ((x : Use) → use_after i x es ≡ some v → use_after i x (es ++ e ∷ []) ≡ use_of i v e)
          → elim o as (λ _. Option Use) [ none ↦ none | some x ↦ use_after i x es ] ≡ some v
          → elim o as (λ _. Option Use) [ none ↦ none | some x ↦ use_after i x (es ++ e ∷ []) ]
            ≡ use_of i v e
      go none ih e = cc
      go (some x) ih e = ih x e

  abbrev pub by_place : Place → Use
  by_place (starting k) = if ltb m k then within else before
  by_place (stopping k) = if ltb m k then within else after
  by_place p = within

  abbrev pub by_phase : Phase → Use
  by_phase absent = before
  by_phase (initialising k) = if ltb m k then within else before
  by_phase up = within
  by_phase closing = within
  by_phase (destroying k) = if ltb m k then within else after
  by_phase gone = after

  -- What is known of the use from where the thread stands.
  abbrev pub stands : Place → List Phase → ℕ → Use
  stands p ws zero = by_place p
  stands p ws (suc w) = by_phase (get_or ws w absent)

  abbrev IsUse : Place → List Phase → List Event → Type 0
  IsUse p ws es = (i : ℕ) → use_after i before es ≡ some (stands p ws i)

  main_logs :
      (p q : Place) (ws : List Phase) (es : List Event) (e : Event)
      → caller e ≡ 0
      → use_by (by_place p) e ≡ some (by_place q)
      → IsUse p ws es
      → IsUse q ws (es ++ e ∷ [])
  main_logs p q ws es e c h v zero =
      use_after-last zero before _ es e (v zero) ∙ own_call zero (by_place p) e c ∙ h
  main_logs p q ws es e c h v (suc w) =
      use_after-last (suc w) before _ es e (v (suc w)) ∙ others_call (suc w) _ e (omega (arith, c))

  main_moves :
      (p q : Place) (ws : List Phase) (es : List Event)
      → by_place p ≡ by_place q
      → IsUse p ws es
      → IsUse q ws es
  main_moves p q ws es h v zero = v zero ∙ ap some h
  main_moves p q ws es h v (suc w) = v (suc w)

  -- Worker `w` goes from phase `a` to `b`, with the calls `es` so far and then `fs`.
  worker_goes :
      (p : Place) (ws : List Phase) (es fs : List Event) (w : ℕ) (a b : Phase)
      → get_elem? ws w ≡ some a
      → (use_after (suc w) before es ≡ some (by_phase a)
          → use_after (suc w) before fs ≡ some (by_phase b))
      → ((i : ℕ) (u : Use)
          → i ≢ suc w
          → use_after i before es ≡ some u
          → use_after i before fs ≡ some u)
      → IsUse p ws es
      → IsUse p (set ws w b) fs
  worker_goes p ws es fs w a b g own rest v zero = rest zero _ (omega arith) (v zero)
  worker_goes p ws es fs w a b g own rest v (suc j) =
      let r = get_elem?-found ws w a g in
      rw (get_or-set ws w j b absent r.0) (elim (Bool-cases (w == j)) [
        | inl e ↦
            let d : w ≡ j = ground (arith, e) in
            rw e (
              subst (λ k. use_after (suc k) before fs ≡ some (by_phase b)) d
                (own (v (suc w) ∙ ap (λ x. some (by_phase x)) r.1)))
        | inr e ↦ rw e (rest (suc j) _ (λ q. ground (arith, e, q)) (v (suc j)))
      ])

  worker_logs :
      (p : Place) (ws : List Phase) (es : List Event) (w : ℕ) (a b : Phase) (e : Event)
      → get_elem? ws w ≡ some a
      → caller e ≡ suc w
      → use_by (by_phase a) e ≡ some (by_phase b)
      → IsUse p ws es
      → IsUse p (set ws w b) (es ++ e ∷ [])
  worker_logs p ws es w a b e g c h =
      worker_goes p ws es (es ++ e ∷ []) w a b g
        (λ q. use_after-last (suc w) before _ es e q ∙ own_call (suc w) (by_phase a) e c ∙ h)
        (λ i u n q.
          use_after-last i before u es e q ∙ others_call i u e (λ d. n (omega (arith, c, d))))

  worker_moves :
      (p : Place) (ws : List Phase) (es : List Event) (w : ℕ) (a b : Phase)
      → get_elem? ws w ≡ some a
      → by_phase a ≡ by_phase b
      → IsUse p ws es
      → IsUse p (set ws w b) es
  worker_moves p ws es w a b g h =
      worker_goes p ws es es w a b g (λ q. q ∙ ap some h) (λ i u n q. q)

  abbrev Known : Life → Type 0
  Known s = IsUse s.place s.workers s.log

  entered :
      (k : ℕ)
      → enter (k == m) (if ltb m k then within else before)
        ≡ some (if ltb m (k + 1) then within else before)
  entered k = ground arith

  left_module :
      (k : ℕ)
      → leave (k == m) (if ltb m (k + 1) then within else after)
        ≡ some (if ltb m k then within else after)
  left_module k = ground arith

  nothing_left : (u : Use) → (if ltb m 0 then within else u) ≡ u
  nothing_left u = ground arith

  standing : (s : Life) (p : Place) → s.place ≡ p → Known s → IsUse p s.workers s.log
  standing s p e v = subst (λ q. IsUse q s.workers s.log) e v

  Step-Known : (len n : ℕ) → m < len → {s u : Life} → Step len n s u → Known s → Known u
  Step-Known len n h {s} (starts k p l e) v = rw e (
      main_logs (starting k) (starting (k + 1)) s.workers s.log (started k) refl (entered k)
        (standing s (starting k) p v))
  Step-Known len n h {s} (begins p e) v = rw e (
      main_moves (starting len) (creating 0) s.workers s.log (ground (arith, h))
        (standing s (starting len) p v))
  Step-Known len n h {s} (creates i p g e) v = rw e (
      main_moves (creating i) (creating (i + 1)) _ s.log refl (
        standing (at_phase s i (initialising 0)) (creating i) p
          (worker_moves s.place s.workers s.log i absent (initialising 0) g (ground arith) v)))
  Step-Known len n h {s} (waits p e) v =
      rw e (main_moves (creating n) awaiting s.workers s.log refl (standing s (creating n) p v))
  Step-Known len n h {s} (loops p l e) v =
      rw e (main_moves awaiting looping s.workers s.log refl (standing s awaiting p v))
  Step-Known len n h {s} (accepts p e) v =
      rw (e, p)
        (main_logs looping looping s.workers s.log accepted refl refl (standing s looping p v))
  Step-Known len n h {s} (signalled p e) v =
      rw e (main_moves looping (notifying 0) s.workers s.log refl (standing s looping p v))
  Step-Known len n h {s} (notifies i p l e) v = rw e (
      main_moves (notifying i) (notifying (i + 1)) s.workers s.log refl
        (standing s (notifying i) p v))
  Step-Known len n h {s} (drains p e) v =
      rw e (main_moves (notifying n) draining s.workers s.log refl (standing s (notifying n) p v))
  Step-Known len n h {s} (breaks p z e) v = rw e (
      main_moves draining (stopping len) s.workers s.log (ground (arith, h))
        (standing s draining p v))
  Step-Known len n h {s} (stops k p e) v = rw e (
      main_logs (stopping (k + 1)) (stopping k) s.workers s.log (stopped k) refl (left_module k)
        (standing s (stopping (k + 1)) p v))
  Step-Known len n h {s} (inits w k g l e) v =
      rw e (worker_logs s.place s.workers s.log w _ _ (inited w k) g (omega arith) (entered k) v)
  Step-Known len n h {s} (counts w g e) v =
      rw e (worker_moves s.place s.workers s.log w _ _ g (ground (arith, h)) v)
  Step-Known len n h {s} (serves w g e) v =
      rw e (worker_logs s.place s.workers s.log w up up (served w) g (omega arith) refl v)
  Step-Known len n h {s} (leaves w g t e) v =
      rw e (worker_moves s.place s.workers s.log w up closing g refl v)
  Step-Known len n h {s} (closes w g e) v =
      rw e (worker_logs s.place s.workers s.log w closing closing (closed w) g (omega arith) refl v)
  Step-Known len n h {s} (destroys_all w g e) v =
      rw e (worker_moves s.place s.workers s.log w closing _ g (ground (arith, h)) v)
  Step-Known len n h {s} (destroys w k g e) v =
      rw e (
        worker_logs s.place s.workers s.log w _ _ (destroyed w k) g (omega arith) (left_module k) v)
  Step-Known len n h {s} (ends w g e) v =
      rw e (worker_moves s.place s.workers s.log w _ gone g (nothing_left after) v)

  begin-Known : (len n : ℕ) → Known (begin_life len n)
  unfolding use_after
  begin-Known len n zero = ap some (sym (nothing_left before))
  begin-Known len n (suc w) = rw (get_or-replicate n w absent) refl

  Reach-Known : (len n : ℕ) → m < len → {s : Life} → Reach len n s → Known s
  Reach-Known len n h (here e) = rw e (begin-Known len n)
  Reach-Known len n h (next r st) = Step-Known len n h st (Reach-Known len n h r)

-- In every state that the threads can reach, each thread has called the hooks of a module in order:
-- `start` or `thread_init` once, then the handlers of its event loop and the closing of connections in
-- its queues, then `stop` or `thread_destory` once; and none of another thread's calls comes in
-- between as its own. After `stop` of a module and after the end of a worker no call comes any more.
pub Reach-brackets :
    (rtcsp_length rtcsp_nthreads m i : ℕ) (s : Life)
    → Reach rtcsp_length rtcsp_nthreads s
    → m < rtcsp_length
    → use_after m i before s.log ≡ some (stands m s.place s.workers i)
Reach-brackets len n m i s r h = Reach-Known m len n h r i
