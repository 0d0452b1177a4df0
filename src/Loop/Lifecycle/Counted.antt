-- ===== src/Loop/Lifecycle/Counted.antt =====
-- The count of the running workers.
use rt_csp.Base.{
  ℕ, zero, suc, ◌+◌, ◌≤◌, ◌≡◌, refl, some, List, arith, get_elem?, set, replicate, tally, tally-set,
  tally-replicate,
}
use mathlib.Core.Path.{subst}
use rt_csp.Loop.Lifecycle.{
  Event, Place, Phase, absent, initialising, up, closing, destroying, gone, starting, creating,
  awaiting, looping, notifying, draining, stopping, Life, begin_life, Step, starts, begins, creates,
  waits, loops, accepts, signalled, notifies, drains, breaks, stops, inits, counts, serves, leaves,
  closes, destroys_all, destroys, ends, Reach, here, next,
}

-- 1 for a worker that is not there, that has not been counted yet, that is counted, that has ended.
abbrev pub is_absent : Phase → ℕ
is_absent absent = 1
is_absent _ = 0

abbrev pub is_fresh : Phase → ℕ
is_fresh (initialising k) = 1
is_fresh _ = 0

abbrev pub is_counted : Phase → ℕ
is_counted up = 1
is_counted closing = 1
is_counted (destroying k) = 1
is_counted _ = 0

abbrev pub is_gone : Phase → ℕ
is_gone gone = 1
is_gone _ = 0

abbrev pub Fits : ℕ → Place → List Phase → Type 0
Fits n (starting k) ws = tally is_absent ws ≡ n
Fits n (creating i) ws = Unit {0}
Fits n awaiting ws = Unit {0}
Fits n looping ws = tally is_absent ws + tally is_fresh ws ≡ 0
Fits n (notifying i) ws = tally is_absent ws + tally is_fresh ws ≡ 0
Fits n draining ws = tally is_absent ws + tally is_fresh ws ≡ 0
Fits n (stopping k) ws = tally is_gone ws ≡ n

pub record IsLife (n : ℕ) (s : Life) : Type 0 where
  pub all :
      tally is_absent s.workers
        + tally is_fresh s.workers
        + tally is_counted s.workers
        + tally is_gone s.workers
      ≡ n
  pub count : s.nthreads ≡ tally is_counted s.workers
  pub fits : Fits n s.place s.workers

abbrev pub Moves : List Phase → ℕ → Phase → Phase → Type 0
Moves ws w p q =
    (tally is_fresh (set ws w q) + is_fresh p ≡ tally is_fresh ws + is_fresh q)
    × (tally is_counted (set ws w q) + is_counted p ≡ tally is_counted ws + is_counted q)
    × (tally is_gone (set ws w q) + is_gone p ≡ tally is_gone ws + is_gone q)
    × (tally is_absent (set ws w q) + is_absent p ≡ tally is_absent ws + is_absent q)
    × (is_fresh p ≤ tally is_fresh ws)
    × (is_counted p ≤ tally is_counted ws)

pub moves : (ws : List Phase) (w : ℕ) (p q : Phase) → get_elem? ws w ≡ some p → Moves ws w p q
moves ws w p q e = (
  tally-set is_fresh ws w p q e,
  tally-set is_counted ws w p q e,
  tally-set is_gone ws w p q e,
  tally-set is_absent ws w p q e,
  omega (arith, tally-set is_fresh ws w p gone e),
  omega (arith, tally-set is_counted ws w p gone e),
)

-- A step of a worker that goes from one phase to another.
abbrev Lawful : Phase → Phase → Type 0
Lawful p q =
    (is_absent p ≡ 0)
    × (is_absent q ≡ 0)
    × (is_fresh q ≤ is_fresh p)
    × (is_gone p ≡ 0)
    × (is_fresh p + is_counted p + is_gone p ≡ 1)
    × (is_fresh q + is_counted q + is_gone q ≡ 1)

fits-moves :
    (n : ℕ) (m : Place) (ws : List Phase) (w : ℕ) (p q : Phase)
    → Moves ws w p q
    → Lawful p q
    → tally is_absent ws + tally is_fresh ws + tally is_counted ws + tally is_gone ws ≡ n
    → Fits n m ws
    → Fits n m (set ws w q)
fits-moves n (starting k) ws w p q v l a f = omega (arith, v, l, a, f)
fits-moves n (creating i) ws w p q v l a f = tt
fits-moves n awaiting ws w p q v l a f = tt
fits-moves n looping ws w p q v l a f = omega (arith, v, l, a, f)
fits-moves n (notifying i) ws w p q v l a f = omega (arith, v, l, a, f)
fits-moves n draining ws w p q v l a f = omega (arith, v, l, a, f)
fits-moves n (stopping k) ws w p q v l a f = omega (arith, v, l, a, f)

-- The invariant after a step of a worker.
worker-IsLife :
    (n : ℕ) (s : Life) (w : ℕ) (p q : Phase) (k : ℕ) (log : List Event)
    → get_elem? s.workers w ≡ some p
    → Lawful p q
    → k + is_counted p ≡ s.nthreads + is_counted q
    → IsLife n s
    → IsLife n (record s { nthreads = k; workers = set s.workers w q; log = log })
worker-IsLife n s w p q k log e l c v =
    let m = moves s.workers w p q e in
    record {
      all = omega (arith, m, l, v.all);
      count = omega (arith, m, l, c, v.count);
      fits = fits-moves n s.place s.workers w p q m l v.all v.fits;
    }

goal_place :
    (n : ℕ) (s : Life) (m : Place) (log : List Event)
    → IsLife n s
    → Fits n m s.workers
    → IsLife n (record s { place = m; log = log })
goal_place n s m log v f = record { all = v.all; count = v.count; fits = f }

-- What fits at one place fits at the next.
at : (n : ℕ) (s : Life) (m : Place) → IsLife n s → s.place ≡ m → Fits n m s.workers
at n s m v e = subst (λ p. Fits n p s.workers) e v.fits

Step-IsLife : (len n : ℕ) {s u : Life} → Step len n s u → IsLife n s → IsLife n u
Step-IsLife len n {s} (starts k m l e) v =
    rw e (goal_place n s (starting (k + 1)) _ v (at n s (starting k) v m))
Step-IsLife len n {s} (begins m e) v = rw e (goal_place n s (creating 0) _ v tt)
Step-IsLife len n {s} (creates i m g e) v =
    let o = moves s.workers i absent (initialising 0) g in
    rw e (record { all = omega (arith, o, v.all); count = omega (arith, o, v.count); fits = tt })
Step-IsLife len n {s} (waits m e) v = rw e (goal_place n s awaiting _ v tt)
Step-IsLife len n {s} (loops m l e) v =
    rw e (goal_place n s looping _ v (omega (arith, v.all, v.count, l)))
Step-IsLife len n {s} (accepts m e) v = rw e (goal_place n s s.place _ v v.fits)
Step-IsLife len n {s} (signalled m e) v =
    rw e (goal_place n s (notifying 0) _ v (at n s looping v m))
Step-IsLife len n {s} (notifies i m l e) v =
    rw e (goal_place n s (notifying (i + 1)) _ v (at n s (notifying i) v m))
Step-IsLife len n {s} (drains m e) v = rw e (goal_place n s draining _ v (at n s (notifying n) v m))
Step-IsLife len n {s} (breaks m z e) v =
    rw e (goal_place n s (stopping len) _ v (omega (arith, v.all, v.count, z, at n s draining v m)))
Step-IsLife len n {s} (stops k m e) v =
    rw e (goal_place n s (stopping k) _ v (at n s (stopping (k + 1)) v m))
Step-IsLife len n {s} (inits w k g l e) v =
    rw e (worker-IsLife n s w _ _ _ _ g (refl, refl, omega arith, refl, refl, refl) refl v)
Step-IsLife len n {s} (counts w g e) v =
    rw e (worker-IsLife n s w _ _ _ _ g (refl, refl, omega arith, refl, refl, refl) (omega arith) v)
Step-IsLife len n {s} (serves w g e) v =
    rw e (worker-IsLife n s w _ _ _ _ g (refl, refl, omega arith, refl, refl, refl) refl v)
Step-IsLife len n {s} (leaves w g t e) v =
    rw e (worker-IsLife n s w _ _ _ _ g (refl, refl, omega arith, refl, refl, refl) refl v)
Step-IsLife len n {s} (closes w g e) v =
    rw e (worker-IsLife n s w _ _ _ _ g (refl, refl, omega arith, refl, refl, refl) refl v)
Step-IsLife len n {s} (destroys_all w g e) v =
    rw e (worker-IsLife n s w _ _ _ _ g (refl, refl, omega arith, refl, refl, refl) refl v)
Step-IsLife len n {s} (destroys w k g e) v =
    rw e (worker-IsLife n s w _ _ _ _ g (refl, refl, omega arith, refl, refl, refl) refl v)
Step-IsLife len n {s} (ends w g e) v =
    let o = moves s.workers w (destroying 0) gone g in
    rw e (
      worker-IsLife n s w _ _ _ _ g (refl, refl, omega arith, refl, refl, refl)
        (omega (arith, o, v.count)) v)

all_absent : (n : ℕ) → tally is_absent (replicate n absent) ≡ n
all_absent zero = refl
all_absent (suc n) = omega (arith, all_absent n)

begin_life-IsLife : (len n : ℕ) → IsLife n (begin_life len n)
begin_life-IsLife len n = record {
  all = omega (
    arith,
    all_absent n,
    tally-replicate is_fresh n absent refl,
    tally-replicate is_counted n absent refl,
    tally-replicate is_gone n absent refl,
  );
  count = omega (arith, tally-replicate is_counted n absent refl);
  fits = all_absent n;
}

pub Reach-IsLife : {len n : ℕ} {s : Life} → Reach len n s → IsLife n s
Reach-IsLife {len} {n} (here e) = rw e (begin_life-IsLife len n)
Reach-IsLife {len} {n} (next r st) = Step-IsLife len n st (Reach-IsLife r)
