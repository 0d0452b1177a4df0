-- ===== src/Loop/Lifecycle/Still.antt =====
-- Which phases a worker may be in while the main thread stands at a place.
use rt_csp.Base.{
  [], ◌∷◌, not, ℕ, zero, suc, ◌+◌, ◌≤◌, ◌<◌, ◌≡◌, refl, sym, ◌∙◌, ap, ◌≢◌, Bool, true, false,
  Bool-cases, inl, inr, some, List, arith, ◌==◌, ltb, leb, if◌then◌else◌, length, length-set,
  get_elem?, get_elem?-set_self, get_elem?-set_ne, set, replicate, length-replicate,
}
use mathlib.Core.Path.{subst}
use rt_csp.Loop.Lifecycle.{
  Event, Place, Phase, absent, initialising, up, closing, destroying, gone, starting, creating,
  awaiting, looping, notifying, draining, stopping, Life, is_told, at_place, Step, starts, begins,
  creates, waits, loops, accepts, signalled, notifies, drains, breaks, stops, inits, counts, serves,
  leaves, closes, destroys_all, destroys, ends, Reach, here, next,
}

abbrev pub is_there : Phase → Bool
is_there absent = false
is_there p = true

abbrev pub is_young : ℕ → Phase → Bool
is_young len (initialising k) = leb k len
is_young len up = true
is_young len p = false

-- A worker ends only after it was told to.
abbrev pub allowed : ℕ → Place → ℕ → Phase → Bool
allowed len (starting k) w p = not (is_there p)
allowed len (creating i) w p = if ltb w i then is_young len p else not (is_there p)
allowed len awaiting w p = is_young len p
allowed len looping w p = is_young len p
allowed len (notifying i) w p = if ltb w i then is_there p else is_young len p
allowed len draining w p = is_there p
allowed len (stopping k) w p = is_there p

abbrev pub Bounded : ℕ → ℕ → Place → Type 0
Bounded len n (starting k) = k ≤ len
Bounded len n (creating i) = i ≤ n
Bounded len n awaiting = Unit {0}
Bounded len n looping = Unit {0}
Bounded len n (notifying i) = i ≤ n
Bounded len n draining = Unit {0}
Bounded len n (stopping k) = k ≤ len

pub record IsStill (len n : ℕ) (s : Life) : Type 0 where
  pub size : length s.workers ≡ n
  pub bound : Bounded len n s.place
  pub phases : (w : ℕ) (p : Phase) → get_elem? s.workers w ≡ some p → allowed len s.place w p ≡ true

in_range : (ws : List Phase) (w : ℕ) (p : Phase) → get_elem? ws w ≡ some p → w < length ws
in_range [] w p e = cc
in_range (q ∷ ws) zero p e = omega arith
in_range (q ∷ ws) (suc w) p e = omega (arith, in_range ws w p e)

main-IsStill :
    (len n : ℕ) (s : Life) (m : Place) (log : List Event)
    → IsStill len n s
    → Bounded len n m
    → ((w : ℕ) (p : Phase) → w < n → allowed len s.place w p ≡ true → allowed len m w p ≡ true)
    → IsStill len n (record s { place = m; log = log })
main-IsStill len n s m log v b f = record {
  size = v.size;
  bound = b;
  phases = λ w p e. f w p (omega (arith, v.size, in_range s.workers w p e)) (v.phases w p e);
}

worker-IsStill :
    (len n : ℕ) (s : Life) (m : Place) (w : ℕ) (p q : Phase) (k : ℕ) (log : List Event)
    → get_elem? s.workers w ≡ some p
    → IsStill len n s
    → Bounded len n m
    → (allowed len s.place w p ≡ true → allowed len m w q ≡ true)
    → ((j : ℕ) (r : Phase) → j ≢ w → allowed len s.place j r ≡ true → allowed len m j r ≡ true)
    → IsStill len n (record { place = m; nthreads = k; workers = set s.workers w q; log = log })
worker-IsStill len n s m w p q k log e v b own rest = record {
  size = length-set s.workers w q ∙ v.size;
  bound = b;
  phases = λ j r g. elim (Bool-cases (w == j)) [
    | inl y ↦
        let d : w ≡ j = ground (arith, y) in
        let there = get_elem?-set_self s.workers w q (in_range s.workers w p e) in
        let f : some q ≡ some r = sym there ∙ ap (λ x. get_elem? (set s.workers w q) x) d ∙ g in
        subst (λ x. allowed len m x r ≡ true) d
          (subst (λ x. allowed len m w x ≡ true) (same_phase q r f) (own (v.phases w p e)))
    | inr y ↦
        let d : w ≢ j = λ x. ground (arith, y, x) in
        rest j r (λ x. d (sym x)) (v.phases j r (sym (get_elem?-set_ne s.workers w j q d) ∙ g))
  ];
}
  where
    same_phase : (a b : Phase) → some a ≡ some b → a ≡ b
    same_phase a b f = cc

young_there : (len : ℕ) (p : Phase) → is_young len p ≡ true → is_there p ≡ true
young_there len absent h = cc
young_there len (initialising k) h = refl
young_there len up h = refl
young_there len closing h = refl
young_there len (destroying k) h = refl
young_there len gone h = refl

allowed_goes :
    (len : ℕ) (m : Place) (w : ℕ) (p q : Phase)
    → is_there p ≡ true
    → is_there q ≡ true
    → (is_young len p ≡ true → is_young len q ≡ true)
    → allowed len m w p ≡ true
    → allowed len m w q ≡ true
allowed_goes len (starting k) w p q a b c h = ground (arith, a, h)
allowed_goes len (creating i) w p q a b c h = ground (arith, a, b, c, h)
allowed_goes len awaiting w p q a b c h = c h
allowed_goes len looping w p q a b c h = c h
allowed_goes len (notifying i) w p q a b c h = ground (arith, a, b, c, h)
allowed_goes len draining w p q a b c h = b
allowed_goes len (stopping k) w p q a b c h = b

allowed_told : (len : ℕ) (m : Place) (w : ℕ) → is_told m w ≡ true → allowed len m w closing ≡ true
allowed_told len (starting k) w t = cc
allowed_told len (creating i) w t = cc
allowed_told len awaiting w t = cc
allowed_told len looping w t = cc
allowed_told len (notifying i) w t = ground (arith, t)
allowed_told len draining w t = refl
allowed_told len (stopping k) w t = refl

-- The invariant at the place where the main thread is known to be.
placed :
    (len n : ℕ) (s : Life) (m : Place)
    → s.place ≡ m
    → IsStill len n s
    → IsStill len n (at_place s m)
placed len n s m e v = subst (λ x. IsStill len n (at_place s x)) e v

worker_on :
    (len n : ℕ) (s : Life) (w : ℕ) (p q : Phase) (k : ℕ) (log : List Event)
    → get_elem? s.workers w ≡ some p
    → IsStill len n s
    → (allowed len s.place w p ≡ true → allowed len s.place w q ≡ true)
    → IsStill len n
        (record { place = s.place; nthreads = k; workers = set s.workers w q; log = log })
worker_on len n s w p q k log g v own =
    worker-IsStill len n s s.place w p q k log g v v.bound own (λ j r d a. a)

Step-IsStill : (len n : ℕ) {s u : Life} → Step len n s u → IsStill len n s → IsStill len n u
Step-IsStill len n {s} (starts k m l e) v = rw e (
    main-IsStill len n (at_place s (starting k)) (starting (k + 1)) _ (placed len n s _ m v)
      (omega arith) (λ w p l a. a))
Step-IsStill len n {s} (begins m e) v = rw e (
    main-IsStill len n (at_place s (starting len)) (creating 0) _ (placed len n s _ m v)
      (omega arith) (λ w p l a. ground (arith, a)))
Step-IsStill len n {s} (creates i m g e) v = rw e (
    worker-IsStill len n (at_place s (creating i)) (creating (i + 1)) i absent (initialising 0) _ _
      g (placed len n s _ m v) (omega (arith, v.size, in_range s.workers i absent g))
      (λ a. ground arith) (λ j r d a. ground (arith, d, a)))
Step-IsStill len n {s} (waits m e) v = rw e (
    main-IsStill len n (at_place s (creating n)) awaiting _ (placed len n s _ m v) tt
      (λ w p l a. ground (arith, l, a)))
Step-IsStill len n {s} (loops m l e) v =
    rw e
      (main-IsStill len n (at_place s awaiting) looping _ (placed len n s _ m v) tt (λ w p l a. a))
Step-IsStill len n {s} (accepts m e) v =
    rw e (main-IsStill len n s s.place _ v v.bound (λ w p l a. a))
Step-IsStill len n {s} (signalled m e) v = rw e (
    main-IsStill len n (at_place s looping) (notifying 0) _ (placed len n s _ m v) (omega arith)
      (λ w p l a. ground (arith, a)))
Step-IsStill len n {s} (notifies i m l e) v = rw e (
    main-IsStill len n (at_place s (notifying i)) (notifying (i + 1)) _ (placed len n s _ m v)
      (omega (arith, l)) (λ w p l a. ground (arith, a, young_there len p)))
Step-IsStill len n {s} (drains m e) v = rw e (
    main-IsStill len n (at_place s (notifying n)) draining _ (placed len n s _ m v) tt
      (λ w p l a. ground (arith, l, a)))
Step-IsStill len n {s} (breaks m z e) v = rw e (
    main-IsStill len n (at_place s draining) (stopping len) _ (placed len n s _ m v) (omega arith)
      (λ w p l a. a))
Step-IsStill len n {s} (stops k m e) v = rw e (
    main-IsStill len n (at_place s (stopping (k + 1))) (stopping k) _ (placed len n s _ m v)
      (let b = (placed len n s _ m v).bound in omega (arith, b)) (λ w p l a. a))
Step-IsStill len n {s} (inits w k g l e) v = rw e (
    worker_on len n s w _ _ _ _ g v (
      allowed_goes len s.place w (initialising k) (initialising (k + 1)) refl refl
        (λ a. ground (arith, l))))
Step-IsStill len n {s} (counts w g e) v = rw e (
    worker_on len n s w _ _ _ _ g v
      (allowed_goes len s.place w (initialising len) up refl refl (λ a. refl)))
Step-IsStill len n {s} (serves w g e) v = rw e (worker_on len n s w _ _ _ _ g v (λ a. a))
Step-IsStill len n {s} (leaves w g t e) v =
    rw e (worker_on len n s w _ _ _ _ g v (λ a. allowed_told len s.place w t))
Step-IsStill len n {s} (closes w g e) v = rw e (worker_on len n s w _ _ _ _ g v (λ a. a))
Step-IsStill len n {s} (destroys_all w g e) v = rw e (
    worker_on len n s w _ _ _ _ g v
      (allowed_goes len s.place w closing (destroying len) refl refl (λ a. a)))
Step-IsStill len n {s} (destroys w k g e) v = rw e (
    worker_on len n s w _ _ _ _ g v
      (allowed_goes len s.place w (destroying (k + 1)) (destroying k) refl refl (λ a. a)))
Step-IsStill len n {s} (ends w g e) v = rw e (
    worker_on len n s w _ _ _ _ g v
      (allowed_goes len s.place w (destroying 0) gone refl refl (λ a. a)))

all_replicate :
    (n w : ℕ) (p : Phase) → get_elem? (replicate n absent) w ≡ some p → not (is_there p) ≡ true
all_replicate zero w p e = cc
all_replicate (suc n) zero p e = first p e
  where
    first : (q : Phase) → some absent ≡ some q → not (is_there q) ≡ true
    first q f = let d : absent ≡ q = cc in subst (λ x. not (is_there x) ≡ true) d refl
all_replicate (suc n) (suc w) p e = all_replicate n w p e

pub Reach-IsStill : {len n : ℕ} {s : Life} → Reach len n s → IsStill len n s
Reach-IsStill {len} {n} (here e) = rw e (record {
  size = length-replicate {A = Phase} n absent;
  bound = omega arith;
  phases = λ w p g. all_replicate n w p g;
})
Reach-IsStill {len} {n} (next r st) = Step-IsStill len n st (Reach-IsStill r)
