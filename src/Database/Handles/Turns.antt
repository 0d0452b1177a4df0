-- ===== src/Database/Handles/Turns.antt =====
-- The turns of all threads on the database module, in any order.
use rt_csp.Base.{
  ℕ, ◌+◌, ◌≤◌, ◌≡◌, refl, ◌∙◌, Bool, true, false, Bool-cases, inl, inr, Option, none, some, List,
  [], ◌∷◌, ◌==◌, if◌then◌else◌, length, arith,
}
use mathlib.Core.Path.{subst}
use rt_csp.Database.Handles.{
  Call, ping, close, options, real_connect, set_names, behind, mod_my_connect,
  mod_my_timeout_handler, mod_my_thread_init, mod_my_thread_destory, mod_my_start, mod_my_stop,
}
use rt_csp.Database.Handles.Uses.{
  Handle, raw, ready, closed, uses, Only, uses-Only, uses-others, uses-closed_options,
}
use rt_csp.Database.Handles.Lives.{
  IsLive, Leads, connect-Leads, timeout-Leads, thread_init-Leads, start-Leads, ended-Leads,
  stop-Leads,
}

-- A call of one of the module's functions: the main thread's start and stop, a worker's, and the timer
-- of a handle, with what the library answers.
pub data Turn : Type 0 where
  start : ℕ → Bool → Bool → Turn
  thread_start : ℕ → Bool → Bool → Turn
  tick : ℕ → Bool → Bool → Turn
  thread_stop : ℕ → Turn
  stop : Turn

-- The handle that a turn uses.
abbrev pub owner : Turn → ℕ
owner (start n ok added) = 0
owner (thread_start id ok added) = id + 1
owner (tick i alive ok) = i
owner (thread_stop id) = id + 1
owner stop = 0

pub data Stage : Type 0 where
  before within after : Stage

-- A thread starts, its timer goes off while the server answers its pings, and it stops.
abbrev pub move : Stage → Turn → Option Stage
move before (start n ok added) = some within
move before (thread_start id ok added) = some within
move within (tick i true ok) = some within
move within (thread_stop id) = some after
move within stop = some after
move s t = none

-- The turns that use handle `i` come in that order; what the others do is left open.
abbrev pub orderly : ℕ → Stage → List Turn → Bool
orderly i s [] = true
orderly i s (t ∷ ts) = elim (if owner t == i then move s t else some s) [
  | none ↦ false
  | some s' ↦ orderly i s' ts
]

abbrev At : Stage → Handle → Type 0
At before h = h ≡ raw
At within h = IsLive h
At after h = h ≡ closed

-- The calls are there and about one handle.
abbrev Given : ℕ → Option (List Call) → Type 0
Given i none = ⊥
Given i (some cs) = Only i cs

abbrev pub used_by : ℕ → Handle → Option (List Call) → Option Handle
used_by i h none = none
used_by i h (some cs) = uses i h cs

own_use :
    (i : ℕ) (h : Handle) (P : Handle → Type 0) (o : Option (List Call))
    → Leads i h P o
    → (g : Handle) × (used_by i h o ≡ some g) × P g
own_use i h P none l = absurd l
own_use i h P (some cs) l = (l.1.0, uses-Only i h cs l.0 ∙ l.1.1, l.1.2)

others_use :
    (i j : ℕ) (h : Handle) (o : Option (List Call))
    → (i == j) ≡ false
    → Given j o
    → used_by i h o ≡ some h
others_use i j h none e g = absurd g
others_use i j h (some cs) e g = uses-others j i h cs e g

module _ (version : ℕ) (charset : List ℕ) where
  abbrev pub turn_calls : Turn → Option (List Call)
  turn_calls (start n ok added) = mod_my_start version charset n ok added
  turn_calls (thread_start id ok added) = mod_my_thread_init version charset id ok added
  turn_calls (tick i alive ok) = mod_my_timeout_handler version charset i alive ok
  turn_calls (thread_stop id) = some (mod_my_thread_destory id)
  turn_calls stop = some mod_my_stop

  -- What the turns make of handle `i`.
  unfoldable pub turns : ℕ → Handle → List Turn → Option Handle
  turns i h [] = some h
  turns i h (t ∷ ts) = elim (used_by i h (turn_calls t)) [ none ↦ none | some g ↦ turns i g ts ]

module _ (version : ℕ) (charset : List ℕ) (short : length charset ≤ 89) where
  Given-Leads :
      (i : ℕ) (h : Handle) (P : Handle → Type 0) (o : Option (List Call))
      → Leads i h P o
      → Given i o
  Given-Leads i h P none l = l
  Given-Leads i h P (some cs) l = l.0

  dead :
      (i : ℕ) (o : Option (List Call))
      → Given i o
      → Given i (behind (ping i ∷ []) (behind (close i ∷ []) o))
  dead i none g = g
  dead i (some cs) g = (refl, (refl, g))

  turn-Given : (t : Turn) → Given (owner t) (turn_calls version charset t)
  unfolding mod_my_timeout_handler
  turn-Given (start n ok added) =
      Given-Leads 0 raw IsLive _ (start-Leads version charset short n ok added)
  turn-Given (thread_start id ok added) =
      Given-Leads (id + 1) raw IsLive _ (thread_init-Leads version charset short id ok added)
  turn-Given (tick i true ok) = (refl, tt)
  turn-Given (tick i false ok) =
      dead i _ (Given-Leads i ready IsLive _ (connect-Leads version charset short i ok))
  turn-Given (thread_stop id) = (ended-Leads id ready tt).0
  turn-Given stop = (stop-Leads ready tt).0

  -- What a turn of the handle leaves, if it is one that may come.
  abbrev Next : Option Stage → Option Handle → Type 0
  Next none r = Unit {0}
  Next (some s) r = (g : Handle) × (r ≡ some g) × At s g

  own :
      (h : Handle) (s : Stage) (t : Turn)
      → At s h
      → Next (move s t) (used_by (owner t) h (turn_calls version charset t))
  own h before (start n ok added) a = rw a (
      own_use 0 raw IsLive (mod_my_start version charset n ok added)
        (start-Leads version charset short n ok added))
  own h before (thread_start id ok added) a = rw a (
      own_use (id + 1) raw IsLive (mod_my_thread_init version charset id ok added)
        (thread_init-Leads version charset short id ok added))
  own h within (tick i true ok) a =
      own_use i h IsLive (mod_my_timeout_handler version charset i true ok)
        (timeout-Leads version charset short i h ok a)
  own h within (thread_stop id) a =
      own_use (id + 1) h (λ g. g ≡ closed) (some (mod_my_thread_destory id)) (ended-Leads id h a)
  own h within stop a = own_use 0 h (λ g. g ≡ closed) (some mod_my_stop) (stop-Leads h a)
  own h s t a = tt

  follow :
      (i : ℕ) (ts : List Turn) (r : Option Handle) (m : Option Stage)
      → ((s : Stage) (g : Handle)
          → orderly i s ts ≡ true
          → At s g
          → (x : Handle) × (turns version charset i g ts ≡ some x))
      → elim m as (λ _. Bool) [ none ↦ false | some s ↦ orderly i s ts ] ≡ true
      → Next m r
      → (x : Handle) × (elim r as (λ _. Option Handle) [
        | none ↦ none
        | some g ↦ turns version charset i g ts
      ]
          ≡ some x)
  follow i ts r none ih e n = absurd (false_true e)
    where
      false_true : false ≡ true → ⊥
      false_true e = cc
  follow i ts r (some s) ih e (g, q, a) = rw q (ih s g e a)

  turns-At :
      (i : ℕ) (h : Handle) (s : Stage) (ts : List Turn)
      → orderly i s ts ≡ true
      → At s h
      → (g : Handle) × (turns version charset i h ts ≡ some g)
  unfolding turns
  turns-At i h s [] e a = (h, refl)
  turns-At i h s (t ∷ ts) e a =
      let ih = λ (s' : Stage) (g : Handle) (e' : orderly i s' ts ≡ true) (a' : At s' g).
        turns-At i g s' ts e' a' in
      elim (Bool-cases (owner t == i)) [
        | inl same ↦
            let j : owner t ≡ i = ground (arith, same) in
            follow i ts (used_by i h (turn_calls version charset t)) (move s t) ih
              (rw (orderly, same) at e)
              (subst (λ k. Next (move s t) (used_by k h (turn_calls version charset t))) j
                (own h s t a))
        | inr other ↦
            let q =
              others_use i (owner t) h (turn_calls version charset t) (ground (arith, other))
                (turn-Given t) in
            rw (turns, q) (turns-At i h s ts (rw (orderly, other) at e) a)
      ]

-- A connection handle is never used in a way that the library's manual rules out, in any order of the
-- turns of all threads in which its own come as they should: the module or the thread starts, which
-- makes the handle ready and connects or fails to, its timer goes off while the server answers its
-- pings, and the thread or the module stops, which closes it. It is made ready once and closed once.
-- The name of the character set must fit into the query that sets it, in 89 bytes.
pub turns-Orderly :
    (version : ℕ) (charset : List ℕ) (i : ℕ) (ts : List Turn)
    → length charset ≤ 89
    → orderly i before ts ≡ true
    → (g : Handle) × (turns version charset i raw ts ≡ some g)
turns-Orderly version charset i ts short e = turns-At version charset short i raw before ts e refl

no_use :
    (i : ℕ) (h : Handle) (o : Option (List Call))
    → ((cs : List Call) → uses i h (ping i ∷ close i ∷ options i ∷ cs) ≡ none)
    → (ok : Bool)
    → used_by i h (
        behind
          (ping i ∷ [])
          (behind (close i ∷ []) (behind (options i ∷ options i ∷ real_connect i ok ∷ []) o)))
      ≡ none
no_use i h none e ok = refl
no_use i h (some cs) e ok = e _

-- When the server does not answer the ping of a handle, the timer closes the handle and goes on to set
-- options on it, which the manual rules out, since it is not made ready again: so it is in every state
-- of the handle, and whether it then connects or not.
pub tick-unanswered :
    (version : ℕ) (charset : List ℕ) (i : ℕ) (ok : Bool) (h : Handle) (ts : List Turn)
    → turns version charset i h (tick i false ok ∷ ts) ≡ none
unfolding turns mod_my_timeout_handler mod_my_connect
tick-unanswered version charset i ok h ts =
    let ready' = uses-closed_options i h in
    rw (turns, no_use i h (if ok then set_names version charset i else some []) ready' ok) refl
