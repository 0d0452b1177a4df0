-- ===== src/Getopt/Progress.antt =====
-- Calls of `rtcsp_getopt`, and the loop over them, come to an end.
use rt_csp.Base.{
  ℕ, zero, suc, ◌<◌, ◌≤◌, ◌≡◌, refl, sym, ◌∙◌, inl, inr, true, false, ◌&&◌, ◌||◌, not, Option, none,
  some, List, [], ◌∷◌, arith, ◌==◌, leb, length, get_elem?, char_at, Bool-cases, if_cases,
}
use mathlib.Core.Bool.{false≢true}
use rt_csp.Getopt.{
  Opt, State, initial, Result, eof, code, is_long, long_option, begin_dash, getopt_arg,
  rtcsp_getopt, all_options,
}
use rt_csp.Getopt.Measure.{
  Below, IsState, IsTerminated, left_over, remaining, remaining_at, some_of_within,
}
use rt_csp.Getopt.Branches.{Inside, long_at-Below, short_option-Below}

-- What holds of an argument before the call looks at it.
abbrev Enters : List (List ℕ) → List ℕ → State → Type 0
Enters argv arg s = (get_elem? argv s.optind ≡ some arg) × IsState argv s

Enters-dash :
    (argv : List (List ℕ)) (arg : List ℕ) (s : State)
    → Enters argv arg s
    → s.dash ≡ true
    → (1 ≤ s.optchr) × (s.optchr < length arg) × (is_long arg ≡ false)
unfolding IsState
Enters-dash argv arg s v d =
    let u = v.1 d in
    let e : u.0 ≡ arg = ground (arith, v.0, u.1) in (u.2, rw (← e) u.3, rw (← e) u.4)

begin-Inside :
    (argv : List (List ℕ)) (arg : List ℕ) (s : State)
    → Enters argv arg s
    → Inside argv arg (begin_dash s) (left_over argv s)
      × ((begin_dash s).dash ≡ true)
      × (1 ≤ (begin_dash s).optchr)
unfolding left_over
begin-Inside argv arg s v = elim (Bool-cases s.dash) [
  | inl d ↦
      let u = Enters-dash argv arg s v d in
      let r = remaining_at argv s.optind arg v.0 in
      rw (d, begin_dash) (record { at = v.0; after = omega arith; before = omega arith }, refl, u.0)
  | inr d ↦
      let r = remaining_at argv s.optind arg v.0 in
      rw (d, begin_dash)
        (record { at = v.0; after = omega arith; before = omega arith }, refl, omega arith)
]

left_over-fresh :
    (argv : List (List ℕ)) (s : State) → s.dash ≡ false → left_over argv s ≡ remaining argv s.optind
unfolding left_over
left_over-fresh argv s d = ground arith

long_option-Below :
    (argv : List (List ℕ)) (opts : List Opt) (arg : List ℕ) (s : State)
    → Enters argv arg s
    → is_long arg ≡ true
    → IsTerminated opts
    → Below argv (left_over argv s) (long_option argv opts arg s)
unfolding long_option
long_option-Below argv opts arg s v long t = elim (Bool-cases s.dash) [
  | inl d ↦ absurd (false≢true (sym (Enters-dash argv arg s v d).2 ∙ long))
  | inr d ↦
      let e = left_over-fresh argv s d in
      let r = remaining_at argv s.optind arg v.0 in
      if_cases (Below argv (left_over argv s)) (char_at arg 2 == 0) _ _ (λ _. unfold Below in tt)
        (λ _.
          long_at-Below argv opts arg s _ _
            (record { at = v.0; after = omega arith; before = omega arith }) (omega arith) d long t)
]

getopt_arg-Below :
    (argv : List (List ℕ)) (opts : List Opt) (arg : List ℕ) (s : State)
    → Enters argv arg s
    → IsTerminated opts
    → Below argv (left_over argv s) (getopt_arg argv opts arg s)
unfolding getopt_arg
getopt_arg-Below argv opts arg s v t =
    let B = Below argv (left_over argv s) in
    let start = begin-Inside argv arg s v in
    if_cases B (not s.dash && (not (char_at arg 0 == b'-') || (char_at arg 1 == 0))) _ _
      (λ _. unfold Below in tt)
      (λ _.
        if_cases B (is_long arg) _ _ (λ long. long_option-Below argv opts arg s v long t)
          (λ short.
            short_option-Below argv opts arg (begin_dash s) _ start.0 start.1 start.2 short t))

IsState-optidx :
    (argv : List (List ℕ)) (s : State) → IsState argv s → IsState argv (record s { optidx = none })
unfolding IsState
IsState-optidx argv s v = v

at_arg-Below :
    (argv : List (List ℕ)) (opts : List Opt) (s : State) (arg : Option (List ℕ))
    → get_elem? argv s.optind ≡ arg
    → s.optind < length argv
    → IsState argv s
    → IsTerminated opts
    → Below argv (left_over argv s) (elim arg [
      | none ↦ none
      | some arg ↦ getopt_arg argv opts arg (record s { optidx = none })
    ])
at_arg-Below argv opts s none e h v t = absurd (some_of_within argv s.optind h e)
at_arg-Below argv opts s (some arg) e h v t =
    unfold left_over in
    getopt_arg-Below argv opts arg (record s { optidx = none }) (e, IsState-optidx argv s v) t

-- With an option table that ends as it should, a call in a state of the parser returns, without an
-- access to an argument or an entry of the table that is not there. If it returns an option, it leaves
-- a state of the parser with less of the command line left than before it. (Where in an argument's text
-- it reads is not looked at.)
pub rtcsp_getopt-Below :
    (argv : List (List ℕ)) (opts : List Opt) (s : State)
    → IsState argv s
    → IsTerminated opts
    → Below argv (left_over argv s) (rtcsp_getopt argv opts s)
unfolding rtcsp_getopt
rtcsp_getopt-Below argv opts s v t =
    if_cases (Below argv (left_over argv s)) (leb (length argv) s.optind) _ _
      (λ _. unfold Below in tt)
      (λ z. at_arg-Below argv opts s (get_elem? argv s.optind) refl (ground arith) v t)

-- The loop has come to its end.
abbrev pub EndsWell : Option (Option (List (ℕ × Option (List ℕ)))) → Type 0
EndsWell r = (out : List (ℕ × Option (List ℕ))) × (r ≡ some (some out))

all_options-step :
    (k m : ℕ) (argv : List (List ℕ)) (opts : List Opt) (r : Option (State × Result))
    → Below argv m r
    → m ≤ k
    → ((s : State) → IsState argv s → left_over argv s < k → EndsWell (all_options k argv opts s))
    → EndsWell (elim r [
      | none ↦ none
      | some (s', eof) ↦ some (some [])
      | some (s', code c) ↦ elim (all_options k argv opts s') [
        | none ↦ none
        | some none ↦ some none
        | some (some rest) ↦ some (some ((c, s'.optarg) ∷ rest))
      ]
    ])
unfolding Below
all_options-step k m argv opts none b le ih = absurd b
all_options-step k m argv opts (some (s', eof)) b le ih = ([], refl)
all_options-step k m argv opts (some (s', code c)) b le ih =
    let out = ih s' b.0 (omega arith) in ((c, s'.optarg) ∷ out.0, rw out.1 refl)

-- The callers' loop over the options ends, and without a fault: fuel above what is left of the
-- command line is enough, whatever the arguments are, from every state of the parser and for every
-- option table that ends as it should.
pub all_options_ends :
    (k : ℕ) (argv : List (List ℕ)) (opts : List Opt) (s : State)
    → IsState argv s
    → IsTerminated opts
    → left_over argv s < k
    → EndsWell (all_options k argv opts s)
unfolding all_options
all_options_ends zero argv opts s v t h = absurd (omega arith)
all_options_ends (suc k) argv opts s v t h =
    all_options-step k (left_over argv s) argv opts _ (rtcsp_getopt-Below argv opts s v t)
      (omega arith) (λ s' v' h'. all_options_ends k argv opts s' v' t h')

pub initial-IsState : (argv : List (List ℕ)) → IsState argv initial
unfolding IsState initial
initial-IsState argv e = cc
