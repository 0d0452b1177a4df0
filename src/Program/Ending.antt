-- ===== src/Program/Ending.antt =====
-- The loops over the options in RtCSP.c and bench.c come to their ends.
use rt_csp.Base.{
  ℕ, zero, suc, ◌<◌, ◌≤◌, ◌≡◌, ◌≢◌, refl, Bool, true, false, Option, none, some, List, arith,
}
use rt_csp.Getopt.{Opt, State, Result, eof, code}
use rt_csp.Getopt.Measure.{Below, IsState, IsTerminated, left_over}
use rt_csp.Getopt.Progress.{rtcsp_getopt-Below}
use rt_csp.Getopt.Values.{AllNeed, IsGiven, rtcsp_getopt-IsGiven}
use rt_csp.Program.{
  Choice, goes_on, shows, crashes, Options, ended, shown, crashed, out_of_fuel, options_loop,
}

-- The loop has come to one of the program's own ends.
abbrev pub Ends : {A : Type 0} → Options A → Type 0
Ends (ended a) = Unit {0}
Ends (shown page a) = Unit {0}
Ends crashed = ⊥
Ends out_of_fuel = ⊥

-- A choice does not crash where a value is there if it is needed.
abbrev pub Copes : {A : Type 0} → (ℕ → Bool) → (ℕ → Option (List ℕ) → A → Choice A) → Type 0
Copes {A} valued choose =
    (c : ℕ) (optarg : Option (List ℕ)) (a : A)
    → (valued c ≡ true → optarg ≢ none)
    → choose c optarg a ≢ crashes

choice-Ends :
    {A : Type 0} (a : A) (left : A → Options A) (r : Choice A)
    → r ≢ crashes
    → ((b : A) → Ends (left b))
    → Ends (elim r [ goes_on b ↦ left b | shows page ↦ shown page a | crashes ↦ crashed ])
choice-Ends a left (goes_on b) f h = h b
choice-Ends a left (shows page) f h = tt
choice-Ends a left crashes f h = absurd (f refl)

options_loop-step :
    {A : Type 0} (valued : ℕ → Bool) (choose : ℕ → Option (List ℕ) → A → Choice A)
    (no_error : valued b'?' ≡ false) (k m : ℕ) (argv : List (List ℕ)) (opts : List Opt) (a : A)
    (r : Option (State × Result))
    → Copes valued choose
    → Below argv m r
    → IsGiven valued no_error r
    → m ≤ k
    → ((s : State) (b : A)
        → IsState argv s
        → left_over argv s < k
        → Ends (options_loop k choose argv opts s b))
    → Ends (elim r [
      | none ↦ crashed
      | some (s', eof) ↦ ended a
      | some (s', code c) ↦ elim (choose c s'.optarg a) [
        | goes_on b ↦ options_loop k choose argv opts s' b
        | shows page ↦ shown page a
        | crashes ↦ crashed
      ]
    ])
unfolding Below
options_loop-step valued choose no_error k m argv opts a none copes b g le ih = absurd b
options_loop-step valued choose no_error k m argv opts a (some (s', eof)) copes b g le ih = tt
options_loop-step valued choose no_error k m argv opts a (some (s', code c)) copes b g le ih =
    choice-Ends a (options_loop k choose argv opts s') (choose c s'.optarg a)
      (copes c s'.optarg a g) (λ x. ih s' x b.0 (omega arith))

-- The loop of either program comes to an end of the program, if the options that are read through
-- their value need one: fuel above what is left of the command line is enough.
pub options_loop-Ends :
    {A : Type 0} (valued : ℕ → Bool) (choose : ℕ → Option (List ℕ) → A → Choice A)
    (no_error : valued b'?' ≡ false) (k : ℕ) (argv : List (List ℕ)) (opts : List Opt) (s : State)
    (a : A)
    → Copes valued choose
    → AllNeed valued no_error opts
    → IsTerminated opts
    → IsState argv s
    → left_over argv s < k
    → Ends (options_loop k choose argv opts s a)
unfolding options_loop
options_loop-Ends valued choose no_error zero argv opts s a copes n t v h = absurd (omega arith)
options_loop-Ends valued choose no_error (suc k) argv opts s a copes n t v h =
    options_loop-step valued choose no_error k (left_over argv s) argv opts a _ copes
      (rtcsp_getopt-Below argv opts s v t) (rtcsp_getopt-IsGiven valued no_error argv opts s n)
      (omega arith)
      (λ s' b v' h'. options_loop-Ends valued choose no_error k argv opts s' b copes n t v' h')
