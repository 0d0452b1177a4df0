-- ===== src/Getopt/Branches.antt =====
-- Each branch of a call of `rtcsp_getopt`.
use rt_csp.Base.{
  ℕ, ◌+◌, ◌<◌, ◌≤◌, ◌≡◌, refl, ◌≢◌, true, false, ◌&&◌, not, Option, none, some, List, arith, ◌==◌,
  leb, length, get_elem?, char_at, if_cases, char_at-ne_zero,
}
use rt_csp.Getopt.{
  Opt, State, Result, eof, code, opt_error, Found, outside, missing, found, is_long, take_param,
  advance, finish, long_found, long_at, short_found, short_option,
}
use rt_csp.Getopt.Measure.{
  Below, IsState, IsTerminated, find_long-terminated, find_short-terminated, left_over, remaining,
  remaining_add, remaining_at, some_of_within, within_of_some,
}

-- A call that goes on with another argument.
next_arg :
    (argv : List (List ℕ)) (s : State) (m : ℕ) (r : Result)
    → s.dash ≡ false
    → remaining argv s.optind < m
    → Below argv m (some (s, r))
unfolding Below IsState left_over
next_arg argv s m eof d h = tt
next_arg argv s m (code c) d h = (λ e. cc, ground arith)

-- What the current argument and the measure have to do with one another.
pub record Inside (argv : List (List ℕ)) (arg : List ℕ) (s : State) (m : ℕ) : Type 0 where
  pub at : get_elem? argv s.optind ≡ some arg
  pub after : remaining argv (s.optind + 1) < m
  pub before : remaining argv s.optind ≤ m + s.optchr

-- A call that goes on with the next character of the cluster.
next_char :
    (argv : List (List ℕ)) (arg : List ℕ) (s : State) (c m : ℕ)
    → Inside argv arg s m
    → s.dash ≡ true
    → 1 ≤ s.optchr
    → is_long arg ≡ false
    → s.optchr + 1 < length arg
    → Below argv m (some (record s { optchr = s.optchr + 1 }, code c))
unfolding Below IsState left_over
next_char argv arg s c m v d low short within = (
  λ e. (arg, v.at, omega arith, within, short),
  rw d (omega (arith, v, remaining_at argv s.optind arg v.at)),
)

take_value-Below :
    (argv : List (List ℕ)) (o : Opt) (s : State) (m : ℕ) (v : Option (List ℕ))
    → remaining argv (s.optind + 1) < m
    → remaining argv (s.optind + 2) ≤ remaining argv (s.optind + 1)
    → v ≢ none
    → Below argv m (elim v [
      | none ↦ none
      | some v ↦
          some (record s { dash = false; optind = s.optind + 2; optarg = some v }, code o.opt_char)
    ])
unfolding Below
take_value-Below argv o s m none h k n = n refl
take_value-Below argv o s m (some v) h k n = next_arg argv _ m (code o.opt_char) refl (omega arith)

take_param-Below :
    (argv : List (List ℕ)) (arg : List ℕ) (o : Opt) (start : ℕ) (s : State) (m : ℕ)
    → remaining argv (s.optind + 1) < m
    → s.optind < length argv
    → Below argv m (take_param argv arg o start s)
unfolding take_param
take_param-Below argv arg o start s m h in_argv =
    let B = Below argv m in
    if_cases B (char_at arg start == 0) _ _
      (λ _.
        if_cases B (s.optind + 1 == length argv) _ _
          (λ _.
            if_cases B (o.need_param == 1) _ _ (λ _. next_arg argv _ m opt_error refl h)
              (λ _. next_arg argv _ m (code o.opt_char) refl h))
          (λ z.
            if_cases B (o.need_param == 1) _ _
              (λ _.
                take_value-Below argv o s m (get_elem? argv (s.optind + 1)) h
                  (omega (arith, remaining_add argv s.optind))
                  (some_of_within argv (s.optind + 1) (ground arith)))
              (λ _. next_arg argv _ m (code o.opt_char) refl h)))
      (λ _. next_arg argv _ m (code o.opt_char) refl h)

advance-Below :
    (argv : List (List ℕ)) (arg : List ℕ) (s : State) (c m : ℕ)
    → Inside argv arg s m
    → s.dash ≡ true
    → 1 ≤ s.optchr
    → is_long arg ≡ false
    → Below argv m (some (advance arg s, code c))
advance-Below argv arg s c m v d low short =
    if_cases (λ u. Below argv m (some (u, code c))) (char_at arg (s.optchr + 1) == 0) _ _
      (λ _. next_arg argv _ m (code c) refl v.after)
      (λ z.
        next_char argv arg s c m v d low short (char_at-ne_zero arg (s.optchr + 1) (ground arith)))

finish-Below :
    (argv : List (List ℕ)) (arg : List ℕ) (o : Opt) (s : State) (m : ℕ)
    → Inside argv arg s m
    → s.dash ≡ true
    → 1 ≤ s.optchr
    → is_long arg ≡ false
    → Below argv m (finish argv arg o (1 + s.optchr) s)
unfolding finish
finish-Below argv arg o s m v d low short =
    let B = Below argv m in
    if_cases B (o.need_param == 0) _ _
      (λ _.
        if_cases B (leb 2 (1 + s.optchr) && not (is_long arg)) _ _
          (λ _. advance-Below argv arg s o.opt_char m v d low short) (λ z. absurd (ground arith)))
      (λ _.
        take_param-Below argv arg o (1 + s.optchr) s m v.after
          (within_of_some argv s.optind arg v.at))

finish_long-Below :
    (argv : List (List ℕ)) (arg : List ℕ) (o : Opt) (start : ℕ) (s : State) (m : ℕ)
    → Inside argv arg s m
    → s.dash ≡ false
    → is_long arg ≡ true
    → Below argv m (finish argv arg o start s)
unfolding finish
finish_long-Below argv arg o start s m v d long =
    let B = Below argv m in
    if_cases B (o.need_param == 0) _ _
      (λ _.
        if_cases B (leb 2 start && not (is_long arg)) _ _ (λ z. absurd (ground arith))
          (λ _. next_arg argv _ m (code o.opt_char) d v.after))
      (λ _. take_param-Below argv arg o start s m v.after (within_of_some argv s.optind arg v.at))

long_found-Below :
    (argv : List (List ℕ)) (arg : List ℕ) (s : State) (start m : ℕ) (f : Found)
    → Inside argv arg s m
    → remaining argv s.optind ≤ m
    → s.dash ≡ false
    → is_long arg ≡ true
    → f ≢ outside
    → Below argv m (long_found argv arg s start f)
unfolding long_found
long_found-Below argv arg s start m outside v b d long t = absurd (t refl)
long_found-Below argv arg s start m (missing i) v b d long t = next_arg argv _ m opt_error d v.after
long_found-Below argv arg s start m (found i o) v b d long t =
    finish_long-Below argv arg o _ _ m (record { at = v.at; after = v.after; before = omega arith })
      refl long

pub long_at-Below :
    (argv : List (List ℕ)) (opts : List Opt) (arg : List ℕ) (s : State) (m : ℕ) (eq : Option ℕ)
    → Inside argv arg s m
    → remaining argv s.optind ≤ m
    → s.dash ≡ false
    → is_long arg ≡ true
    → IsTerminated opts
    → Below argv m (long_at argv opts arg s eq)
unfolding long_at
long_at-Below argv opts arg s m none v b d long t =
    long_found-Below argv arg s 2 m _ v b d long (find_long-terminated opts _ _ 0 t)
long_at-Below argv opts arg s m (some i) v b d long t =
    long_found-Below argv arg s 3 m _ v b d long (find_long-terminated opts _ _ 0 t)

short_found-Below :
    (argv : List (List ℕ)) (arg : List ℕ) (s : State) (m : ℕ) (f : Found)
    → Inside argv arg s m
    → s.dash ≡ true
    → 1 ≤ s.optchr
    → is_long arg ≡ false
    → f ≢ outside
    → Below argv m (short_found argv arg s f)
unfolding short_found
short_found-Below argv arg s m outside v d low short t = absurd (t refl)
short_found-Below argv arg s m (missing i) v d low short t =
    advance-Below argv arg _ b'?' m (record { at = v.at; after = v.after; before = v.before }) d low
      short
short_found-Below argv arg s m (found i o) v d low short t =
    finish-Below argv arg o _ m (record { at = v.at; after = v.after; before = v.before }) d low
      short

pub short_option-Below :
    (argv : List (List ℕ)) (opts : List Opt) (arg : List ℕ) (s : State) (m : ℕ)
    → Inside argv arg s m
    → s.dash ≡ true
    → 1 ≤ s.optchr
    → is_long arg ≡ false
    → IsTerminated opts
    → Below argv m (short_option argv opts arg s)
unfolding short_option
short_option-Below argv opts arg s m v d low short t =
    if_cases (Below argv m) (char_at arg s.optchr == b':') _ _
      (λ _. next_arg argv _ m opt_error refl v.after)
      (λ _. short_found-Below argv arg s m _ v d low short (find_short-terminated opts _ 0 t))
