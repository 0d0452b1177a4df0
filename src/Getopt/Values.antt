-- ===== src/Getopt/Values.antt =====
-- An option that needs a value comes with one.
use rt_csp.Base.{
  ℕ, suc, ◌+◌, ◌-◌, ◌≡◌, ◌≢◌, Bool, true, false, ◌&&◌, ◌||◌, not, Option, none, some, List, [], ◌∷◌,
  ◌==◌, leb, length, get_elem?, drop, char_at, memchr, if_cases, arith,
}
use rt_csp.Getopt.{
  Opt, State, Result, eof, code, Found, outside, missing, found, find_long, find_short,
  matches_long, is_long, take_param, advance, finish, long_found, long_at, long_option, short_found,
  short_option, begin_dash, getopt_arg, rtcsp_getopt,
}

-- The codes in question; the code of an error is none of them, and the options of the table that have
-- one need a value.
module _ (valued : ℕ → Bool) (no_error : valued b'?' ≡ false) where
  abbrev Needs : Opt → Type 0
  Needs o = valued o.opt_char ≡ true → o.need_param ≡ 1

  abbrev pub AllNeed : List Opt → Type 0
  AllNeed [] = Unit {0}
  AllNeed (o ∷ os) = Needs o × AllNeed os

  abbrev IfFound : Found → Type 0
  IfFound outside = Unit {0}
  IfFound (missing i) = Unit {0}
  IfFound (found i o) = Needs o

  abbrev pub IsGiven : Option (State × Result) → Type 0
  IsGiven none = Unit {0}
  IsGiven (some (s, eof)) = Unit {0}
  IsGiven (some (s, code c)) = valued c ≡ true → s.optarg ≢ none

  find_long-IfFound :
      (opts : List Opt) (name : List ℕ) (n idx : ℕ)
      → AllNeed opts
      → IfFound (find_long opts name n idx)
  unfolding find_long
  find_long-IfFound [] name n idx h = tt
  find_long-IfFound (o ∷ os) name n idx h =
      if_cases IfFound (o.opt_char == b'-') _ _ (λ _. tt)
        (λ _.
          if_cases IfFound (matches_long name n o.opt_name) _ _ (λ _. h.0)
            (λ _. find_long-IfFound os name n (suc idx) h.1))

  find_short-IfFound :
      (opts : List Opt) (c idx : ℕ) → AllNeed opts → IfFound (find_short opts c idx)
  unfolding find_short
  find_short-IfFound [] c idx h = tt
  find_short-IfFound (o ∷ os) c idx h =
      if_cases IfFound (o.opt_char == b'-') _ _ (λ _. tt)
        (λ _.
          if_cases IfFound (c == o.opt_char) _ _ (λ _. h.0)
            (λ _. find_short-IfFound os c (suc idx) h.1))

  failed : (optarg : Option (List ℕ)) → valued b'?' ≡ true → optarg ≢ none
  failed optarg v = absurd cc

  -- Without a value, the option needs none.
  free :
      (optarg : Option (List ℕ)) (o : Opt)
      → Needs o
      → o.need_param ≢ 1
      → valued o.opt_char ≡ true
      → optarg ≢ none
  free optarg o h f v = absurd (f (h v))

  next-IsGiven :
      (s : State) (o : Opt) (value : Option (List ℕ))
      → IsGiven (elim value [
        | none ↦ none
        | some v ↦
            some
              (record s { dash = false; optind = s.optind + 2; optarg = some v }, code o.opt_char)
      ])
  next-IsGiven s o none = tt
  next-IsGiven s o (some v) = λ _ e. cc

  take_param-IsGiven :
      (argv : List (List ℕ)) (arg : List ℕ) (o : Opt) (start : ℕ) (s : State)
      → Needs o
      → IsGiven (take_param argv arg o start s)
  unfolding take_param
  take_param-IsGiven argv arg o start s h =
      if_cases IsGiven (char_at arg start == 0) _ _
        (λ _.
          if_cases IsGiven (s.optind + 1 == length argv) _ _
            (λ _.
              if_cases IsGiven (o.need_param == 1) _ _ (λ _. failed s.optarg)
                (λ f. free s.optarg o h (λ e. ground arith)))
            (λ _.
              if_cases IsGiven (o.need_param == 1) _ _
                (λ _. next-IsGiven s o (get_elem? argv (s.optind + 1)))
                (λ f. free s.optarg o h (λ e. ground arith))))
        (λ _ _ e. cc)

  finish-IsGiven :
      (argv : List (List ℕ)) (arg : List ℕ) (o : Opt) (start : ℕ) (s : State)
      → Needs o
      → IsGiven (finish argv arg o start s)
  unfolding finish
  finish-IsGiven argv arg o start s h =
      if_cases IsGiven (o.need_param == 0) _ _
        (λ z.
          if_cases IsGiven (leb 2 start && not (is_long arg)) _ _
            (λ _. free (advance arg s).optarg o h (λ e. ground arith))
            (λ _. free s.optarg o h (λ e. ground arith)))
        (λ _. take_param-IsGiven argv arg o start s h)

  long_found-IsGiven :
      (argv : List (List ℕ)) (arg : List ℕ) (s : State) (start : ℕ) (f : Found)
      → IfFound f
      → IsGiven (long_found argv arg s start f)
  unfolding long_found
  long_found-IsGiven argv arg s start outside h = tt
  long_found-IsGiven argv arg s start (missing i) h = failed s.optarg
  long_found-IsGiven argv arg s start (found i o) h = finish-IsGiven argv arg o _ _ h

  long_at-IsGiven :
      (argv : List (List ℕ)) (opts : List Opt) (arg : List ℕ) (s : State) (at : Option ℕ)
      → AllNeed opts
      → IsGiven (long_at argv opts arg s at)
  unfolding long_at
  long_at-IsGiven argv opts arg s none h =
      long_found-IsGiven argv arg s _ _ (find_long-IfFound opts _ _ 0 h)
  long_at-IsGiven argv opts arg s (some i) h =
      long_found-IsGiven argv arg s _ _ (find_long-IfFound opts _ _ 0 h)

  long_option-IsGiven :
      (argv : List (List ℕ)) (opts : List Opt) (arg : List ℕ) (s : State)
      → AllNeed opts
      → IsGiven (long_option argv opts arg s)
  unfolding long_option
  long_option-IsGiven argv opts arg s h =
      if_cases IsGiven (char_at arg 2 == 0) _ _ (λ _. tt)
        (λ _. long_at-IsGiven argv opts arg s (memchr (drop 2 arg) b'=' (length arg - 3)) h)

  short_found-IsGiven :
      (argv : List (List ℕ)) (arg : List ℕ) (s : State) (f : Found)
      → IfFound f
      → IsGiven (short_found argv arg s f)
  unfolding short_found
  short_found-IsGiven argv arg s outside h = tt
  short_found-IsGiven argv arg s (missing i) h =
      failed (advance arg (record s { optidx = some i })).optarg
  short_found-IsGiven argv arg s (found i o) h = finish-IsGiven argv arg o _ _ h

  short_option-IsGiven :
      (argv : List (List ℕ)) (opts : List Opt) (arg : List ℕ) (s : State)
      → AllNeed opts
      → IsGiven (short_option argv opts arg s)
  unfolding short_option
  short_option-IsGiven argv opts arg s h =
      if_cases IsGiven (char_at arg s.optchr == b':') _ _ (λ _. failed s.optarg)
        (λ _. short_found-IsGiven argv arg s _ (find_short-IfFound opts (char_at arg s.optchr) 0 h))

  getopt_arg-IsGiven :
      (argv : List (List ℕ)) (opts : List Opt) (arg : List ℕ) (s : State)
      → AllNeed opts
      → IsGiven (getopt_arg argv opts arg s)
  unfolding getopt_arg
  getopt_arg-IsGiven argv opts arg s h =
      if_cases IsGiven (not s.dash && (not (char_at arg 0 == b'-') || (char_at arg 1 == 0))) _ _
        (λ _. tt)
        (λ _.
          if_cases IsGiven (is_long arg) _ _ (λ _. long_option-IsGiven argv opts arg s h)
            (λ _. short_option-IsGiven argv opts arg (begin_dash s) h))

  at_arg-IsGiven :
      (argv : List (List ℕ)) (opts : List Opt) (s : State) (arg : Option (List ℕ))
      → AllNeed opts
      → IsGiven (elim arg [
        | none ↦ none
        | some arg ↦ getopt_arg argv opts arg (record s { optidx = none })
      ])
  at_arg-IsGiven argv opts s none h = tt
  at_arg-IsGiven argv opts s (some arg) h =
      getopt_arg-IsGiven argv opts arg (record s { optidx = none }) h

  -- A code in question that is returned comes with a value.
  pub rtcsp_getopt-IsGiven :
      (argv : List (List ℕ)) (opts : List Opt) (s : State)
      → AllNeed opts
      → IsGiven (rtcsp_getopt argv opts s)
  unfolding rtcsp_getopt
  rtcsp_getopt-IsGiven argv opts s h =
      if_cases IsGiven (leb (length argv) s.optind) _ _ (λ _. tt)
        (λ _. at_arg-IsGiven argv opts s (get_elem? argv s.optind) h)
