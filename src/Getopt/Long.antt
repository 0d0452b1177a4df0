-- ===== src/Getopt/Long.antt =====
-- Long options with their value in the next argument, as getopt.c reads them.
use rt_csp.Base.{
  ℕ, zero, suc, ◌+◌, ◌-◌, ◌<◌, ◌≤◌, ◌≡◌, ◌≢◌, refl, ap, ◌∙◌, true, false, none, some, List, [], ◌∷◌,
  ◌==◌, leb, length, get_elem?, char_at, memchr, arith,
}
use rt_csp.Getopt.{
  Opt, State, eof, code, found, find_long, take_param, finish, long_found, long_at, long_option,
  getopt_arg, rtcsp_getopt,
}

-- `--name`
abbrev pub dashes : List ℕ → List ℕ
dashes name = b'-' ∷ b'-' ∷ name

-- The option `o`, which takes a value, is found at index `i` by its name.
pub record IsLong (opts : List Opt) (name : List ℕ) (i : ℕ) (o : Opt) : Type 0 where
  pub named : o.opt_name ≡ some name
  pub needs : o.need_param ≡ 1
  pub there : find_long opts name (length name) 0 ≡ found i o
  pub filled : char_at name 0 ≢ 0
  pub no_equals : memchr name b'=' (length name - 1) ≡ none

-- Beyond an argument is its end.
char_at-end : (s : List ℕ) → char_at s (length s) ≡ 0
char_at-end [] = refl
char_at-end (x ∷ s) = char_at-end s

get_elem?-inside {ℓ} :
    {A : Type ℓ} (xs : List A) (i : ℕ) (x : A) → get_elem? xs i ≡ some x → i < length xs
get_elem?-inside [] i x e = absurd cc
get_elem?-inside (y ∷ xs) zero x e = omega arith
get_elem?-inside (y ∷ xs) (suc i) x e = omega (arith, get_elem?-inside xs i x e)

abbrev pub after : State → ℕ → List ℕ → State
after s i v = record s {
  optchr = 0;
  dash = false;
  optidx = some i;
  optind = s.optind + 2;
  optarg = some v;
}

dashes-end : (name : List ℕ) → char_at (dashes name) (2 + length name) ≡ 0
dashes-end name =
    let e : 2 + length name ≡ suc (suc (length name)) = omega arith in
    ap (char_at (dashes name)) e ∙ char_at-end name

-- An option by its name, with its value behind it.
pub rtcsp_getopt-long :
    (argv : List (List ℕ)) (opts : List Opt) (s : State) (name v : List ℕ) (i : ℕ) (o : Opt)
    → IsLong opts name i o
    → s.dash ≡ false
    → get_elem? argv s.optind ≡ some (dashes name)
    → get_elem? argv (s.optind + 1) ≡ some v
    → rtcsp_getopt argv opts s ≡ some (after s i v, code o.opt_char)
unfolding rtcsp_getopt getopt_arg long_option long_at long_found finish take_param
rtcsp_getopt-long argv opts s name v i o l no_dash at value =
    let inside = get_elem?-inside argv s.optind (dashes name) at in
    let more : leb (length argv) s.optind ≡ false = ground arith in
    let named : (char_at name 0 == 0) ≡ false = ground (arith, l.filled) in
    let size : suc (suc (length name)) - 3 ≡ length name - 1 = omega arith in
    let whole : suc (suc (length name)) - 2 ≡ length name = omega arith in
    let not_last : (s.optind + 1 == length argv) ≡ false =
      let next = get_elem?-inside argv (s.optind + 1) v value in ground arith in
    rw
      (
        rtcsp_getopt,
        more,
        at,
        no_dash,
        named,
        size,
        l.no_equals,
        whole,
        l.there,
        l.named,
        l.needs,
        dashes-end name,
        not_last,
        value,
      )
      refl

-- Behind the last argument there is no option.
pub rtcsp_getopt-end :
    (argv : List (List ℕ)) (opts : List Opt) (s : State)
    → length argv ≤ s.optind
    → rtcsp_getopt argv opts s ≡ some (record s { optidx = none }, eof)
unfolding rtcsp_getopt
rtcsp_getopt-end argv opts s h =
    let last : leb (length argv) s.optind ≡ true = ground arith in rw last refl
