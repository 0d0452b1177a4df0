-- ===== src/Getopt.antt =====
-- getopt.h and getopt.c: the command line parser, one call of `rtcsp_getopt` at a time.
-- The statics `optchr` and `dash`, the global `rtcsp_optidx` (-1 is `none`) and the caller's `optind`
-- and `optarg` are the state. What is printed on an error is left out; `none` is a read outside
-- `argv` or behind the end mark of the option table.
pub mod Measure
pub mod Branches
pub mod Progress
pub mod Long
pub mod Values
use rt_csp.Base.{
  ℕ, zero, suc, ◌+◌, ◌-◌, ◌≡◌, Bool, true, false, ◌&&◌, ◌||◌, not, Option, none, some, List, [],
  ◌∷◌, ◌==◌, ltb, leb, if◌then◌else◌, length, get_elem?, drop, char_at, memchr, strncmp_eq,
}

-- struct _opt_struct
pub record Opt : Type 0 where
  pub opt_char : ℕ
  pub need_param : ℕ
  pub opt_name : Option (List ℕ)

pub record State : Type 0 where
  pub optchr : ℕ
  pub dash : Bool
  pub optidx : Option ℕ
  pub optind : ℕ
  pub optarg : Option (List ℕ)

unfoldable pub initial : State
initial = record { optchr = 0; dash = false; optidx = none; optind = 1; optarg = none }

-- EOF, or the character that the call returns.
pub data Result : Type 0 where
  eof : Result
  code : ℕ → Result

-- What `opt_error` returns.
abbrev pub opt_error : Result
opt_error = code b'?'

-- memnstr for a needle of one character, as `rtcsp_getopt` calls it: the offset from `haystack`.
abbrev pub memnstr : List ℕ → ℕ → ℕ → Option ℕ
memnstr haystack needle size = memchr haystack needle size

-- The searches of the option table, from the option at `idx` on.
pub data Found : Type 0 where
  outside : Found
  missing : ℕ → Found
  found : ℕ → Opt → Found

abbrev pub matches_long : List ℕ → ℕ → Option (List ℕ) → Bool
matches_long name arg_end none = false
matches_long name arg_end (some n) = strncmp_eq name n arg_end && (arg_end == length n)

unfoldable pub find_long : List Opt → List ℕ → ℕ → ℕ → Found
find_long [] name arg_end idx = outside
find_long (o ∷ os) name arg_end idx =
    if o.opt_char == b'-'
    then missing idx
    else if matches_long name arg_end o.opt_name
    then found idx o
    else find_long os name arg_end (suc idx)

unfoldable pub find_short : List Opt → ℕ → ℕ → Found
find_short [] c idx = outside
find_short (o ∷ os) c idx =
    if o.opt_char == b'-'
    then missing idx
    else if c == o.opt_char
    then found idx o
    else find_short os c (suc idx)

abbrev pub is_long : List ℕ → Bool
is_long arg = (char_at arg 0 == b'-') && (char_at arg 1 == b'-')

-- The option `o` takes a parameter: the rest of its argument, or the next one.
unfoldable pub take_param : List (List ℕ) → List ℕ → Opt → ℕ → State → Option (State × Result)
take_param argv arg o arg_start s =
    if char_at arg arg_start == 0
    then (if s.optind + 1 == length argv
        then (if o.need_param == 1
            then some (record s { dash = false; optind = s.optind + 1 }, opt_error)
            else some (record s { dash = false; optind = s.optind + 1 }, code o.opt_char))
        else if o.need_param == 1
        then elim (get_elem? argv (s.optind + 1)) [
          | none ↦ none
          | some v ↦
              some
                (record s { dash = false; optind = s.optind + 2; optarg = some v }, code o.opt_char)
        ]
        else some (record s { dash = false; optind = s.optind + 1 }, code o.opt_char))
    else some (
      record s {
        dash = false;
        optind = s.optind + 1;
        optarg =
            some (drop (if char_at arg arg_start == b'=' then arg_start + 1 else arg_start) arg);
      },
      code o.opt_char,
    )

-- The next character of a cluster `-abc`, or the next argument.
abbrev pub advance : List ℕ → State → State
advance arg s =
    if char_at arg (s.optchr + 1) == 0
    then record s { dash = false; optind = s.optind + 1 }
    else record s { optchr = s.optchr + 1 }

unfoldable pub finish : List (List ℕ) → List ℕ → Opt → ℕ → State → Option (State × Result)
unfolding take_param
finish argv arg o arg_start s =
    if o.need_param == 0
    then (if leb 2 arg_start && not (is_long arg)
        then some (advance arg s, code o.opt_char)
        else some (record s { optind = s.optind + 1 }, code o.opt_char))
    else take_param argv arg o arg_start s

-- After the search of the table for a long option. `start` is where its value begins, less the
-- length of the option's name.
unfoldable pub long_found : List (List ℕ) → List ℕ → State → ℕ → Found → Option (State × Result)
long_found argv arg s start outside = none
long_found argv arg s start (missing i) =
    some (record s { optidx = some i; optind = s.optind + 1 }, opt_error)
long_found argv arg s start (found i o) =
    finish argv arg o (start + (elim o.opt_name [ none ↦ 0 | some n ↦ length n ]))
      (record s { optidx = some i; optchr = 0; dash = false })

-- `--name=value` with the `=` at the given place behind the dashes, or `--name`.
unfoldable pub long_at :
    List (List ℕ) → List Opt → List ℕ → State → Option ℕ → Option (State × Result)
unfolding long_found
long_at argv opts arg s none =
    long_found argv arg s 2 (find_long opts (drop 2 arg) (length arg - 2) 0)
long_at argv opts arg s (some i) = long_found argv arg s 3 (find_long opts (drop 2 arg) i 0)

-- An argument `--name`, `--name=value` or `--`. The last character is not searched for the `=`.
unfoldable pub long_option : List (List ℕ) → List Opt → List ℕ → State → Option (State × Result)
unfolding long_at
long_option argv opts arg s =
    if char_at arg 2 == 0
    then some (record s { optind = s.optind + 1 }, eof)
    else long_at argv opts arg s (memnstr (drop 2 arg) b'=' (length arg - 3))

unfoldable pub short_found : List (List ℕ) → List ℕ → State → Found → Option (State × Result)
short_found argv arg s outside = none
short_found argv arg s (missing i) = some (advance arg (record s { optidx = some i }), opt_error)
short_found argv arg s (found i o) = finish argv arg o (1 + s.optchr) (record s { optidx = some i })

unfoldable pub short_option : List (List ℕ) → List Opt → List ℕ → State → Option (State × Result)
unfolding short_found
short_option argv opts arg s =
    if char_at arg s.optchr == b':'
    then some (record s { dash = false; optind = s.optind + 1 }, opt_error)
    else short_found argv arg s (find_short opts (char_at arg s.optchr) 0)

-- The first option of a new argument is its character 1.
abbrev pub begin_dash : State → State
begin_dash s = if s.dash then s else record s { dash = true; optchr = 1 }

unfoldable pub getopt_arg : List (List ℕ) → List Opt → List ℕ → State → Option (State × Result)
getopt_arg argv opts arg s =
    if not s.dash && (not (char_at arg 0 == b'-') || (char_at arg 1 == 0))
    then some (s, eof)
    else if is_long arg
    then long_option argv opts arg s
    else short_option argv opts arg (begin_dash s)

unfoldable pub rtcsp_getopt : List (List ℕ) → List Opt → State → Option (State × Result)
rtcsp_getopt argv opts s =
    let s' = record s { optidx = none } in
    if leb (length argv) s.optind
    then some (s', eof)
    else elim (get_elem? argv s.optind) [ none ↦ none | some arg ↦ getopt_arg argv opts arg s' ]

-- The caller's loop: the codes with the `optarg` at each, until EOF. The outer `none` is a fault,
-- the inner one that the fuel ran out.
pub all_options :
    ℕ → List (List ℕ) → List Opt → State → Option (Option (List (ℕ × Option (List ℕ))))
all_options zero argv opts s = some none
all_options (suc k) argv opts s = elim (rtcsp_getopt argv opts s) [
  | none ↦ none
  | some (s', eof) ↦ some (some [])
  | some (s', code c) ↦ elim (all_options k argv opts s') [
    | none ↦ none
    | some none ↦ some none
    | some (some rest) ↦ some (some ((c, s'.optarg) ∷ rest))
  ]
]
