-- ===== src/Program.antt =====
-- RtCSP.c and bench.c: the two main programs, whose loops over the options of the command line have the
-- same form.
pub mod Rendered
pub mod Server
pub mod Load
pub mod Commands
pub mod Service
pub mod Ending
pub mod Pages
pub mod Sizes
pub mod Total
use rt_csp.Base.{
  ℕ, zero, suc, ◌-◌, ◌%◌, ◌^◌, Option, none, some, List, ltb, if◌then◌else◌, ℤ, pos, negsuc,
}
use rt_csp.Getopt.{Opt, State, Result, eof, code, rtcsp_getopt}

-- The pages that a program shows before it leaves: the usage, the version, the list of modules.
pub data Page : Type 0 where
  usage version modules : Page

-- What `switch (c)` does with an option: it goes on with other settings, it shows a page and leaves, or
-- it reads through NULL.
pub data Choice (A : Type 0) : Type 0 where
  goes_on : A → Choice A
  shows : Page → Choice A
  crashes : Choice A

-- How the loop ends.
pub data Options (A : Type 0) : Type 0 where
  ended : A → Options A
  shown : Page → A → Options A
  crashed : Options A
  out_of_fuel : Options A

unfoldable pub options_loop :
    {A : Type 0}
    → ℕ
    → (ℕ → Option (List ℕ) → A → Choice A)
    → List (List ℕ)
    → List Opt
    → State
    → A
    → Options A
options_loop zero choose argv opts s a = out_of_fuel
options_loop (suc k) choose argv opts s a = elim (rtcsp_getopt argv opts s) [
  | none ↦ crashed
  | some (s', eof) ↦ ended a
  | some (s', code c) ↦ elim (choose c s'.optarg a) [
    | goes_on b ↦ options_loop k choose argv opts s' b
    | shows page ↦ shown page a
    | crashes ↦ crashed
  ]
]

-- `atoi` of an option's value. `set` is what is done with the number.
abbrev pub with_number : {A : Type 0} → (List ℕ → ℤ) → Option (List ℕ) → (ℤ → A) → Choice A
with_number atoi none set = crashes
with_number atoi (some v) set = goes_on (set (atoi v))

-- An `int` in a variable of type `unsigned int`, and of type `short int`.
abbrev pub to_uint : ℤ → ℕ
to_uint (pos n) = n % 2 ^ 32
to_uint (negsuc n) = 2 ^ 32 - 1 - n % 2 ^ 32

abbrev pub to_short : ℤ → ℤ
to_short z = let n = to_uint z % 2 ^ 16 in if ltb n (2 ^ 15) then pos n else negsuc (2 ^ 16 - 1 - n)
