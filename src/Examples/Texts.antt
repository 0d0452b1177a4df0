-- ===== src/Examples/Texts.antt =====
-- getopt.c and serialize.c on short texts.
use rt_csp.Base.{ℕ, ◌≡◌, refl, none, some, List, [], ◌∷◌}
use rt_csp.Getopt.{Opt, initial, rtcsp_getopt}
use rt_csp.Getopt.Measure.{IsTerminated, left_over, Below}
use rt_csp.Getopt.Progress.{rtcsp_getopt-Below, initial-IsState}
use rt_csp.Serialize.Number.{print_nat, digits_to}
use rt_csp.Serialize.{serialize_string_ex, string}
use rt_csp.Serialize.Elements.{Parsed, read}

-- rtcsp -p8080 -v
abbrev words : List (List ℕ)
words = (b'r' ∷ []) ∷ (b'-' ∷ b'p' ∷ b'8' ∷ b'0' ∷ []) ∷ (b'-' ∷ b'v' ∷ []) ∷ []

abbrev options : List Opt
options =
    (record { opt_char = b'p'; need_param = 1; opt_name = none })
    ∷ (record { opt_char = b'v'; need_param = 0; opt_name = some (b'v' ∷ b'e' ∷ b'r' ∷ []) })
    ∷ (record { opt_char = b'-'; need_param = 0; opt_name = none })
    ∷ []

options-IsTerminated : IsTerminated options
unfolding IsTerminated
options-IsTerminated p v e = cc

rtcsp_getopt-Below_example :
    Below words (left_over words initial) (rtcsp_getopt words options initial)
rtcsp_getopt-Below_example =
    rtcsp_getopt-Below words options initial (initial-IsState words) options-IsTerminated

-- s:1:a;s:1:v;s:1:b;s:1:w;)
abbrev two_entries : List ℕ
two_entries =
    b's' ∷ b':' ∷ b'1' ∷ b':' ∷ b'a' ∷ b';' ∷ b'v' ∷ b's' ∷ b':' ∷ b'1' ∷ b':' ∷ b'b' ∷ b';' ∷ b'w'
    ∷ b')' ∷ []

abbrev one_byte : ℕ → List ℕ → ℕ → Parsed ℕ
one_byte old [] n = read old 0
one_byte old (x ∷ xs) n = read x 1

abbrev one_string : List ℕ
one_string = b's' ∷ b':' ∷ b'2' ∷ b':' ∷ b'h' ∷ b'i' ∷ b';' ∷ []

one_string_written : serialize_string_ex string (some (b'h' ∷ b'i' ∷ [])) ≡ one_string
unfolding serialize_string_ex print_nat digits_to
one_string_written = refl
