-- ===== src/Examples/Exchanges.antt =====
-- The exchange of the demo modules, for the key demo.string.
use rt_csp.Base.{ℕ, ◌≡◌, refl, true, List, [], ◌∷◌, ◌++◌, arith}
use rt_csp.Socket.{packet_of}
use rt_csp.Serialize.{serialize_string_ex}
use rt_csp.Serialize.Number.{print_nat, digits_to}
use rt_csp.Loop.Hooks.{register_all}
use rt_csp.Loop.Dispatch.{Hook, replied, dispatch}
use rt_csp.Bench.Worker.{request_of, judge, right}
use rt_csp.Demo.{
  string_key, func, dots, request_func, demo_string, demo_recvs, demo_hook, load_string,
}
use rt_csp.Exchange.{key_text, request_of-right}

-- A database that has nothing to say.
abbrev quiet : Hook
quiet n body gstr = (true, gstr)

abbrev body : List ℕ
body = request_func ++ dots

-- The answer: "demo_string...(22: demo_string_request...)"
abbrev demo_answer : List ℕ
demo_answer = func ++ dots ++ b'(' ∷ b'2' ∷ b'2' ∷ b':' ∷ b' ' ∷ (body ++ b')' ∷ [])

request_of-right_example :
    (request_of load_string ≡ packet_of (key_text string_key ++ body))
    × (dispatch 1
          (register_all [] (demo_recvs ∷ []))
          (demo_hook quiet)
          (key_text string_key ++ body)
        ≡ replied (true, key_text string_key ++ demo_answer))
    × (judge 1 load_string (key_text string_key ++ demo_answer) ≡ right)
unfolding serialize_string_ex print_nat digits_to load_string demo_hook demo_string
request_of-right_example =
    request_of-right 0 0 b'd' 0
      (b'e' ∷ b'm' ∷ b'o' ∷ b'.' ∷ b's' ∷ b't' ∷ b'r' ∷ b'i' ∷ b'n' ∷ b'g' ∷ []) body demo_answer
      load_string (demo_recvs ∷ []) (demo_hook quiet) refl (ground arith) refl refl refl refl
      (omega arith) (omega arith)
