-- ===== src/Examples/Packets.antt =====
-- Packets on their way to a hook.
use rt_csp.Base.{ℕ, ◌≡◌, true, none, some, List, [], ◌∷◌, ◌++◌, arith, length}
use rt_csp.Serialize.{string, serialize_string_ex}
use rt_csp.Serialize.Number.{print_nat, digits_to}
use rt_csp.Loop.Hooks.{Recvs, lookup, flat, register_all}
use rt_csp.Loop.Dispatch.{
  Hook, call_hook, dispatch, crashed, dispatch-register_all, dispatch-crashed,
}

-- The hook sends back what it was sent, behind the key.
abbrev echo : Hook
echo call args reply = (true, reply ++ args)

abbrev echo_modules : Recvs
echo_modules = ((b'e' ∷ []), 4) ∷ []

abbrev key : List ℕ
key = serialize_string_ex string (some (b'e' ∷ []))

dispatch-register_all_example :
    dispatch 1 (register_all [] (echo_modules ∷ [])) echo (key ++ b'h' ∷ b'i' ∷ [])
    ≡ call_hook echo
        (key ++ b'h' ∷ b'i' ∷ [])
        (length key)
        (lookup (b'e' ∷ []) (flat (echo_modules ∷ [])))
unfolding serialize_string_ex print_nat digits_to
dispatch-register_all_example =
    dispatch-register_all 0 b'e' [] (b'h' ∷ b'i' ∷ []) (echo_modules ∷ []) echo (ground arith, tt)
      (omega arith)

dispatch-crashed_example :
    dispatch 1
      (register_all [] (echo_modules ∷ []))
      echo
      (serialize_string_ex string none ++ b'h' ∷ [])
    ≡ crashed
unfolding serialize_string_ex print_nat digits_to
dispatch-crashed_example =
    dispatch-crashed 0 (b'h' ∷ []) (register_all [] (echo_modules ∷ [])) echo (omega arith)
