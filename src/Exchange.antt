-- ===== src/Exchange.antt =====
-- A request of the load generator (bench_event.c) on its way through the server (loop_event.c) and back.
use rt_csp.Base.{
  ℕ, suc, ◌^◌, ◌<◌, ◌≡◌, refl, ap, ◌∙◌, true, some, List, [], ◌∷◌, ◌++◌, length, length-append,
  drop-append, take-append, IsText, str_eq_refl, arith,
}
use rt_csp.Socket.{packet_of}
use rt_csp.Serialize.{string, serialize_string_ex}
use rt_csp.Serialize.Parse.{blank}
use rt_csp.Serialize.Strings.{_serialize_parse-serialize_string_ex, until_nul-IsText}
use rt_csp.Loop.Hooks.{Recvs, lookup, register_all, flat}
use rt_csp.Loop.Dispatch.{Hook, replied, dispatch, dispatch-register_all}
use rt_csp.Bench.Worker.{SendRecv, request_of, right, with_key, judge}

-- What is written for a key.
abbrev pub key_text : List ℕ → List ℕ
key_text key = serialize_string_ex string (some key)

judge-right :
    (fuel c : ℕ) (s extra : List ℕ) (k : SendRecv)
    → k.key ≡ c ∷ s
    → IsText (c ∷ s)
    → length (key_text (c ∷ s) ++ extra) < 2 ^ 32
    → k.recv_call extra ≡ true
    → judge (suc fuel) k (key_text (c ∷ s) ++ extra) ≡ right
unfolding judge
judge-right fuel c s extra k key text small ok =
    let reply = key_text (c ∷ s) ++ extra in
    ap (with_key k reply) (
      _serialize_parse-serialize_string_ex blank fuel c s extra (length reply) small
        (omega (arith, length-append (key_text (c ∷ s)) extra)))
    ∙ rw
        (
          until_nul-IsText (c ∷ s) text,
          key,
          str_eq_refl (c ∷ s),
          drop-append (key_text (c ∷ s)) extra,
          ok,
        )
        refl

-- A request of the load generator for a key that is a C string, not empty and declared in the server's
-- modules, whose hook answers with the key's text and more that the load generator accepts: the server
-- gets the key and what `send_call` appended, the hook gets the latter, and its answer counts as right.
-- Requests and answers are shorter than 2^32; any fuel but 0 is enough for both readers.
pub request_of-right :
    (f g c call : ℕ) (s body extra : List ℕ) (k : SendRecv) (modules : List Recvs) (hook : Hook)
    → k.key ≡ c ∷ s
    → IsText (c ∷ s)
    → k.send_call ≡ (true, body)
    → lookup (c ∷ s) (flat modules) ≡ some call
    → hook call body (key_text (c ∷ s)) ≡ (true, key_text (c ∷ s) ++ extra)
    → k.recv_call extra ≡ true
    → length (key_text (c ∷ s) ++ body) < 2 ^ 32
    → length (key_text (c ∷ s) ++ extra) < 2 ^ 32
    → (request_of k ≡ packet_of (key_text (c ∷ s) ++ body))
      × (dispatch (suc f) (register_all [] modules) hook (key_text (c ∷ s) ++ body)
          ≡ replied (true, key_text (c ∷ s) ++ extra))
      × (judge (suc g) k (key_text (c ∷ s) ++ extra) ≡ right)
unfolding request_of
request_of-right f g c call s body extra k modules hook key text send there answers ok small few = (
  rw (key, send) refl,
  dispatch-register_all f c s body modules hook text small
      ∙ rw (there, drop-append (key_text (c ∷ s)) body, take-append (key_text (c ∷ s)) body)
          (ap replied answers),
  judge-right g c s extra k key text few ok,
)
