-- ===== src/Loop/Dispatch.antt =====
-- The end of `read_handler`: a packet's receive hook is found by the key that the packet begins with,
-- and called.
use rt_csp.Base.{
  ℕ, suc, ◌+◌, ◌^◌, ◌<◌, ◌≡◌, refl, ap, ◌∙◌, Bool, Option, none, some, List, [], ◌∷◌, ◌++◌, length,
  length-append, drop, take, arith, IsText,
}
use rt_csp.Serialize.{string, serialize_string_ex, print_bytes}
use rt_csp.Serialize.Elements.{
  Parsed, read, invalid, starved, until_nul, parse_counted, store_string, read_count,
}
use rt_csp.Serialize.Parse.{blank, _serialize_parse}
use rt_csp.Serialize.Strings.{
  _serialize_parse-serialize_string_ex, head_found, read_count-print_nat, print_bytes-append,
  until_nul-IsText,
}
use rt_csp.Serialize.Number.{print_nat}
use rt_csp.Loop.Hooks.{Recvs, lookup, register_all, flat, register_all_lem}

-- What becomes of a packet. `replied` is what the hook returns: whether to send, and the reply.
pub data Answer : Type 0 where
  no_key : Answer
  no_hook : Answer
  crashed : Answer
  out_of_fuel : Answer
  replied : Bool × List ℕ → Answer

-- A hook gets its number, the rest of the packet, and the reply so far.
abbrev pub Hook : Type 0
Hook = ℕ → List ℕ → List ℕ → Bool × List ℕ

-- The call, with the text of the key as the beginning of the reply.
abbrev pub call_hook : Hook → List ℕ → ℕ → Option ℕ → Answer
call_hook hook packet tmplen none = no_hook
call_hook hook packet tmplen (some call) =
    replied (hook call (drop tmplen packet) (take tmplen packet))

-- The key that was read, as a C string. A key of length 0 is still NULL, which the hash function of
-- the table reads through.
abbrev pub with_key : Recvs → Hook → List ℕ → Parsed (Option (List ℕ)) → Answer
with_key recvs hook packet (read none tmplen) = crashed
with_key recvs hook packet (read (some key) tmplen) =
    call_hook hook packet tmplen (lookup (until_nul key) recvs)
with_key recvs hook packet invalid = no_key
with_key recvs hook packet starved = out_of_fuel

unfoldable pub dispatch : ℕ → Recvs → Hook → List ℕ → Answer
unfolding _serialize_parse
dispatch fuel recvs hook packet =
    with_key recvs hook packet (_serialize_parse blank fuel string none packet (length packet))

-- A packet that begins with a key as `serialize_string_ex` writes it, and goes on with any body, gets
-- to the hook that the first module declares under that key: the hook gets the body and a reply that
-- begins with the key's text. If no module declares the key, no hook is called. The key must be a C
-- string that is not empty, the packet shorter than 2^32; any fuel but 0 is enough.
pub dispatch-register_all :
    (k c : ℕ) (s body : List ℕ) (modules : List Recvs) (hook : Hook)
    → IsText (c ∷ s)
    → length (serialize_string_ex string (some (c ∷ s)) ++ body) < 2 ^ 32
    → dispatch
        (suc k)
        (register_all [] modules)
        hook
        (serialize_string_ex string (some (c ∷ s)) ++ body)
      ≡ call_hook hook
          (serialize_string_ex string (some (c ∷ s)) ++ body)
          (length (serialize_string_ex string (some (c ∷ s))))
          (lookup (c ∷ s) (flat modules))
unfolding dispatch
dispatch-register_all k c s body modules hook t small =
    let text = serialize_string_ex string (some (c ∷ s)) in
    let packet = text ++ body in
    let recvs = register_all [] modules in
    ap (with_key recvs hook packet) (
      _serialize_parse-serialize_string_ex blank k c s body (length packet) small
        (omega (arith, length-append text body)))
    ∙ ap (λ key. call_hook hook packet (length text) (lookup key recvs))
        (until_nul-IsText (c ∷ s) t)
    ∙ ap (call_hook hook packet (length text)) (register_all_lem [] modules (c ∷ s))

parse_counted-empty :
    (s : List ℕ) (buflen at off : ℕ)
    → read_count s b':' ≡ some (0, off)
    → parse_counted none (store_string none) s buflen at ≡ read none (at + off + 1)
unfolding parse_counted
parse_counted-empty s buflen at off e = rw (e, parse_counted) refl

-- A packet that begins with a key of length 0 crashes the server, whatever hooks there are: the key is
-- taken as read, and is NULL.
pub dispatch-crashed :
    (k : ℕ) (body : List ℕ) (recvs : Recvs) (hook : Hook)
    → length (serialize_string_ex string none ++ body) < 2 ^ 32
    → dispatch (suc k) recvs hook (serialize_string_ex string none ++ body) ≡ crashed
unfolding dispatch serialize_string_ex
dispatch-crashed k body recvs hook small =
    let packet = serialize_string_ex string none ++ body in
    let size = length-append (serialize_string_ex string none) body in
    ap (with_key recvs hook packet) (
      head_found k b's' (print_bytes [] ++ body) (length packet)
        (parse_counted none (store_string none)) (unfold serialize_string_ex in omega arith) small
      ∙ ap (λ s. parse_counted none (store_string none) s (length packet) 2)
          (print_bytes-append [] body)
      ∙ parse_counted-empty (print_nat 0 ++ b':' ∷ b';' ∷ body) (length packet) 2
          (length (print_nat 0) + 1) (read_count-print_nat 0 (b';' ∷ body) (omega arith)))
