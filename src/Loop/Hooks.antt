-- ===== src/Loop/Hooks.antt =====
-- The table of receive hooks that `loop_event` fills from the modules.
use rt_csp.Base.{
  ℕ, ◌≡◌, refl, sym, ap, ◌∙◌, Option, none, some, List, [], ◌∷◌, ◌++◌, if◌then◌else◌, str_eq, arith,
  str_eq_sound,
}

-- conn_recv_t: a key and the address of its handler.
abbrev pub Recvs : Type 0
Recvs = List (List ℕ × ℕ)

-- `g_hash_table_lookup` in the table of registered hooks.
abbrev pub lookup : List ℕ → Recvs → Option ℕ
lookup k [] = none
lookup k ((j, call) ∷ m) = if str_eq j k then some call else lookup k m

-- One hook: kept if its key is new, otherwise reported on stderr and left out.
abbrev pub register : Recvs → List ℕ × ℕ → Recvs
register m (key, call) = elim (lookup key m) [ none ↦ (key, call) ∷ m | some c ↦ m ]

-- The loop over one module's hooks.
pub register_module : Recvs → Recvs → Recvs
register_module m [] = m
register_module m (r ∷ rs) = register_module (register m r) rs

-- The loop over the modules.
pub register_all : Recvs → List Recvs → Recvs
unfolding register_module
register_all m [] = m
register_all m (r ∷ rs) = register_all (register_module m r) rs

abbrev pub or_else : Option ℕ → Option ℕ → Option ℕ
or_else none b = b
or_else (some a) b = some a

register_lem :
    (m : Recvs) (r : List ℕ × ℕ) (k : List ℕ)
    → lookup k (register m r) ≡ or_else (lookup k m) (lookup k (r ∷ []))
register_lem m (key, call) k = ground (arith, str_eq_sound key k)

register_module_lem :
    (m rs : Recvs) (k : List ℕ)
    → lookup k (register_module m rs) ≡ or_else (lookup k m) (lookup k rs)
unfolding register_module
register_module_lem m [] k = ground arith
register_module_lem m ((key, call) ∷ rs) k =
    ground (arith, register_module_lem (register m (key, call)) rs k, register_lem m (key, call) k)

abbrev pub flat : List Recvs → Recvs
flat [] = []
flat (r ∷ rs) = r ++ flat rs

or_else_assoc : (a b c : Option ℕ) → or_else (or_else a b) c ≡ or_else a (or_else b c)
or_else_assoc none b c = refl
or_else_assoc (some a) b c = refl

lookup-append : (m n : Recvs) (k : List ℕ) → lookup k (m ++ n) ≡ or_else (lookup k m) (lookup k n)
lookup-append [] n k = refl
lookup-append ((j, call) ∷ m) n k = ground (arith, lookup-append m n k)

-- A key leads to the hook that the first module declares under it, in the order of the modules and of
-- their hooks; later hooks under the same key, and only those, have no effect.
pub register_all_lem :
    (m : Recvs) (modules : List Recvs) (k : List ℕ)
    → lookup k (register_all m modules) ≡ or_else (lookup k m) (lookup k (flat modules))
unfolding register_all
register_all_lem m [] k = ground arith
register_all_lem m (r ∷ rs) k =
    register_all_lem (register_module m r) rs k
    ∙ ap (λ o. or_else o (lookup k (flat rs))) (register_module_lem m r k)
    ∙ or_else_assoc (lookup k m) (lookup k r) (lookup k (flat rs))
    ∙ ap (or_else (lookup k m)) (sym (lookup-append r (flat rs) k))
