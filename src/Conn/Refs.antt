-- ===== src/Conn/Refs.antt =====
-- References to connections: `index_conn`, `ref_conn`, `unref_conn`, and the wait of `remove_conn`.
use rt_csp.Base.{
  ℕ, zero, suc, ◌<◌, ◌≡◌, refl, ◌≢◌, Option, none, some, arith, ◌==◌, if◌then◌else◌, length, get_or,
  update, ℤ, inc,
}
use rt_csp.Conn.{Conn, Table, ref_conn, unref_conn, index_conn, ◌>>=◌}
use rt_csp.Conn.Invariant.{IsTable, index_of}

abbrev pub with_refs : Table → ℕ → Conn → ℤ → Table
with_refs t p c n = record t { conns = update t.conns p (some (record c { ref_count = n })) }

with_refs-IsTable :
    (t : Table) (p : ℕ) (c : Conn) (n : ℤ)
    → IsTable t
    → t.conns p ≡ some c
    → IsTable (with_refs t p c n)
with_refs-IsTable t p c n v e = record {
  counted = v.counted;
  fits = v.fits;
  small = v.small;
  slots = v.slots;
  back = λ i ne. ground (arith, v.back i ne, e);
}

-- The connection in slot `i`, if there is one that may be referenced.
abbrev pub referable : Table → ℕ → Option Conn
referable t i = if get_or t.iconns i 0 == 0 then none else elim (t.conns (get_or t.iconns i 0)) [
  | none ↦ none
  | some c ↦ if c.refable then some c else none
]

abbrev pub taken_ref : Table → ℕ → Option Conn → Table × ℕ
taken_ref t p none = (t, 0)
taken_ref t p (some c) = (with_refs t p c (inc c.ref_count), p)

abbrev pub indexed : Table → ℕ → Table × ℕ
indexed t i = taken_ref t (get_or t.iconns i 0) (referable t i)

Option-absurd : (o : Option Conn) (i : ℕ) → index_of o ≡ some i → o ≢ none
Option-absurd none i e n = cc
Option-absurd (some c) i e n = cc

index_conn-indexed :
    (t : Table) (i : ℕ) → IsTable t → i < length t.iconns → index_conn t i ≡ some (indexed t i)
unfolding index_conn ref_conn
index_conn-indexed t i v h =
    ground (arith, v.back i, Option-absurd (t.conns (get_or t.iconns i 0)) i)

taken_ref-IsTable :
    (t : Table) (p : ℕ) (o : Option Conn)
    → IsTable t
    → ((c : Conn) → o ≡ some c → t.conns p ≡ some c)
    → IsTable (taken_ref t p o).0
taken_ref-IsTable t p none v e = v
taken_ref-IsTable t p (some c) v e = with_refs-IsTable t p c (inc c.ref_count) v (e c refl)

referable-some :
    (t : Table) (i : ℕ) (c : Conn) → referable t i ≡ some c → t.conns (get_or t.iconns i 0) ≡ some c
referable-some t i c e = ground arith

-- On an index within the array of a table with its invariant `index_conn` never faults. If the slot
-- holds a connection that may be referenced, it is returned with one reference more; otherwise the
-- result is NULL and nothing changes. The invariant is kept.
pub index_conn-IsTable :
    (t : Table) (i : ℕ)
    → IsTable t
    → i < length t.iconns
    → (index_conn t i ≡ some (indexed t i)) × IsTable (indexed t i).0
index_conn-IsTable t i v h =
    (index_conn-indexed t i v h, taken_ref-IsTable t _ (referable t i) v (referable-some t i))

-- The references given back, one after another.
pub unrefs : ℕ → Table → ℕ → Option Table
unrefs zero t p = some t
unrefs (suc n) t p = unref_conn t p >>= λ t'. unrefs n t' p
