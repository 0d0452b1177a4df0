-- ===== src/Conn/Remove.antt =====
-- `remove_conn` on a table that satisfies the invariant.
use rt_csp.Base.{
  ℕ, suc, ◌+◌, ◌-◌, ◌<◌, ◌≤◌, ◌^◌, ◌%◌, ◌≡◌, refl, ◌≢◌, true, false, none, some, [], ◌∷◌, ◌++◌,
  arith, ◌==◌, if◌then◌else◌, length, get_or, set, occurs, length-set, get_or-set, update,
  occurs-append, length-append, is_positive,
}
use rt_csp.Queue.Fifo.{push}
use rt_csp.Conn.{Conn, Table, remove_unlink, remove_free, remove_conn, removed, waits}
use rt_csp.Conn.Invariant.{IsTable, used, occupied, handed_out, occupied-set-none}

-- The table has `p` in the slot that the object names.
abbrev pub Holds : Table → ℕ → Conn → Type 0
Holds t p c = (p ≢ 0) × (t.conns p ≡ some c) × (get_or t.iconns c.index 0 ≡ p)

module _ (t : Table) (p : ℕ) (c : Conn) (v : IsTable t) (here : Holds t p c) where
  index_bounds : (1 ≤ c.index) × (c.index ≤ t.conn_num + length t.spare)
  index_bounds = ground (arith, v.slots c.index, here.2, here.0)

  pub within : c.index < length t.iconns
  within = omega (arith, index_bounds, v.fits)

  pub fewer : suc (occupied (set t.iconns c.index 0)) ≡ t.conn_num
  fewer =
      omega (
        arith,
        occupied-set-none t.iconns c.index within (ground (arith, here.2, here.0)),
        v.counted,
      )

  count-push :
      (j : ℕ) → occurs j (push t.spare c.index) ≡ occurs j t.spare + (if c.index == j then 1 else 0)
  count-push j = omega (arith, occurs-append j t.spare (c.index ∷ []))

  abbrev pub unlinked : Table
  unlinked = record t {
    conn_num = t.conn_num - 1;
    iconns = set t.iconns c.index 0;
    spare = push t.spare c.index;
  }

  no_wrap : (t.conn_num + 2 ^ 32 - 1) % 2 ^ 32 ≡ t.conn_num - 1
  no_wrap = let f = v.fits in let s = v.small in let g = fewer in omega arith

  pub remove_unlink-unlinked : remove_unlink t p ≡ some unlinked
  unfolding remove_unlink
  remove_unlink-unlinked = rw (no_wrap, here.1) (ground (arith, within))

  slots-push :
      (j : ℕ)
      → occurs j (push t.spare c.index) + used (set t.iconns c.index 0) j
        ≡ handed_out j (t.conn_num - 1 + length (push t.spare c.index))
  slots-push j = ground (
    arith,
    v.slots j,
    v.slots c.index,
    count-push j,
    fewer,
    get_or-set t.iconns c.index j 0 0 within,
    length-append t.spare (c.index ∷ []),
    here.2,
    here.0,
  )

  -- A slot that still holds a connection after the removal is another one, of another connection.
  other_slot :
      (j : ℕ)
      → get_or (set t.iconns c.index 0) j 0 ≢ 0
      → (get_or (set t.iconns c.index 0) j 0 ≡ get_or t.iconns j 0)
        × (get_or t.iconns j 0 ≢ 0)
        × (get_or t.iconns j 0 ≢ p)
  other_slot j ne =
      ground (arith, get_or-set t.iconns c.index j 0 0 within, v.back j, here.1, here.2, here.0)

  fits-push : t.conn_num - 1 + length (push t.spare c.index) < length t.iconns
  fits-push = omega (arith, fewer, v.fits, length-append t.spare (c.index ∷ []))

  -- Both tables, with the object still there and with it freed, satisfy the invariant.
  unlinked-IsTable : IsTable unlinked
  unlinked-IsTable = record {
    counted = omega (arith, fewer);
    fits = rw (length-set t.iconns c.index 0) fits-push;
    small = rw (length-set t.iconns c.index 0) v.small;
    slots = slots-push;
    back = λ j ne. ground (arith, other_slot j ne, v.back j);
  }

  abbrev pub freed : Table
  freed = record unlinked { conns = update t.conns p none }

  freed-IsTable : IsTable freed
  freed-IsTable = record {
    counted = omega (arith, fewer);
    fits = rw (length-set t.iconns c.index 0) fits-push;
    small = rw (length-set t.iconns c.index 0) v.small;
    slots = slots-push;
    back = λ j ne. ground (arith, other_slot j ne, v.back j);
  }

  gone : (j : ℕ) → get_or (set t.iconns c.index 0) j 0 ≢ p
  gone j e = ground (arith, other_slot j, here.0)

  pub remove_conn-free : is_positive c.ref_count ≡ false → remove_conn t p ≡ removed freed
  unfolding remove_conn remove_free
  remove_conn-free z = rw (remove_unlink-unlinked, remove_conn) (ground (arith, here.1))

  pub remove_conn-busy : is_positive c.ref_count ≡ true → remove_conn t p ≡ waits unlinked
  unfolding remove_conn remove_free
  remove_conn-busy z = rw (remove_unlink-unlinked, remove_conn) (ground (arith, here.1))

-- What `remove_conn` promises for a connection that the table holds and nobody references, in a
-- table with its invariant: it is freed, its slot of the array is empty, every other slot is as it
-- was, its index is the last of the spare ones, there is one connection less, and the invariant is
-- kept.
pub remove_conn-IsTable :
    (t : Table) (p : ℕ) (c : Conn)
    → IsTable t
    → Holds t p c
    → is_positive c.ref_count ≡ false
    → (t' : Table) × (remove_conn t p ≡ removed t')
      × (t'.conns p ≡ none)
      × ((j : ℕ) → get_or t'.iconns j 0 ≡ (if c.index == j then 0 else get_or t.iconns j 0))
      × (t'.spare ≡ t.spare ++ c.index ∷ [])
      × (suc t'.conn_num ≡ t.conn_num)
      × IsTable t'
remove_conn-IsTable t p c v here z = (
  freed t p c v here,
  remove_conn-free t p c v here z,
  ground arith,
  λ j. get_or-set t.iconns c.index j 0 0 (within t p c v here),
  refl,
  omega (arith, fewer t p c v here),
  freed-IsTable t p c v here,
)

-- While references to a connection that the table holds are there, the connection is already out of
-- the array and its index is spare, the invariant holds, and the object is not freed: the thread
-- waits.
pub remove_conn-waits :
    (t : Table) (p : ℕ) (c : Conn)
    → IsTable t
    → Holds t p c
    → is_positive c.ref_count ≡ true
    → (t' : Table) × (remove_conn t p ≡ waits t')
      × (t'.conns p ≡ some c)
      × ((j : ℕ) → get_or t'.iconns j 0 ≢ p)
      × IsTable t'
remove_conn-waits t p c v here z = (
  unlinked t p c v here,
  remove_conn-busy t p c v here z,
  here.1,
  gone t p c v here,
  unlinked-IsTable t p c v here,
)
