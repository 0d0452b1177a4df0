-- ===== src/Conn/Insert.antt =====
-- `insert_conn` on a table that satisfies the invariant.
use rt_csp.Base.{
  ℕ, suc, ◌+◌, ◌<◌, ◌^◌, ◌%◌, ◌≡◌, refl, ◌≢◌, true, none, some, List, [], ◌∷◌, arith, ◌==◌,
  if◌then◌else◌, length, get_or, set, occurs, length-set, get_or-set, update,
}
use rt_csp.Queue.Fifo.{rest}
use rt_csp.Conn.{Conn, Table, insert_conn, next_index}
use rt_csp.Conn.Invariant.{IsTable, used, handed_out, index_of, occupied-set-some}

-- The index that is taken next.
abbrev pub taken : Table → ℕ
taken t = next_index t.spare (t.conn_num + 1)

-- No slot of the table points to `p`.
abbrev pub IsOutside : Table → ℕ → Type 0
IsOutside t p = (i : ℕ) → get_or t.iconns i 0 ≢ p

-- There is an index to take that lies within the array.
abbrev pub HasRoom : Table → Type 0
HasRoom t = taken t < length t.iconns

count_self : (i : ℕ) (is : List ℕ) → occurs i (i ∷ is) ≡ suc (occurs i is)
count_self i is = ground arith

taken_free-at :
    (xs is : List ℕ) (n : ℕ)
    → ((i : ℕ) → occurs i is + used xs i ≡ handed_out i (n + length is))
    → get_or xs (next_index is (n + 1)) 0 ≡ 0
taken_free-at xs [] n slots = ground (arith, slots (n + 1))
taken_free-at xs (i ∷ is) n slots = ground (arith, slots i, count_self i is)

-- The slot that an insertion takes holds no connection: none is overwritten.
pub taken_free : (t : Table) → IsTable t → get_or t.iconns (taken t) 0 ≡ 0
taken_free t v = taken_free-at t.iconns t.spare t.conn_num v.slots

slots-set :
    (xs is : List ℕ) (n p : ℕ)
    → p ≢ 0
    → next_index is (n + 1) < length xs
    → ((i : ℕ) → occurs i is + used xs i ≡ handed_out i (n + length is))
    → (j : ℕ)
    → occurs j (rest is) + used (set xs (next_index is (n + 1)) p) j
      ≡ handed_out j (n + 1 + length (rest is))
slots-set xs [] n p ne room slots j =
    ground (arith, slots j, slots (n + 1), get_or-set xs (n + 1) j p 0 room)
slots-set xs (i ∷ is) n p ne room slots j =
    ground (arith, slots j, slots i, count_self i is, get_or-set xs i j p 0 room)

abbrev pub inserted : Table → ℕ → Conn → Table
inserted t p c = record {
  iconns = set t.iconns (taken t) p;
  spare = rest t.spare;
  conn_num = t.conn_num + 1;
  conns = update t.conns p (some (record c { index = taken t; refable = true }));
}

no_wrap : (t : Table) → IsTable t → (t.conn_num + 1) % 2 ^ 32 ≡ t.conn_num + 1
no_wrap t v = let f = v.fits in let s = v.small in omega arith

-- `insert_conn` does not fault where the index fits, and this is the table that it leaves.
pub insert_conn-inserted :
    (t : Table) (p : ℕ) (c : Conn)
    → IsTable t
    → HasRoom t
    → t.conns p ≡ some c
    → insert_conn t p ≡ some (inserted t p c)
unfolding insert_conn
insert_conn-inserted t p c v room e = rw (no_wrap t v) (ground arith)

back-update :
    (t : Table) (p : ℕ) (c : Conn)
    → IsTable t
    → HasRoom t
    → IsOutside t p
    → (j : ℕ) → get_or (set t.iconns (taken t) p) j 0 ≢ 0
    → index_of ((inserted t p c).conns (get_or (set t.iconns (taken t) p) j 0)) ≡ some j
back-update t p c v room out j ne =
    ground (arith, get_or-set t.iconns (taken t) j p 0 room, v.back j, out j)

fits-rest :
    (is : List ℕ) (n l : ℕ)
    → next_index is (n + 1) < l
    → n + length is < l
    → n + 1 + length (rest is) < l
fits-rest [] n l room fits = omega arith
fits-rest (i ∷ is) n l room fits = omega arith

-- The invariant is kept.
pub inserted-IsTable :
    (t : Table) (p : ℕ) (c : Conn)
    → IsTable t
    → HasRoom t
    → p ≢ 0
    → IsOutside t p
    → IsTable (inserted t p c)
inserted-IsTable t p c v room ne out = record {
  counted =
      omega (arith, v.counted, occupied-set-some t.iconns (taken t) p room (taken_free t v) ne);
  fits =
      rw (length-set t.iconns (taken t) p)
        (fits-rest t.spare t.conn_num (length t.iconns) room v.fits);
  small = rw (length-set t.iconns (taken t) p) v.small;
  slots = slots-set t.iconns t.spare t.conn_num p ne room v.slots;
  back = back-update t p c v room out;
}

-- In a table with its invariant, once the highest index handed out is the last of the array and
-- none is spare, the next insertion writes `iconns[rtcsp_maxclients]`, outside the array, though
-- the number of connections is below the limit.
pub insert_conn-overflow :
    (t : Table) (p : ℕ)
    → IsTable t
    → t.spare ≡ []
    → t.conn_num + 1 ≡ length t.iconns
    → (t.conn_num < length t.iconns) × (insert_conn t p ≡ none)
unfolding insert_conn
insert_conn-overflow t p v e full = (omega arith, rw (no_wrap t v) (ground arith))

-- What `insert_conn` promises: in a table with its invariant, where the next index lies within the
-- array, for a stored object that no slot points to: it does not fault, takes a slot that held no
-- connection, changes no other slot, and keeps the table's invariant.
pub insert_conn-IsTable :
    (t : Table) (p : ℕ) (c : Conn)
    → IsTable t
    → HasRoom t
    → p ≢ 0
    → IsOutside t p
    → t.conns p ≡ some c
    → (t' : Table) × (insert_conn t p ≡ some t')
      × (get_or t.iconns (taken t) 0 ≡ 0)
      × ((j : ℕ) → get_or t'.iconns j 0 ≡ (if taken t == j then p else get_or t.iconns j 0))
      × (t'.conn_num ≡ t.conn_num + 1)
      × IsTable t'
insert_conn-IsTable t p c v room ne out e = (
  inserted t p c,
  insert_conn-inserted t p c v room e,
  taken_free t v,
  λ j. get_or-set t.iconns (taken t) j p 0 room,
  refl,
  inserted-IsTable t p c v room ne out,
)
