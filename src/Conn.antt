-- ===== src/Conn.antt =====
-- conn.h and conn.c: the table of connections. A `conn_t` lives at an address, a number other than
-- 0, in the store `conns`; `iconns` is the array of `rtcsp_maxclients` pointers, `spare` the indices
-- in `iqueue` (which queue.c keeps first in, first out). `none` is a fault: a write or a read
-- outside the array, or through a pointer to no connection.
pub mod Invariant
pub mod Insert
pub mod Remove
pub mod Refs
pub mod Lock
use rt_csp.Base.{
  ℕ, zero, suc, ◌+◌, ◌-◌, ◌%◌, ◌^◌, ◌≡◌, Bool, true, false, Option, none, some, List, [], ◌∷◌, ◌++◌,
  ◌==◌, ltb, if◌then◌else◌, length, get_or, set, replicate, update, ℤ, pos, inc, dec, is_positive,
}
use rt_csp.Queue.Fifo.{push, front, rest}

-- struct _conn_t, less its mutex and condition variable. `watched` is `event.ev_base != NULL`,
-- `opened` that the socket has not been closed, and `rbuf` the bytes received of the packet that is
-- being read (`rbuf == NULL` is `none`).
pub record Conn : Type 0 where
  pub index : ℕ
  pub sockfd : ℕ
  pub opened : Bool
  pub refable : Bool
  pub ref_count : ℤ
  pub rbuf : Option (List ℕ)
  pub rbytes : ℕ
  pub rsize : ℕ
  pub thread : ℕ
  pub watched : Bool

-- The object after `bzero` and the assignment of its socket.
unfoldable pub new_conn : ℕ → Conn
new_conn fd = record {
  index = 0;
  sockfd = fd;
  opened = true;
  refable = false;
  ref_count = pos 0;
  rbuf = none;
  rbytes = 0;
  rsize = 0;
  thread = 0;
  watched = false;
}

pub record Table : Type 0 where
  pub iconns : List ℕ
  pub spare : List ℕ
  pub conn_num : ℕ
  pub conns : ℕ → Option Conn

unfoldable pub attach_conn : ℕ → Table
attach_conn maxclients = record {
  iconns = replicate maxclients 0;
  spare = [];
  conn_num = 0;
  conns = λ p. none;
}

-- Changes the object at an address.
abbrev pub modify : Table → ℕ → (Conn → Conn) → Option Table
modify t p f = elim (t.conns p) [
  | none ↦ none
  | some c ↦ some (record t { conns = update t.conns p (some (f c)) })
]

-- `iconns[i] = v`
abbrev pub store_index : Table → ℕ → ℕ → Option Table
store_index t i v =
    if ltb i (length t.iconns) then some (record t { iconns = set t.iconns i v }) else none

infixl 5 ◌>>=◌
abbrev pub ◌>>=◌ {ℓ κ} : {A : Type ℓ} {B : Type κ} → Option A → (A → Option B) → Option B
none >>= f = none
some a >>= f = f a

unfoldable pub ref_conn : Table → ℕ → Option Table
ref_conn t p = modify t p λ c. record c { ref_count = inc c.ref_count }

unfoldable pub unref_conn : Table → ℕ → Option Table
unref_conn t p = modify t p λ c. record c { ref_count = dec c.ref_count }

-- The result 0 is NULL.
unfoldable pub index_conn : Table → ℕ → Option (Table × ℕ)
unfolding ref_conn
index_conn t i =
    if ltb i (length t.iconns)
    then (let p = get_or t.iconns i 0 in
        if p == 0 then some (t, 0) else (do
          c ← t.conns p
          if c.refable then (do t' ← ref_conn t p; some (t', p)) else some (t, 0)))
    else none

unfoldable pub clean_conn : Table → ℕ → Option Table
clean_conn t p =
    modify t p λ c. record c { watched = false; opened = false; rbuf = none; rbytes = 0; rsize = 0 }

unfoldable pub _conn_num : Table → ℕ
_conn_num t = t.conn_num

-- The index that `insert_conn` takes: the oldest one given back, else the new number of connections.
abbrev pub next_index : List ℕ → ℕ → ℕ
next_index [] n = n
next_index (i ∷ is) n = i

unfoldable pub insert_conn : Table → ℕ → Option Table
insert_conn t p = do
  let n = (t.conn_num + 1) % 2 ^ 32
  let i = next_index t.spare n
  t' ← store_index (record t { conn_num = n; spare = rest t.spare }) i p
  modify t' p λ c. record c { index = i; refable = true }

-- `remove_conn` up to its wait for the references.
unfoldable pub remove_unlink : Table → ℕ → Option Table
remove_unlink t p = do
  c ← t.conns p
  t' ← store_index (record t { conn_num = (t.conn_num + 2 ^ 32 - 1) % 2 ^ 32 }) c.index 0
  some (record t' { spare = push t'.spare c.index })

-- `remove_conn` ends with the connection freed, or its thread waits for references to be given
-- back, holding the write lock.
pub data Removal : Type 0 where
  removed : Table → Removal
  waits : Table → Removal
  fault : Removal

-- The loop `while (ptr->ref_count > 0)` and the release of the object.
unfoldable pub remove_free : Table → ℕ → Removal
remove_free t p = elim (t.conns p) [
  | none ↦ fault
  | some c ↦
      if is_positive c.ref_count
      then waits t
      else removed (record t { conns = update t.conns p none })
]

unfoldable pub remove_conn : Table → ℕ → Removal
remove_conn t p = elim (remove_unlink t p) [ none ↦ fault | some t' ↦ remove_free t' p ]

-- The spare indices are handed to `ifree`, oldest first, and both tables are released: nothing may use
-- them again. The result is what `ifree` gets.
pub detach_conn : Table → List ℕ
detach_conn t = t.spare
