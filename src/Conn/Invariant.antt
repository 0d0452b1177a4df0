-- ===== src/Conn/Invariant.antt =====
-- The invariant of the connection table.
use rt_csp.Base.{
  ℕ, zero, suc, ◌+◌, ◌<◌, ◌^◌, ◌≡◌, refl, ◌≢◌, ◌&&◌, Option, none, some, List, [], ◌∷◌, arith, ◌==◌,
  leb, if◌then◌else◌, length, get_or, set, replicate, occurs, length-replicate, get_or-replicate,
}
use rt_csp.Conn.{Conn, Table, attach_conn}

-- 1 where the array holds a connection.
abbrev pub used : List ℕ → ℕ → ℕ
used xs i = if get_or xs i 0 == 0 then 0 else 1

abbrev pub occupied : List ℕ → ℕ
occupied [] = 0
occupied (p ∷ ps) = (if p == 0 then 0 else 1) + occupied ps

-- 1 for the indices from 1 to `n`, the ones that have been handed out.
abbrev pub handed_out : ℕ → ℕ → ℕ
handed_out i n = if leb 1 i && leb i n then 1 else 0

abbrev pub index_of : Option Conn → Option ℕ
index_of none = none
index_of (some c) = some c.index

-- Every index handed out is either spare, once, or holds one connection, which knows its index; no
-- other index is either. The number of connections is right, and all indices fit the array.
pub record IsTable (t : Table) : Type 0 where
  pub counted : t.conn_num ≡ occupied t.iconns
  pub fits : t.conn_num + length t.spare < length t.iconns
  pub small : length t.iconns < 2 ^ 31
  pub slots :
      (i : ℕ) → occurs i t.spare + used t.iconns i ≡ handed_out i (t.conn_num + length t.spare)
  pub back : (i : ℕ) → get_or t.iconns i 0 ≢ 0 → index_of (t.conns (get_or t.iconns i 0)) ≡ some i

occupied-replicate : (n : ℕ) → occupied (replicate n 0) ≡ 0
occupied-replicate zero = refl
occupied-replicate (suc n) = omega (arith, occupied-replicate n)

-- A new table satisfies it.
pub attach_conn-IsTable : (n : ℕ) → 0 < n → n < 2 ^ 31 → IsTable (attach_conn n)
unfolding attach_conn
attach_conn-IsTable n pos small = record {
  counted = omega (arith, occupied-replicate n);
  fits = omega (arith, length-replicate {A = ℕ} n 0);
  small = rw (length-replicate n) small;
  slots = λ i. ground (arith, get_or-replicate {A = ℕ} n i 0);
  back = λ i ne. absurd (ne (get_or-replicate {A = ℕ} n i 0));
}

pub occupied-set-some :
    (xs : List ℕ) (i p : ℕ)
    → i < length xs
    → get_or xs i 0 ≡ 0
    → p ≢ 0
    → occupied (set xs i p) ≡ suc (occupied xs)
occupied-set-some [] i p h e ne = elim h [ ]
occupied-set-some (x ∷ xs) zero p h e ne = ground arith
occupied-set-some (x ∷ xs) (suc i) p h e ne =
    ground (arith, occupied-set-some xs i p (omega arith) e ne)

pub occupied-set-none :
    (xs : List ℕ) (i : ℕ)
    → i < length xs
    → get_or xs i 0 ≢ 0
    → suc (occupied (set xs i 0)) ≡ occupied xs
occupied-set-none [] i h ne = elim h [ ]
occupied-set-none (x ∷ xs) zero h ne = ground arith
occupied-set-none (x ∷ xs) (suc i) h ne = ground (arith, occupied-set-none xs i (omega arith) ne)
