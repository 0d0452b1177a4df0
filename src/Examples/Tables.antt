-- ===== src/Examples/Tables.antt =====
-- conn.c on a table for three connections.
use rt_csp.Base.{
  ℕ, suc, ◌+◌, ◌<◌, ◌≡◌, refl, true, none, some, [], ◌∷◌, ◌++◌, ◌==◌, if◌then◌else◌, length, get_or,
  arith, pos, get_or-replicate,
}
use rt_csp.Conn.{Conn, Table, new_conn, attach_conn, insert_conn, index_conn, remove_conn, removed}
use rt_csp.Conn.Invariant.{IsTable, attach_conn-IsTable}
use rt_csp.Conn.Insert.{
  taken, inserted, inserted-IsTable, insert_conn-IsTable, insert_conn-overflow, IsOutside,
}
use rt_csp.Conn.Remove.{remove_conn-IsTable}
use rt_csp.Conn.Refs.{indexed, index_conn-IsTable}

-- A new object at address 7, not yet in the table.
abbrev arrived : Table
arrived = record (attach_conn 4) { conns = λ p. if p == 7 then some (new_conn 9) else none }

arrived-IsTable : IsTable arrived
unfolding attach_conn
arrived-IsTable =
    let v = attach_conn-IsTable 4 (omega arith) (omega arith) in
    record {
      counted = v.counted;
      fits = v.fits;
      small = v.small;
      slots = v.slots;
      back = λ i ne. absurd (ne (get_or-replicate {A = ℕ} 4 i 0));
    }

arrived-IsOutside : IsOutside arrived 7
unfolding attach_conn
arrived-IsOutside i = ground (arith, get_or-replicate {A = ℕ} 4 i 0)

insert_conn-IsTable_example :
    (t' : Table) × (insert_conn arrived 7 ≡ some t')
    × (get_or arrived.iconns (taken arrived) 0 ≡ 0)
    × ((j : ℕ)
        → get_or t'.iconns j 0 ≡ (if taken arrived == j then 7 else get_or arrived.iconns j 0))
    × (t'.conn_num ≡ arrived.conn_num + 1)
    × IsTable t'
unfolding attach_conn
insert_conn-IsTable_example =
    insert_conn-IsTable arrived 7 (new_conn 9) arrived-IsTable (omega arith) (ground arith)
      arrived-IsOutside refl

-- The table with that connection in slot 1.
abbrev present : Table
present = inserted arrived 7 (new_conn 9)

present-IsTable : IsTable present
unfolding attach_conn
present-IsTable =
    inserted-IsTable arrived 7 (new_conn 9) arrived-IsTable (omega arith) (ground arith)
      arrived-IsOutside

abbrev accepted : Conn
accepted = record (new_conn 9) { index = 1; refable = true }

remove_conn-IsTable_example :
    (t' : Table) × (remove_conn present 7 ≡ removed t')
    × (t'.conns 7 ≡ none)
    × ((j : ℕ)
        → get_or t'.iconns j 0 ≡ (if accepted.index == j then 0 else get_or present.iconns j 0))
    × (t'.spare ≡ present.spare ++ accepted.index ∷ [])
    × (suc t'.conn_num ≡ present.conn_num)
    × IsTable t'
unfolding attach_conn new_conn
remove_conn-IsTable_example =
    remove_conn-IsTable present 7 accepted present-IsTable (ground arith, refl, refl) refl

index_conn-IsTable_example :
    (index_conn present 1 ≡ some (indexed present 1)) × IsTable (indexed present 1).0
unfolding attach_conn
index_conn-IsTable_example = index_conn-IsTable present 1 present-IsTable (omega arith)

-- The table while one reference is held.
abbrev referenced : Table
referenced = (indexed present 1).0

abbrev held : Conn
held = record accepted { ref_count = pos 1 }

insert_conn-overflow_example :
    (0 < length (attach_conn 1).iconns) × (insert_conn (attach_conn 1) 7 ≡ none)
unfolding attach_conn
insert_conn-overflow_example =
    insert_conn-overflow (attach_conn 1) 7 (attach_conn-IsTable 1 (omega arith) (omega arith)) refl
      refl
