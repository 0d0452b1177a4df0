-- ===== src/Loop/Twice.antt =====
-- A connection that is closed from two sides.
use rt_csp.Base.{
  ℕ, true, ==_refl, ◌≡◌, refl, ap, Option-cases, sym, ◌∙◌, arith, zero, suc, ◌<◌, length, [],
  Option, List, ◌∷◌, get_elem?, get_elem?-set_self, pos, none, some, inl, inr, if_cases,
  is_positive,
}
use rt_csp.Queue.Fifo.{front, rest}
use mathlib.Core.Path.{subst}
use rt_csp.Conn.{
  modify, clean_conn, remove_conn, remove_unlink, remove_free, removed, waits, Removal,
}
use rt_csp.Conn
use rt_csp.Loop.{
  Worker, Server, Run, ok, waiting, fault, ◌>>=◌, lift, lift_removal, with_table, set_worker,
  is_accept_conn,
}
use rt_csp.Socket.{Recv, socket_recv}
use rt_csp.Loop.Serve.{close_conn, notify_close, notify_byte, notify_next, read_handler}
use rt_csp.Loop.Tokens.{Keeps, bind_rule, lift-ok}

abbrev Gone : ℕ → Conn.Table → Type 0
Gone p t = t.conns p ≡ none

remove_free-Gone : (t : Conn.Table) (p : ℕ) → Keeps (Gone p) (lift_removal (remove_free t p))
unfolding remove_free
remove_free-Gone t p = elim (Option-cases (t.conns p)) [
  | inl e ↦ rw (e, remove_free) tt
  | inr (c, e) ↦
      rw (e, remove_free)
        (if_cases (λ r. Keeps (Gone p) (lift_removal r)) (is_positive c.ref_count) _ _ (λ _. tt)
          (λ _. rw (==_refl p) refl))
]

remove_conn-Gone : (t : Conn.Table) (p : ℕ) → Keeps (Gone p) (lift_removal (remove_conn t p))
unfolding remove_conn
remove_conn-Gone t p = elim (Option-cases (remove_unlink t p)) [
  | inl e ↦ rw (e, remove_conn) tt
  | inr (u, e) ↦ rw (e, remove_conn) (remove_free-Gone u p)
]

Keeps-at : {A : Type 0} (P : A → Type 0) (r : Run A) (a : A) → Keeps P r → r ≡ ok a → P a
Keeps-at P (ok b) a h e = let q : b ≡ a = cc in subst P q h
Keeps-at P waiting a h e = cc
Keeps-at P fault a h e = cc

close_conn-Gone : (s : Server) (p : ℕ) → Keeps (λ u. Gone p u.table) (close_conn s p)
unfolding close_conn is_accept_conn
close_conn-Gone s p =
    bind_rule (λ u. Gone p u.table) _ _
      λ t _.
        bind_rule (λ u. Gone p u.table) (lift_removal (remove_conn t p)) _
          λ t' e. Keeps-at (Gone p) _ t' (remove_conn-Gone t p) e

clean_conn-none : (t : Conn.Table) (p : ℕ) → Gone p t → clean_conn t p ≡ none
unfolding clean_conn
clean_conn-none t p g = rw (g, modify) refl

close_conn-fault : (s : Server) (p : ℕ) → Gone p s.table → close_conn s p ≡ fault
unfolding close_conn ◌>>=◌
close_conn-fault s p g =
    ap
      (λ o. lift o >>= λ t.
        lift_removal (remove_conn t p) >>= λ t'. ok (is_accept_conn true (with_table s t')))
      (clean_conn-none s.table p g)

close_conn-workers : (s : Server) (p : ℕ) → Keeps (λ u. u.workers ≡ s.workers) (close_conn s p)
unfolding close_conn is_accept_conn
close_conn-workers s p =
    bind_rule (λ u. u.workers ≡ s.workers) _ _
      λ t _. bind_rule (λ u. u.workers ≡ s.workers) (lift_removal (remove_conn t p)) _ λ t' e. refl

abbrev Left : Server → ℕ → Server × Option (List ℕ) → Type 0
Left s p r = Gone p (r.0).table × ((r.0).workers ≡ s.workers)

-- What `read_handler` leaves when the peer has gone: no object, and the workers as they were.
read_handler-Left :
    (n : ℕ) (head : Recv) (body : ℕ → Recv) (s : Server) (p : ℕ) (c : Conn.Conn)
    → (s.table).conns p ≡ some c
    → (socket_recv n head body c).ret ≡ pos 0
    → Keeps (Left s p) (read_handler n head body s p)
unfolding read_handler
read_handler-Left n head body s p c e z = bind_rule (Left s p) (lift ((s.table).conns p)) _ λ d q.
    let same : c ≡ d = some_eq c d (sym e ∙ lift-ok _ d q) in
    let z' = subst (λ x. (socket_recv n head body x).ret ≡ pos 0) same z in
    bind_rule (Left s p) _ _ λ t _. rw z' (
      bind_rule (Left s p) (close_conn (with_table s t) p) _ λ v k. (
        Keeps-at (λ u. Gone p u.table) _ v (close_conn-Gone (with_table s t) p) k,
        Keeps-at (λ u. u.workers ≡ s.workers) _ v (close_conn-workers (with_table s t) p) k,
      ))
  where
    some_eq : (a b : Conn.Conn) → some a ≡ some b → a ≡ b
    some_eq a b q = cc

in_range : (ws : List Worker) (i : ℕ) (w : Worker) → get_elem? ws i ≡ some w → i < length ws
in_range [] i w e = cc
in_range (v ∷ ws) zero w e = omega arith
in_range (v ∷ ws) (suc i) w e = omega (arith, in_range ws i w e)

-- `read_handler` runs for a connection whose peer has gone, which closes it, while it is the first in
-- its worker's close queue and the letter `x` for it is the next in the worker's pipe. Then the
-- handler of that letter faults: the connection is still in the queue, and its memory is freed.
pub notify_next-freed :
    (n : ℕ) (head : Recv) (body : ℕ → Recv) (s u : Server) (p i : ℕ) (c : Conn.Conn) (w : Worker)
    (bs : List ℕ)
    → (s.table).conns p ≡ some c
    → get_elem? s.workers i ≡ some w
    → w.pipe ≡ b'x' ∷ bs
    → front w.close_queue ≡ some p
    → (socket_recv n head body c).ret ≡ pos 0
    → read_handler n head body s p ≡ ok (u, none)
    → notify_next u i ≡ fault
unfolding notify_next notify_byte notify_close ◌>>=◌
notify_next-freed n head body s u p i c w bs e g x f z r =
    let left = Keeps-at (Left s p) _ (u, none) (read_handler-Left n head body s p c e z) r in
    let told : Worker = record w { pipe = bs } in
    let here : get_elem? u.workers i ≡ some w = rw left.1 g in
    let there = get_elem?-set_self u.workers i told (in_range u.workers i w here) in
    rw (here, x, there, f)
      (close_conn-fault
        (set_worker (set_worker u i told) i (record told { close_queue = rest w.close_queue })) p
        left.0)
