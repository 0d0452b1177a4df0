-- ===== src/Loop/Accepting.antt =====
-- When the server listens, and which connections it takes.
use rt_csp.Base.{
  ℕ, ◌≡◌, ◌≢◌, refl, sym, ap, ◌∙◌, Bool, true, false, none, some, List, [], ◌∷◌, ◌==◌, inl, inr,
  if◌then◌else◌, if_cases, Bool-cases, ==_refl, get_elem?, update,
}
use mathlib.Core.Path.{subst}
use rt_csp.Conn.{modify}
use rt_csp.Conn
use rt_csp.Loop.{
  Server, Run, ok, ◌>>=◌, lift, ev_read_persist, update_accept_event, is_accept_conn_ex,
  listen_notify_byte, listen_notify_bytes,
}
use rt_csp.Loop.Tokens.{Keeps, bind_rule, lift-ok}
use rt_csp.Loop.Serve.{socket_close}

-- The socket is watched and listens with the backlog of the command line, or neither.
unfoldable pub IsListening : ℕ → Bool → Server → Type 0
IsListening rtcsp_backlog true s = (s.ev_flags ≡ ev_read_persist) × (s.backlog ≡ rtcsp_backlog)
IsListening rtcsp_backlog false s = (s.ev_flags ≡ 0) × (s.backlog ≡ 0)

-- Asked to accept or not to accept, the server does, whatever it did before.
is_accept_conn_ex-IsListening :
    (rtcsp_backlog : ℕ) (was do_accept : Bool) (s : Server)
    → IsListening rtcsp_backlog was s
    → IsListening rtcsp_backlog do_accept (is_accept_conn_ex rtcsp_backlog true do_accept s)
unfolding is_accept_conn_ex update_accept_event IsListening
is_accept_conn_ex-IsListening rtcsp_backlog true true s h = rw h.0 (refl, h.1)
is_accept_conn_ex-IsListening rtcsp_backlog true false s h = rw h.0 (refl, refl)
is_accept_conn_ex-IsListening rtcsp_backlog false true s h = rw h.0 (refl, refl)
is_accept_conn_ex-IsListening rtcsp_backlog false false s h = rw h.0 (refl, h.1)

-- Whether connections are wanted after the letters of a pipe: the last `e` or `d` decides.
unfoldable pub wanted : Bool → List ℕ → Bool
wanted now [] = now
wanted now (b ∷ bs) = wanted (if b == b'e' then true else if b == b'd' then false else now) bs

listen_notify_byte-IsListening :
    (rtcsp_backlog b : ℕ) (was : Bool) (s : Server)
    → IsListening rtcsp_backlog was s
    → IsListening rtcsp_backlog
        (if b == b'e' then true else if b == b'd' then false else was)
        (listen_notify_byte rtcsp_backlog true b s)
unfolding listen_notify_byte
listen_notify_byte-IsListening rtcsp_backlog b was s h = elim (Bool-cases (b == b'e')) [
  | inl e ↦ rw e (is_accept_conn_ex-IsListening rtcsp_backlog was true s h)
  | inr n ↦ elim (Bool-cases (b == b'd')) [
    | inl d ↦ rw (n, d) (is_accept_conn_ex-IsListening rtcsp_backlog was false s h)
    | inr m ↦ rw (n, m) h
  ]
]

-- Whatever sequence of letters reaches the listening thread, if `event_del` succeeds each time,
-- from a state in which it listens or is deaf, the server listens afterwards, with the backlog of
-- the command line, if the last `e` or `d` was an `e`; it is deaf if that was a `d`; and with
-- neither letter it does as before.
pub listen_notify_bytes-IsListening :
    (rtcsp_backlog : ℕ) (bs : List ℕ) (was : Bool) (s : Server)
    → IsListening rtcsp_backlog was s
    → IsListening rtcsp_backlog (wanted was bs) (listen_notify_bytes rtcsp_backlog true bs s)
unfolding listen_notify_bytes wanted
listen_notify_bytes-IsListening rtcsp_backlog [] was s h = h
listen_notify_bytes-IsListening rtcsp_backlog (b ∷ bs) was s h =
    listen_notify_bytes-IsListening rtcsp_backlog bs _ _
      (listen_notify_byte-IsListening rtcsp_backlog b was s h)

-- What a denied connection leaves: its object is freed, nothing else of the table has changed, nor
-- have the workers and the pipe, and the server is deaf.
abbrev pub Denied : ℕ → Server → ℕ → Server → Type 0
Denied rtcsp_backlog s p u =
    IsListening rtcsp_backlog false u
    × ((u.table).conns p ≡ none)
    × ((q : ℕ) → q ≢ p → (u.table).conns q ≡ (s.table).conns q)
    × ((u.table).iconns ≡ (s.table).iconns)
    × ((u.table).spare ≡ (s.table).spare)
    × ((u.table).conn_num ≡ (s.table).conn_num)
    × (u.workers ≡ s.workers)
    × (u.pipe ≡ s.pipe)

told_already :
    (u : Server) (p : ℕ) (c : Conn.Conn)
    → (u.table).conns p ≡ some c
    → c.refable ≡ false
    → socket_close u p ≡ ok u
unfolding socket_close ◌>>=◌
told_already u p c e r = rw (e, r) refl

modify-at :
    (t u : Conn.Table) (p : ℕ) (f : Conn.Conn → Conn.Conn) (c : Conn.Conn)
    → t.conns p ≡ some c
    → modify t p f ≡ some u
    → u.conns p ≡ some (f c)
modify-at t u p f c e m =
    let v : modify t p f ≡ some (record t { conns = update t.conns p (some (f c)) }) =
      rw (e, modify) refl in
    let w : ok (record t { conns = update t.conns p (some (f c)) }) ≡ ok u = ap lift (sym v ∙ m) in
    let at : update t.conns p (some (f c)) p ≡ some (f c) = rw (==_refl p) refl in
    subst (λ (r : Run Conn.Table). Keeps (λ x. x.conns p ≡ some (f c)) r) w at

socket_close-told : (s : Server) (p : ℕ) → Keeps (λ u. socket_close u p ≡ ok u) (socket_close s p)
socket_close-told s p =
    let P : Server → Type 0 = λ u. socket_close u p ≡ ok u in
    unfold socket_close in
    bind_rule P (lift ((s.table).conns p)) _ λ c e.
      if_cases (Keeps P) c.refable _ _
        (λ _. bind_rule P (lift (get_elem? s.workers c.thread)) _ λ w _.
          bind_rule P (lift (modify s.table p λ c. record c { refable = false })) _ λ t m.
            told_already _ p (record c { refable = false })
              (modify-at s.table t p _ c (lift-ok _ c e) (lift-ok _ t m)) refl)
        (told_already s p c (lift-ok _ c e))

-- However often and from wherever a connection is closed, its worker is told once: a second
-- `socket_close` changes nothing.
pub socket_close-once : (s u : Server) (p : ℕ) → socket_close s p ≡ ok u → socket_close u p ≡ ok u
socket_close-once s u p e = subst (Keeps λ v. socket_close v p ≡ ok v) e (socket_close-told s p)
