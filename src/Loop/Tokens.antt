-- ===== src/Loop/Tokens.antt =====
-- The bytes in a worker's pipe and the entries of its queues.
use rt_csp.Base.{
  ℕ, zero, suc, ◌+◌, ◌≤◌, ◌≡◌, refl, Bool, true, false, Option, none, some, List, [], ◌∷◌, arith,
  ◌==◌, leb, if◌then◌else◌, if_cases, length, length-append, get_elem?, set, occurs, occurs-append,
}
use rt_csp.Queue.Fifo.{front, rest}
use rt_csp.Conn
use rt_csp.Conn.{_conn_num, remove_conn, clean_conn, modify}
use rt_csp.Loop.{
  Worker, Server, Run, ok, waiting, fault, ◌>>=◌, lift, lift_removal, with_table, set_worker,
  update_accept_event, is_accept_conn_ex, is_accept_conn,
}
use rt_csp.Loop.Listen.{all_accept, enqueue, deny, settle, admit, listen_handler}
use rt_csp.Loop.Serve.{close_conn, notify_close, notify_accept, notify_byte, notify_next}

-- For each letter in the pipe there is an entry in the queue that it is about.
abbrev pub IsCovered : Worker → Type 0
IsCovered w =
    (occurs b'l' w.pipe ≤ length w.accept_queue) × (occurs b'x' w.pipe ≤ length w.close_queue)

abbrev pub AllCovered : List Worker → Type 0
AllCovered [] = Unit {0}
AllCovered (w ∷ ws) = IsCovered w × AllCovered ws

pub AllCovered-get :
    (ws : List Worker) (i : ℕ) (w : Worker) → AllCovered ws → get_elem? ws i ≡ some w → IsCovered w
AllCovered-get [] i w v e = cc
AllCovered-get (x ∷ ws) zero w v e = ground (arith, v.0)
AllCovered-get (x ∷ ws) (suc i) w v e = AllCovered-get ws i w v.1 e

pub AllCovered-set :
    (ws : List Worker) (i : ℕ) (w : Worker) → AllCovered ws → IsCovered w → AllCovered (set ws i w)
AllCovered-set [] i w v c = tt
AllCovered-set (x ∷ ws) zero w v c = (c, v.1)
AllCovered-set (x ∷ ws) (suc i) w v c = (v.0, AllCovered-set ws i w v.1 c)

-- A step that ends leaves every worker covered.
abbrev pub Keeps {ℓ} : {A : Type ℓ} → (A → Type 0) → Run A → Type 0
Keeps P (ok a) = P a
Keeps P waiting = Unit {0}
Keeps P fault = Unit {0}

pub bind_rule {ℓ κ} :
    {A : Type ℓ} {B : Type κ} (P : B → Type 0) (m : Run A) (f : A → Run B)
    → ((a : A) → m ≡ ok a → Keeps P (f a))
    → Keeps P (m >>= f)
unfolding ◌>>=◌
bind_rule P (ok a) f h = h a refl
bind_rule P waiting f h = tt
bind_rule P fault f h = tt

pub lift-ok {ℓ} : {A : Type ℓ} (o : Option A) (a : A) → lift o ≡ ok a → o ≡ some a
lift-ok none a e = cc
lift-ok (some b) a e = ground arith

abbrev pub Good : Server → Type 0
Good s = AllCovered s.workers

pub is_accept_conn_ex-Good :
    (n : ℕ) (d b : Bool) (s : Server) → Good s → Good (is_accept_conn_ex n d b s)
unfolding is_accept_conn_ex update_accept_event
is_accept_conn_ex-Good n d true s v = ground (arith, v)
is_accept_conn_ex-Good n d false s v = ground (arith, v)

settle-Good : (a : Bool) (s : Server) (p i : ℕ) → Good s → Keeps Good (settle a s p i)
unfolding settle
settle-Good true s p i v = bind_rule Good (lift (get_elem? s.workers i)) _ λ w e.
    AllCovered-set s.workers i (enqueue w p) v (
      let c = AllCovered-get s.workers i w v (lift-ok _ w e) in
      omega (
        arith,
        occurs-append b'l' w.pipe (b'l' ∷ []),
        occurs-append b'x' w.pipe (b'l' ∷ []),
        length-append w.accept_queue (p ∷ []),
      ))
settle-Good false s p i v =
    bind_rule Good (lift (clean_conn s.table p)) _
      λ t e. bind_rule Good (lift_removal (remove_conn t p)) _ λ t' e'. v

admit-Good :
    (hooks : List (Conn.Conn → Bool)) (s : Server) (p fd : ℕ)
    → Good s
    → Keeps Good (admit hooks s p fd)
unfolding admit
admit-Good hooks s p fd v = bind_rule Good _ _ λ t _. bind_rule Good _ _ λ c _.
    bind_rule Good _ _ λ i _.
      bind_rule Good _ _
        λ t' _. bind_rule Good _ _ λ c' _. settle-Good (all_accept hooks c') (with_table s t') p i v

pub listen_handler-Good :
    (n m : ℕ) (d : Bool) (hooks : List (Conn.Conn → Bool)) (s : Server) (p fd : ℕ)
    → Good s
    → Keeps Good (listen_handler n m d hooks s p fd)
unfolding listen_handler deny
listen_handler-Good n m d hooks s p fd v =
    if_cases (Keeps Good) (fd == 0) _ _ (λ _. v)
      (λ _.
        if_cases (Keeps Good) (leb m (_conn_num s.table)) _ _
          (λ _. bind_rule Good _ _ λ t _. is_accept_conn_ex-Good n d false s v)
          (λ _. admit-Good hooks s p fd v))

pub close_conn-Good : (s : Server) (p : ℕ) → Good s → Keeps Good (close_conn s p)
unfolding close_conn is_accept_conn
close_conn-Good s p v = bind_rule Good _ _ λ t _. bind_rule Good _ _ λ t' _. v

-- The state in which byte `b` of worker `i` is handled: the byte is out of the pipe.
abbrev IsNext : ℕ → Worker → Type 0
IsNext b w =
    ((if b == b'l' then 1 else 0) + occurs b'l' w.pipe ≤ length w.accept_queue)
    × ((if b == b'x' then 1 else 0) + occurs b'x' w.pipe ≤ length w.close_queue)

length-rest : (xs : List ℕ) (n : ℕ) → 1 + n ≤ length xs → n ≤ length (rest xs)
length-rest [] n h = absurd (omega arith)
length-rest (x ∷ xs) n h = omega arith

notify_close-Good :
    (s : Server) (i : ℕ) (w : Worker) → Good s → IsNext b'x' w → Keeps Good (notify_close s i w)
unfolding notify_close
notify_close-Good s i w v c = bind_rule Good (lift (front w.close_queue)) _ λ p e.
    close_conn-Good _ p (
      AllCovered-set s.workers i (record w { close_queue = rest w.close_queue }) v
        (omega (arith, c.0), length-rest w.close_queue _ c.1))

notify_accept-Good :
    (s : Server) (i : ℕ) (w : Worker) → Good s → IsNext b'l' w → Keeps Good (notify_accept s i w)
unfolding notify_accept
notify_accept-Good s i w v c = bind_rule Good _ _ λ p _. bind_rule Good _ _ λ k _.
    bind_rule Good _ _ λ t _.
      AllCovered-set s.workers i (record w { accept_queue = rest w.accept_queue }) v
        (length-rest w.accept_queue _ c.0, omega (arith, c.1))

notify_byte-Good :
    (b : ℕ) (s : Server) (i : ℕ)
    → Good s
    → ((w : Worker) → get_elem? s.workers i ≡ some w → IsNext b w)
    → Keeps Good (notify_byte b s i)
unfolding notify_byte
notify_byte-Good b s i v c = bind_rule Good (lift (get_elem? s.workers i)) _ λ w e.
    let k = c w (lift-ok _ w e) in
    if_cases (Keeps Good) (b == b'x') _ _ (λ z. notify_close-Good s i w v (ground (arith, k)))
      (λ _.
        if_cases (Keeps Good) (b == b'-') _ _
          (λ _. AllCovered-set s.workers i (record w { stopped = true }) v (omega (arith, k)))
          (λ _.
            if_cases (Keeps Good) (b == b'l') _ _
              (λ z. notify_accept-Good s i w v (ground (arith, k))) (λ _. v)))

get_elem?-set :
    (ws : List Worker) (i : ℕ) (w u v : Worker)
    → get_elem? ws i ≡ some w
    → get_elem? (set ws i u) i ≡ some v
    → v ≡ u
get_elem?-set [] i w u v e f = cc
get_elem?-set (x ∷ ws) zero w u v e f = cc
get_elem?-set (x ∷ ws) (suc i) w u v e f = get_elem?-set ws i w u v e f

next-Good :
    (s : Server) (i : ℕ) (w : Worker) (pipe : List ℕ)
    → Good s
    → get_elem? s.workers i ≡ some w
    → w.pipe ≡ pipe
    → Keeps Good (elim pipe [
      | [] ↦ ok s
      | b ∷ bs ↦ notify_byte b (set_worker s i (record w { pipe = bs })) i
    ])
next-Good s i w [] v e f = v
next-Good s i w (b ∷ bs) v e f =
    let c = AllCovered-get s.workers i w v e in
    let k : IsNext b (record w { pipe = bs }) = ground (arith, c) in
    notify_byte-Good b (set_worker s i (record w { pipe = bs })) i
      (AllCovered-set s.workers i _ v (ground (arith, k)))
      (λ u g. rw (get_elem?-set s.workers i w _ u e g) k)

pub notify_next-Good : (s : Server) (i : ℕ) → Good s → Keeps Good (notify_next s i)
unfolding notify_next
notify_next-Good s i v =
    bind_rule Good (lift (get_elem? s.workers i)) _
      λ w e. next-Good s i w w.pipe v (lift-ok _ w e) refl
