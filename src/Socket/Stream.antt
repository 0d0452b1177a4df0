-- ===== src/Socket/Stream.antt =====
-- A packet that is sent arrives whole, in whatever pieces the kernel delivers it.
use rt_csp.Base.{
  ℕ, zero, suc, ◌+◌, ◌-◌, ◌<◌, ◌≤◌, ◌≡◌, ◌^◌, refl, sym, ◌∙◌, ap, Option, none, some, List, [], ◌∷◌,
  ◌++◌, arith, ltb, if_cases, length, take, drop, length-append, pos, negsuc, append_assoc,
  append-nil,
}
use native.Mathlib.Decide.{dec_lt}
use rt_csp.Conn.{Conn}
use rt_csp.Socket.{
  Recv, failed, bytes, Received, answer, take_bytes, recv_body, recv_result, open_packet, recv_head,
  recv_at, socket_recv, recv_data_len, head_bytes, packet_of,
}
use rt_csp.Socket.Head.{recv_data_len-small}

-- The calls of `socket_recv` on one connection, as the read handler makes them: one for each result
-- of `recv` on the body. The packets that come out, in order.
pub recv_all : ℕ → Recv → List Recv → Conn → List (List ℕ) → Conn × List (List ℕ)
recv_all maxrecvs head [] c out = (c, out)
recv_all maxrecvs head (r ∷ rs) c out =
    let got = socket_recv maxrecvs head (λ _. r) c in
    recv_all maxrecvs head rs got.conn (elim got.packet [ none ↦ out | some p ↦ out ++ p ∷ [] ])

-- The results bring `n` bytes: each brings at least one and at most what is missing, or fails
-- because none is there yet; the last one completes them.
abbrev pub Brings : ℕ → List Recv → Type 0
Brings n [] = n ≡ 0
Brings n (failed ∷ rs) = (0 < n) × Brings n rs
Brings n (bytes b ∷ rs) = (0 < length b) × (length b ≤ n) × Brings (n - length b) rs

abbrev pub brought : List Recv → List ℕ
brought [] = []
brought (failed ∷ rs) = brought rs
brought (bytes b ∷ rs) = b ++ brought rs

-- A connection in the midst of a packet of which `old` is there and `n` bytes are missing.
record Awaits (c : Conn) (old : List ℕ) (n : ℕ) : Type 0 where
  buffered : c.rbuf ≡ some old
  so_far : c.rbytes ≡ length old
  size : c.rsize ≡ length old + n

abbrev pub idle : Conn → Conn
idle c = record c { rbuf = none; rbytes = 0; rsize = 0 }

take_bytes-last :
    (c : Conn) (old new : List ℕ)
    → c.rbytes ≡ length old
    → c.rsize ≡ length old + length new
    → 0 < length new
    → take_bytes c old new ≡ record { conn = idle c; ret = pos 1; packet = some (old ++ new) }
unfolding take_bytes
take_bytes-last c old new e f h = ground arith

take_bytes-more :
    (c : Conn) (old new : List ℕ) (n : ℕ)
    → c.rbytes ≡ length old
    → c.rsize ≡ length old + n
    → length new < n
    → take_bytes c old new
      ≡ answer (record c { rbuf = some (old ++ new); rbytes = c.rbytes + length new }) (negsuc 0)
unfolding take_bytes
take_bytes-more c old new n e f h = ground arith

module _ (maxrecvs : ℕ) (head : Recv) where
  abbrev next_out : List (List ℕ) → Option (List ℕ) → List (List ℕ)
  next_out out none = out
  next_out out (some p) = out ++ p ∷ []

  recv_all-cons :
      (r : Recv) (rs : List Recv) (c : Conn) (out : List (List ℕ)) (got : Received)
      → socket_recv maxrecvs head (λ _. r) c ≡ got
      → recv_all maxrecvs head (r ∷ rs) c out
        ≡ recv_all maxrecvs head rs got.conn (next_out out got.packet)
  unfolding recv_all
  recv_all-cons r rs c out got e = rw e (ground arith)

  at_body :
      (c : Conn) (old : List ℕ) (r : Recv)
      → c.rbuf ≡ some old
      → socket_recv maxrecvs head (λ _. r) c ≡ recv_body c old (λ _. r)
  unfolding socket_recv recv_at
  at_body c old r e = ap (λ b. recv_at maxrecvs b head (λ _. r) c) e

  recv_body-failed : (c : Conn) (old : List ℕ) → recv_body c old (λ _. failed) ≡ answer c (negsuc 0)
  unfolding recv_body recv_result
  recv_body-failed c old = refl

  recv_body-bytes :
      (c : Conn) (old b : List ℕ)
      → 0 < length b
      → recv_body c old (λ _. bytes b) ≡ take_bytes c old b
  unfolding recv_body recv_result
  recv_body-bytes c old b h = ground arith

  Brings-zero : (rs : List Recv) → Brings 0 rs → rs ≡ []
  Brings-zero [] b = refl
  Brings-zero (failed ∷ rs) b = absurd (omega (arith, b.0))
  Brings-zero (bytes x ∷ rs) b = absurd (omega (arith, b.0, b.1))

  abbrev Delivers : List Recv → Conn → List ℕ → List (List ℕ) → Type 0
  Delivers rs c old out =
      recv_all maxrecvs head rs c out ≡ (idle c, out ++ (old ++ brought rs) ∷ [])

  last_bytes :
      (b : List ℕ) (rs : List Recv) (c : Conn) (old : List ℕ) (out : List (List ℕ))
      → Awaits c old (length b)
      → 0 < length b
      → Brings 0 rs
      → Delivers (bytes b ∷ rs) c old out
  unfolding recv_all
  last_bytes b rs c old out w h done =
      recv_all-cons (bytes b) rs c out _ (
        at_body c old (bytes b) w.buffered
        ∙ recv_body-bytes c old b h
        ∙ take_bytes-last c old b w.so_far w.size h)
      ∙ rw (Brings-zero rs done, recv_all, append-nil b)

  more_bytes :
      (b : List ℕ) (rs : List Recv) (c : Conn) (old : List ℕ) (n : ℕ) (out : List (List ℕ))
      → Awaits c old n
      → 0 < length b
      → length b < n
      → ((c' : Conn) → Awaits c' (old ++ b) (n - length b) → Delivers rs c' (old ++ b) out)
      → Delivers (bytes b ∷ rs) c old out
  more_bytes b rs c old n out w h less ih =
      recv_all-cons (bytes b) rs c out _ (
        at_body c old (bytes b) w.buffered
        ∙ recv_body-bytes c old b h
        ∙ take_bytes-more c old b n w.so_far w.size less)
      ∙ ih _ (record {
        buffered = refl;
        so_far = omega (arith, w.so_far, length-append old b);
        size = omega (arith, w.size, length-append old b);
      })
      ∙ rw (append_assoc old b (brought rs))

  recv_all-Awaits :
      (rs : List Recv) (c : Conn) (old : List ℕ) (n : ℕ) (out : List (List ℕ))
      → Awaits c old n
      → 0 < n
      → Brings n rs
      → Delivers rs c old out
  recv_all-Awaits [] c old n out w h b = absurd (omega arith)
  recv_all-Awaits (failed ∷ rs) c old n out w h b =
      recv_all-cons failed rs c out _ (at_body c old failed w.buffered ∙ recv_body-failed c old)
      ∙ recv_all-Awaits rs c old n out w h b.1
  recv_all-Awaits (bytes x ∷ rs) c old n out w h b = elim (dec_lt (length x) n) [
    | yes less ↦
        more_bytes x rs c old n out w b.0 less
          λ c' w'. recv_all-Awaits rs c' (old ++ x) (n - length x) out w' (omega arith) b.2
    | no all ↦
        let e : length x ≡ n = omega (arith, b.1) in
        let done : n - length x ≡ 0 = omega arith in
        last_bytes x rs c old out
          (record { buffered = w.buffered; so_far = w.so_far; size = omega (arith, w.size) }) b.0
          (rw done at b.2)
  ]

-- The first call on an idle connection opens the packet that the head announces.
recv_head-open :
    (maxrecvs n : ℕ) (c : Conn) (r : Recv)
    → 0 < n
    → n ≤ maxrecvs
    → recv_head maxrecvs c (pos n) (λ _. r) ≡ recv_body (open_packet c n) [] (λ _. r)
unfolding recv_head
recv_head-open maxrecvs zero c r h k = absurd (omega arith)
recv_head-open maxrecvs (suc n) c r h k =
    if_cases (λ x. x ≡ recv_body (open_packet c (suc n)) [] (λ _. r)) (ltb maxrecvs (suc n)) _ _
      (λ z. absurd (ground arith)) (λ z. refl)

open-recv :
    (maxrecvs n : ℕ) (head r : Recv) (c : Conn)
    → c.rbuf ≡ none
    → recv_data_len head ≡ pos n
    → 0 < n
    → n ≤ maxrecvs
    → socket_recv maxrecvs head (λ _. r) c ≡ socket_recv maxrecvs head (λ _. r) (open_packet c n)
unfolding socket_recv recv_at
open-recv maxrecvs n head r c e len h k =
    ap (λ b. recv_at maxrecvs b head (λ _. r) c) e
    ∙ ap (λ l. recv_head maxrecvs c l (λ _. r)) len
    ∙ recv_head-open maxrecvs n c r h k

open-recv_all :
    (maxrecvs n : ℕ) (head : Recv) (rs : List Recv) (c : Conn)
    → c.rbuf ≡ none
    → recv_data_len head ≡ pos n
    → 0 < n
    → n ≤ maxrecvs
    → Brings n rs
    → recv_all maxrecvs head rs c [] ≡ recv_all maxrecvs head rs (open_packet c n) []
open-recv_all maxrecvs n head [] c e len h k b = absurd (omega arith)
open-recv_all maxrecvs n head (r ∷ rs) c e len h k b =
    recv_all-cons maxrecvs head r rs c [] _ (open-recv maxrecvs n head r c e len h k)
    ∙ sym (recv_all-cons maxrecvs head r rs (open_packet c n) [] _ refl)

head_of_packet :
    (body p : List ℕ)
    → packet_of body ≡ some p
    → (0 < length body) × (p ≡ head_bytes (length body) ++ body)
unfolding packet_of
head_of_packet [] p e = cc
head_of_packet (x ∷ xs) p e = (omega arith, ground arith)

split_packet :
    (n : ℕ) (body p : List ℕ)
    → p ≡ head_bytes n ++ body
    → (take 4 p ≡ head_bytes n) × (drop 4 p ≡ body)
unfolding head_bytes
split_packet n body p e = (ap (take 4) e, ap (drop 4) e)

-- A packet that `socket_send` writes, read by any sequence of calls of `socket_recv` on an idle
-- connection to which the kernel delivers the head at once and the rest in any pieces, with calls
-- in between that find nothing, comes out exactly once and equal to what was sent, and leaves the
-- connection idle. The packet must be within the receiver's limit and below 2^24 bytes.
pub recv_all-packet_of :
    (maxrecvs : ℕ) (body p : List ℕ) (rs : List Recv) (c : Conn)
    → packet_of body ≡ some p
    → length body ≤ maxrecvs
    → length body < 2 ^ 24
    → c.rbuf ≡ none
    → drop 4 p ≡ brought rs
    → Brings (length body) rs
    → recv_all maxrecvs (bytes (take 4 p)) rs c [] ≡ (idle c, body ∷ [])
recv_all-packet_of maxrecvs body p rs c sent fits small fresh pieces b =
    let s = head_of_packet body p sent in
    let n = length body in
    let parts = split_packet n body p s.1 in
    rw parts.0 (
      open-recv_all maxrecvs n (bytes (head_bytes n)) rs c fresh (recv_data_len-small n small) s.0
        fits b
      ∙ recv_all-Awaits maxrecvs (bytes (head_bytes n)) rs (open_packet c n) [] n []
          (record { buffered = refl; so_far = refl; size = omega arith }) s.0 b
      ∙ ap (λ d. (idle c, d ∷ [])) (sym pieces ∙ parts.1))
