-- ===== src/Socket/Receive.antt =====
-- The receive buffer of a connection.
use rt_csp.Base.{
  ℕ, zero, suc, ◌-◌, ◌<◌, ◌≤◌, ◌≡◌, refl, Option, none, some, List, [], arith, ◌==◌, ltb, if_cases,
  length, length-append, ℤ, pos, negsuc,
}
use rt_csp.Conn.{Conn}
use rt_csp.Socket.{
  Recv, failed, bytes, Received, take_bytes, recv_body, recv_result, open_packet, recv_head,
  recv_at, socket_recv, recv_data_len,
}

-- A connection waits for a head, or its buffer holds `rbytes` bytes of a packet of `rsize`, not
-- complete, which is not larger than the limit.
abbrev pub Buffers : ℕ → Option (List ℕ) → ℕ → ℕ → Type 0
Buffers maxrecvs none rbytes rsize = Unit {0}
Buffers maxrecvs (some b) rbytes rsize = (rbytes ≡ length b) × (rbytes < rsize) × (rsize ≤ maxrecvs)

pub IsReceiving : ℕ → Conn → Type 0
IsReceiving maxrecvs c = Buffers maxrecvs c.rbuf c.rbytes c.rsize

-- The free part of the buffer.
abbrev pub wanted : Conn → ℕ
wanted c = c.rsize - c.rbytes

-- At most that many bytes.
abbrev pub Within : ℕ → Recv → Type 0
Within n failed = Unit {0}
Within n (bytes new) = length new ≤ n

abbrev pub IsPacket : ℕ → Option (List ℕ) → Type 0
IsPacket maxrecvs none = Unit {0}
IsPacket maxrecvs (some p) = (0 < length p) × (length p ≤ maxrecvs)

abbrev pub IsReceived : ℕ → Received → Type 0
IsReceived maxrecvs r = IsReceiving maxrecvs r.conn × IsPacket maxrecvs r.packet

take_bytes-IsReceived :
    (maxrecvs : ℕ) (c : Conn) (old new : List ℕ)
    → Buffers maxrecvs (some old) c.rbytes c.rsize
    → length new ≤ wanted c
    → IsReceived maxrecvs (take_bytes c old new)
unfolding take_bytes IsReceiving
take_bytes-IsReceived maxrecvs c old new v h = ground (arith, length-append old new)

recv_result-IsReceived :
    (maxrecvs : ℕ) (c : Conn) (old : List ℕ) (r : Recv)
    → c.rbuf ≡ some old
    → Buffers maxrecvs (some old) c.rbytes c.rsize
    → Within (wanted c) r
    → IsReceived maxrecvs (recv_result c old r)
unfolding recv_result
recv_result-IsReceived maxrecvs c old failed e v h = unfold IsReceiving in (rw e v, tt)
recv_result-IsReceived maxrecvs c old (bytes new) e v h =
    if_cases (IsReceived maxrecvs) (length new == 0) _ _ (λ _. unfold IsReceiving in (rw e v, tt))
      (λ _. take_bytes-IsReceived maxrecvs c old new v h)

-- `recv` gives no more bytes than it is asked for, as its manual says.
abbrev pub IsRecv : (ℕ → Recv) → Type 0
IsRecv recv = (n : ℕ) → Within n (recv n)

recv_body-IsReceived :
    (maxrecvs : ℕ) (c : Conn) (old : List ℕ) (recv : ℕ → Recv)
    → c.rbuf ≡ some old
    → Buffers maxrecvs (some old) c.rbytes c.rsize
    → IsRecv recv
    → IsReceived maxrecvs (recv_body c old recv)
unfolding recv_body
recv_body-IsReceived maxrecvs c old recv e v h =
    recv_result-IsReceived maxrecvs c old (recv (wanted c)) e v (h (wanted c))

recv_head-IsReceived :
    (maxrecvs : ℕ) (c : Conn) (n : ℤ) (recv : ℕ → Recv)
    → IsReceiving maxrecvs c
    → IsRecv recv
    → IsReceived maxrecvs (recv_head maxrecvs c n recv)
unfolding recv_head
recv_head-IsReceived maxrecvs c (negsuc k) recv v h = (v, tt)
recv_head-IsReceived maxrecvs c (pos zero) recv v h = (v, tt)
recv_head-IsReceived maxrecvs c (pos (suc n)) recv v h =
    if_cases (IsReceived maxrecvs) (ltb maxrecvs (suc n)) _ _ (λ _. (v, tt))
      (λ small.
        recv_body-IsReceived maxrecvs (open_packet c (suc n)) [] recv refl
          (refl, omega arith, ground arith) h)

recv_at-IsReceived :
    (maxrecvs : ℕ) (b : Option (List ℕ)) (head : Recv) (recv : ℕ → Recv) (c : Conn)
    → c.rbuf ≡ b
    → IsReceiving maxrecvs c
    → IsRecv recv
    → IsReceived maxrecvs (recv_at maxrecvs b head recv c)
unfolding recv_at
recv_at-IsReceived maxrecvs none head recv c e v h =
    recv_head-IsReceived maxrecvs c (recv_data_len head) recv v h
recv_at-IsReceived maxrecvs (some old) head recv c e v h =
    recv_body-IsReceived maxrecvs c old recv e (unfold IsReceiving in (rw e at v)) h

-- On a connection in the midst of receiving, whatever arrives, if `recv` gives no more bytes than the
-- length that `socket_recv` calls it with, the buffer of a connection is never written past its size,
-- is never larger than the limit, and each packet that is handed out has from 1 byte up to the limit.
pub socket_recv-IsReceived :
    (maxrecvs : ℕ) (head : Recv) (recv : ℕ → Recv) (c : Conn)
    → IsReceiving maxrecvs c
    → IsRecv recv
    → IsReceiving maxrecvs (socket_recv maxrecvs head recv c).conn
      × IsPacket maxrecvs (socket_recv maxrecvs head recv c).packet
unfolding socket_recv
socket_recv-IsReceived maxrecvs head recv c v h =
    recv_at-IsReceived maxrecvs c.rbuf head recv c refl v h

pub new_conn-IsReceiving : (maxrecvs : ℕ) (c : Conn) → c.rbuf ≡ none → IsReceiving maxrecvs c
unfolding IsReceiving
new_conn-IsReceiving maxrecvs c e = rw e tt
