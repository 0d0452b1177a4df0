-- ===== src/Socket.antt =====
-- socket.c: packets over a stream socket. A packet is a head of four bytes, the length of the body
-- with the highest byte first, and the body. What the kernel's `recv` and `send` return is an
-- argument of the function that calls them.
pub mod Head
pub mod Receive
pub mod Stream
use rt_csp.Base.{
  ℕ, zero, suc, ◌+◌, ◌-◌, ◌*◌, ◌/◌, ◌%◌, ◌^◌, ◌≡◌, Bool, true, false, ◌&&◌, Option, none, some,
  List, [], ◌∷◌, ◌++◌, ◌==◌, ltb, leb, if◌then◌else◌, length, get_or, ℤ, pos, negsuc,
}
use rt_csp.Conn.{Conn, new_conn}

-- What a call of `recv` gives: -1, or the bytes received, none at the end of the stream.
pub data Recv : Type 0 where
  failed : Recv
  bytes : List ℕ → Recv

-- The sum of `buf[i] << ((3 - i) * 8)`.
unfoldable pub head_value : List ℕ → ℕ
head_value buf =
    get_or buf 0 0 * 2 ^ 24 + get_or buf 1 0 * 2 ^ 16 + get_or buf 2 0 * 2 ^ 8 + get_or buf 3 0

unfoldable pub recv_data_len : Recv → ℤ
recv_data_len failed = negsuc 0
recv_data_len (bytes buf) =
    if length buf == 0
    then pos 0
    else if length buf == 4
    then (if get_or buf 0 0 == 0 then pos (head_value buf) else pos 0)
    else pos 0

-- What `socket_recv` leaves: the connection, the returned number, and `*data` if it was set.
pub record Received : Type 0 where
  pub conn : Conn
  pub ret : ℤ
  pub packet : Option (List ℕ)

abbrev pub answer : Conn → ℤ → Received
answer c r = record { conn = c; ret = r; packet = none }

-- The new bytes are stored behind those received before; the packet is complete when its size is
-- reached.
unfoldable pub take_bytes : Conn → List ℕ → List ℕ → Received
take_bytes c old new =
    let n = c.rbytes + length new in
    if ltb 0 c.rsize && (n == c.rsize)
    then record {
      conn = record c { rbuf = none; rbytes = 0; rsize = 0 };
      ret = pos 1;
      packet = some (old ++ new);
    }
    else answer (record c { rbuf = some (old ++ new); rbytes = n }) (negsuc 0)

-- What is done with the result of `recv`.
unfoldable pub recv_result : Conn → List ℕ → Recv → Received
recv_result c old failed = answer c (negsuc 0)
recv_result c old (bytes new) = if length new == 0 then answer c (pos 0) else take_bytes c old new

-- `recv` into the rest of the buffer, without waiting. `recv` gets the length that it is called with.
unfoldable pub recv_body : Conn → List ℕ → (ℕ → Recv) → Received
unfolding recv_result
recv_body c old recv = recv_result c old (recv (c.rsize - c.rbytes))

-- A packet of `n` bytes begins: an empty buffer for it.
abbrev pub open_packet : Conn → ℕ → Conn
open_packet c n = record c { rbuf = some []; rsize = n; rbytes = 0 }

unfoldable pub recv_head : ℕ → Conn → ℤ → (ℕ → Recv) → Received
recv_head maxrecvs c (negsuc k) body = answer c (negsuc k)
recv_head maxrecvs c (pos zero) body = answer c (pos 0)
recv_head maxrecvs c (pos (suc n)) body =
    if ltb maxrecvs (suc n) then answer c (pos 0) else recv_body (open_packet c (suc n)) [] body

-- `head` is what `recv` gives `recv_data_len`, if it is called; `body` what it gives afterwards, for
-- each length.
unfoldable pub recv_at : ℕ → Option (List ℕ) → Recv → (ℕ → Recv) → Conn → Received
recv_at maxrecvs none head body c = recv_head maxrecvs c (recv_data_len head) body
recv_at maxrecvs (some old) head body c = recv_body c old body

unfoldable pub socket_recv : ℕ → Recv → (ℕ → Recv) → Conn → Received
socket_recv maxrecvs head body c = recv_at maxrecvs c.rbuf head body c

-- `package[i] = data_len >> ((3 - i) * 8)`, as bytes
unfoldable pub head_bytes : ℕ → List ℕ
head_bytes n = (n / 2 ^ 24 % 256) ∷ (n / 2 ^ 16 % 256) ∷ (n / 2 ^ 8 % 256) ∷ (n % 256) ∷ []

-- The bytes that `socket_send` hands to `send`; none at all for an empty body.
unfoldable pub packet_of : List ℕ → Option (List ℕ)
unfolding head_bytes
packet_of body = if length body == 0 then none else some (head_bytes (length body) ++ body)

-- `sent` is what the kernel's `send` returns.
unfoldable pub socket_send : (List ℕ → ℤ) → List ℕ → ℤ
socket_send sent body = elim (packet_of body) [ none ↦ negsuc 0 | some p ↦ sent p ]

-- `sockfd` is what `socket` returns, `connected` whether `connect` returns 0.
unfoldable pub socket_connect : ℤ → Bool → Option Conn
socket_connect (negsuc k) connected = none
socket_connect (pos fd) connected = if connected then some (new_conn fd) else none
