-- ===== src/Examples/Sockets.antt =====
-- socket.c on a packet of three bytes that arrives in two pieces.
use rt_csp.Base.{ℕ, zero, suc, ◌≡◌, ◌<◌, ◌≤◌, ◌^◌, refl, List, [], ◌∷◌, arith, take, pos}
use rt_csp.Conn.{new_conn}
use rt_csp.Socket.{
  Recv, failed, bytes, head_value, recv_data_len, head_bytes, packet_of, socket_recv,
}
use rt_csp.Socket.Head.{recv_data_len-head_bytes}
use rt_csp.Socket.Receive.{
  IsReceiving, IsRecv, IsPacket, socket_recv-IsReceived, new_conn-IsReceiving,
}
use rt_csp.Socket.Stream.{recv_all, idle, recv_all-packet_of}

abbrev sent : List ℕ
sent = 0 ∷ 0 ∷ 0 ∷ 3 ∷ b'a' ∷ b'b' ∷ b'c' ∷ []

abbrev arrivals : List Recv
arrivals = failed ∷ bytes (b'a' ∷ []) ∷ failed ∷ bytes (b'b' ∷ b'c' ∷ []) ∷ []

recv_all-packet_of_example :
    recv_all 100 (bytes (take 4 sent)) arrivals (new_conn 9) []
    ≡ (idle (new_conn 9), (b'a' ∷ b'b' ∷ b'c' ∷ []) ∷ [])
unfolding packet_of head_bytes new_conn
recv_all-packet_of_example =
    recv_all-packet_of 100 (b'a' ∷ b'b' ∷ b'c' ∷ []) sent arrivals (new_conn 9) refl (omega arith)
      (omega arith) refl refl
      (omega arith, (omega arith, omega arith, (omega arith, (omega arith, omega arith, refl))))

-- One byte, if one is asked for.
abbrev first_byte : ℕ → Recv
first_byte zero = bytes []
first_byte (suc n) = bytes (b'a' ∷ [])

first_byte-IsRecv : IsRecv first_byte
first_byte-IsRecv zero = omega arith
first_byte-IsRecv (suc n) = omega arith

socket_recv-IsReceived_example :
    IsReceiving 100 (socket_recv 100 (bytes (0 ∷ 0 ∷ 0 ∷ 3 ∷ [])) first_byte (new_conn 9)).conn
    × IsPacket 100 (socket_recv 100 (bytes (0 ∷ 0 ∷ 0 ∷ 3 ∷ [])) first_byte (new_conn 9)).packet
unfolding new_conn recv_data_len head_value
socket_recv-IsReceived_example =
    socket_recv-IsReceived 100 (bytes (0 ∷ 0 ∷ 0 ∷ 3 ∷ [])) first_byte (new_conn 9)
      (new_conn-IsReceiving 100 (new_conn 9) refl) first_byte-IsRecv

recv_data_len-head_bytes_example :
    (70000 < 2 ^ 24 → recv_data_len (bytes (head_bytes 70000)) ≡ pos 70000)
    × (2 ^ 24 ≤ 70000 → recv_data_len (bytes (head_bytes 70000)) ≡ pos 0)
recv_data_len-head_bytes_example = recv_data_len-head_bytes 70000 (omega arith)
