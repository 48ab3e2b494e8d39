-- ===== src/Socket/Tests.antt =====
-- The socket at concrete states: UDP and TCP sockets, and a peer at 10.13.37.2, port 30000.
use sys_slp_client.Base.{
  ℕ, ◌≡◌, refl, Bool, true, false, ◌==◌, if◌then◌else◌, some, List, [], ◌∷◌, ◌++◌, map, min, take,
  arith, bswap16, bswap32,
}
use sys_slp_client.Net.BsdTypes.{
  SockAddrIn, zero_addr, af_inet, get_addr, get_port, stream, dgram, tcp, udp, unspecified,
  conn_refused, protocol_value,
}
use sys_slp_client.Ring.Queue.{bounded}
use sys_slp_client.Socket.State.{
  ProxySocket, ProxyConnectInfo, proxy_connect, success, throws, new_socket, new_ring, no_info,
  listening, bound, connected, proxy_socket_max_queue_size, proxy_socket_max_payload,
}
use sys_slp_client.Socket.Packets.{queue, RxIsValid}
use sys_slp_client.Socket.Receive.{recv_from, incoming_data, peek_flag}
use sys_slp_client.Socket.Fifo.{Delivers, queue-incoming_data, incoming_data-RxIsValid}
use sys_slp_client.Socket.Delivery.{Reads, recv_from-Delivers, recv_from-Reads, recv_from_woken}
use sys_slp_client.Socket.Burst.{
  arrive, keep_last, cut, queue-arrive, new_socket-RxIsValid, queue-new_socket,
}
use sys_slp_client.Socket.Address.{connect, connect_route}
use sys_slp_client.Socket.Listener.{handle_connect_response}
use sys_slp_client.Socket.Handshake.{connect-handle_connect_response}

abbrev udp_socket : ProxySocket
udp_socket = new_socket dgram udp

abbrev tcp_socket : ProxySocket
tcp_socket = new_socket stream tcp

abbrev peer : SockAddrIn
peer = record zero_addr { sin_family = af_inet; sin_port = 12405; sin_addr = 35982602 }

abbrev message : List ℕ
message = 1 ∷ 2 ∷ 3 ∷ []

abbrev greeted : ProxySocket
greeted = incoming_data udp_socket (some message) 3 peer

abbrev never : ProxySocket → Bool × ProxySocket
never s = (false, s)

-- The peer's datagram arrives during the wait.
abbrev in_time : ProxySocket → Bool × ProxySocket
in_time s = (true, incoming_data s (some message) 3 peer)

abbrev request : ProxyConnectInfo
request = record no_info { source_ipv4 = 0x0A0D2502; source_port = 30000; protocol = tcp }

peer_read : (get_addr peer ≡ 0x0A0D2502) × (get_port peer ≡ 30000)
unfolding get_addr get_port bswap32 bswap16
peer_read = (refl, refl)

udp-RxIsValid : RxIsValid udp_socket.rx
udp-RxIsValid = new_socket-RxIsValid dgram udp

greeted-RxIsValid : RxIsValid greeted.rx
greeted-RxIsValid = incoming_data-RxIsValid udp_socket message 3 peer udp-RxIsValid (omega arith)

queue-greeted : queue greeted ≡ (peer, message) ∷ []
unfolding incoming_data new_socket new_ring
queue-greeted = refl

queue-incoming_data_example :
    queue greeted
    ≡ bounded proxy_socket_max_queue_size (queue udp_socket)
      ++ (peer, take (min 3 proxy_socket_max_payload) message) ∷ []
queue-incoming_data_example =
    queue-incoming_data udp_socket message 3 peer udp-RxIsValid (omega arith)

queue-arrive_example :
    queue (arrive udp_socket ((peer, message) ∷ (peer, []) ∷ []))
    ≡ keep_last proxy_socket_max_queue_size
        (queue udp_socket ++ map cut ((peer, message) ∷ (peer, []) ∷ []))
queue-arrive_example = queue-arrive udp_socket ((peer, message) ∷ (peer, []) ∷ []) udp-RxIsValid

recv_from-Delivers_example :
    Delivers 2 (peek_flag 0) (peer, message) [] (recv_from never greeted true 2 0)
unfolding incoming_data new_socket
recv_from-Delivers_example =
    recv_from-Delivers never greeted 2 0 (peer, message) [] greeted-RxIsValid refl refl
      queue-greeted

recv_from-Reads_example : Reads never udp_socket true 100 0 (recv_from never udp_socket true 100 0)
recv_from-Reads_example = recv_from-Reads never udp_socket true 100 0 udp-RxIsValid udp-RxIsValid

recv_from_woken_example :
    Delivers 100 (peek_flag 0) (peer, message) [] (recv_from in_time udp_socket true 100 0)
unfolding new_socket
recv_from_woken_example =
    recv_from_woken in_time udp_socket 100 0 (peer, message) [] refl refl
      (queue-new_socket dgram udp) refl refl greeted-RxIsValid queue-greeted

connect-handle_connect_response_example :
    let out =
      connect (λ _. true) (λ w. (true, handle_connect_response w no_info)) tcp_socket peer in
    let accepted = protocol_value unspecified == 0 in
    (out.0 ≡ (if accepted then success else throws conn_refused))
    × (out.1.state ≡ (if accepted then connected else bound))
    × (out.1.remote_addr ≡ peer)
    × (out.1.local_addr ≡ tcp_socket.local_addr)
    × (out.2 ≡ proxy_connect (connect_route tcp_socket peer) tcp ∷ [])
unfolding new_socket
connect-handle_connect_response_example =
    connect-handle_connect_response (λ _. true) tcp_socket peer no_info refl refl refl refl refl

abbrev listener : ProxySocket
listener = record tcp_socket { state = listening }
