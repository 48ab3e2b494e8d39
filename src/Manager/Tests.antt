-- ===== src/Manager/Tests.antt =====
-- The manager at concrete states.
use sys_slp_client.Base.{
  ℕ, ◌≡◌, bswap16, bswap32, refl, Bool, true, some, [], ◌∷◌, length-replicate, arith,
}
use sys_slp_client.Net.BsdTypes.{get_port, addr, stream, dgram, tcp, udp, zero_addr}
use sys_slp_client.Net.IpAddr.{from_network}
use sys_slp_client.Net.LanAddrMap.{initial}
use sys_slp_client.Ring.{push_drop_oldest}
use sys_slp_client.Ring.Queue.{push_drop_oldest-IsValid}
use sys_slp_client.Ring.Queue
use sys_slp_client.Socket.State.{ProxySocket, Route, new_socket, bound}
use sys_slp_client.Manager.State.{
  ProxySocketManager, new_manager, new_pending, max_pending_packets, empty_pending,
}
use sys_slp_client.Manager.Sockets.{create_proxy_socket}
use sys_slp_client.Manager.Routing.{route_incoming_data, fill_pending, find_socket_by_destination}
use sys_slp_client.Manager.Pending.{deliver_pending_packets}
use sys_slp_client.Manager.Lookup.{IsValid, Created, create_proxy_socket_lem}
use sys_slp_client.Manager.Agreement.{place_found}
use sys_slp_client.Manager.Backlog.{
  Delivered, Routed, deliver_pending_packets_lem, route_incoming_data_lem,
}

-- A UDP socket bound to port 30000 of any address, under file descriptor 5.
abbrev game_socket : ProxySocket
game_socket = record (new_socket dgram udp) {
  state = bound;
  local_addr = record zero_addr { sin_port = 12405 };
}

abbrev one_socket : ProxySocketManager
one_socket = record new_manager { sockets = (5, game_socket) ∷ [] }

-- From a session peer to a port, by broadcast.
abbrev to_port : ℕ → Route
to_port port = record {
  source_ip = 0x0A0D2502;
  source_port = 30000;
  dest_ip = 0x0A0DFFFF;
  dest_port = port;
}

abbrev a_peer : ℕ → Bool
a_peer _ = true

one_socket-IsValid : IsValid one_socket
one_socket-IsValid = record { distinct = (refl, tt); within = omega arith }

new_pending-IsValid : Queue.IsValid max_pending_packets new_manager.pending
unfolding new_manager new_pending
new_pending-IsValid = record {
  storage = length-replicate max_pending_packets empty_pending;
  some_room = omega arith;
  head_in = omega arith;
  tail_at = refl;
  count_le = omega arith;
}

create_proxy_socket_lem_example :
    Created one_socket 6 stream tcp (create_proxy_socket one_socket 1 6 stream tcp)
create_proxy_socket_lem_example =
    create_proxy_socket_lem one_socket 1 6 stream tcp one_socket-IsValid

route_incoming_data_lem_example :
    Routed a_peer initial one_socket
      (to_port 30000)
      udp
      (7 ∷ 8 ∷ [])
      (route_incoming_data a_peer initial one_socket (to_port 30000) udp (some (7 ∷ 8 ∷ [])) 2)
route_incoming_data_lem_example =
    route_incoming_data_lem a_peer initial one_socket (to_port 30000) udp (7 ∷ 8 ∷ [])
      new_pending-IsValid

-- A datagram for port 30000 that came before its socket.
abbrev early : ProxySocketManager
early = record new_manager {
  pending =
      push_drop_oldest max_pending_packets (fill_pending (to_port 30000) udp (some (7 ∷ 8 ∷ [])) 2)
        new_manager.pending;
}

early-IsValid : Queue.IsValid max_pending_packets early.pending
early-IsValid =
    push_drop_oldest-IsValid max_pending_packets empty_pending
      (fill_pending (to_port 30000) udp (some (7 ∷ 8 ∷ [])) 2) new_manager.pending
      new_pending-IsValid

deliver_pending_packets_lem_example :
    Delivered initial early game_socket 30000 udp
      (deliver_pending_packets initial early (some game_socket) 30000 udp)
deliver_pending_packets_lem_example =
    deliver_pending_packets_lem initial early game_socket 30000 udp early-IsValid

-- An unbound socket before two of the game's.
abbrev three_sockets : ProxySocketManager
three_sockets = record new_manager {
  sockets = (4, new_socket dgram udp) ∷ (5, game_socket) ∷ (6, game_socket) ∷ [];
}

second_found : place_found (find_socket_by_destination three_sockets 0x0A0DFFFF 30000 udp) ≡ some 1
unfolding find_socket_by_destination new_socket get_port bswap16 addr from_network bswap32
second_found = refl
