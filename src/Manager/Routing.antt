-- ===== src/Manager/Routing.antt =====
-- proxy_socket_manager.cpp: which socket a message of the session is for. A pointer to a socket is
-- its place in the iteration order.
use sys_slp_client.Base.{
  ℕ, zero, suc, ◌+◌, ◌%◌, min, Bool, true, false, not, ◌&&◌, ◌||◌, ◌==◌, ltb, if◌then◌else◌, Option,
  none, some, List, [], ◌∷◌, u16, bswap16, copy_into,
}
use sys_slp_client.Net.IpAddr.{from_numeric}
use sys_slp_client.Net.BsdTypes.{
  ProtocolType, same_protocol, is_tcp, SockAddrIn, get_addr, get_port, addr, set_addr,
}
use sys_slp_client.Net.LanAddrMap.{NetMap, is_lan_mode_port, virtual_to_game}
use sys_slp_client.Ring.{modify, push_drop_oldest}
use sys_slp_client.Socket.State.{
  ProxySocket, ProxyConnectInfo, Outgoing, Route, inet_addr, is_connecting, is_listening,
}
use sys_slp_client.Socket.Receive.{incoming_data}
use sys_slp_client.Socket.Listener.{incoming_connection, handle_connect_response}
use sys_slp_client.Manager.State.{
  ProxySocketManager, PendingPacket, Entry, max_pending_packets, pending_payload_max,
}

-- `x.x.x.255` or `x.x.255.255`.
unfoldable pub is_broadcast_ip : ℕ → Bool
is_broadcast_ip dest_ip = dest_ip % 256 == 255 || dest_ip % 65536 == 65535

-- The guards in the body of `FindAllSocketsByDestination`'s loop.
unfoldable pub is_destination : ℕ → ℕ → ProtocolType → ProxySocket → Bool
unfolding is_broadcast_ip
is_destination dest_ip dest_port protocol s =
    if not (same_protocol s.protocol protocol)
    then false
    else if not (get_port s.local_addr == dest_port)
    then false
    else if (addr s.local_addr).numeric == 0
    then true
    else if (addr s.local_addr).numeric == dest_ip
    then true
    else is_broadcast_ip dest_ip

-- The guards in the body of `FindSocketByDestination`'s loop.
unfoldable pub is_first_destination : ℕ → ℕ → ProtocolType → ProxySocket → Bool
unfolding is_broadcast_ip
is_first_destination dest_ip dest_port protocol s =
    if not (same_protocol s.protocol protocol)
    then false
    else if not (get_port s.local_addr == dest_port)
    then false
    else if (addr s.local_addr).numeric == 0
    then true
    else if (addr s.local_addr).numeric == dest_ip
    then true
    else is_broadcast_ip dest_ip

-- A loop over the sockets that stops at the first that passes its guards; `pos` is the place.
unfoldable pub first_from : (ProxySocket → Bool) → ℕ → List Entry → Option (ℕ × ProxySocket)
first_from test pos [] = none
first_from test pos ((_, s) ∷ rest) =
    let later = first_from test (pos + 1) rest in if test s then some (pos, s) else later

unfoldable pub find_socket_by_destination :
    ProxySocketManager → ℕ → ℕ → ProtocolType → Option (ℕ × ProxySocket)
unfolding first_from is_first_destination
find_socket_by_destination m dest_ip dest_port protocol =
    first_from (is_first_destination dest_ip dest_port protocol) 0 m.sockets

-- The loop of `FindAllSocketsByDestination`, with `room` places left in the caller's array.
unfoldable pub find_all_from : (ProxySocket → Bool) → ℕ → ℕ → List Entry → List ℕ
find_all_from test room pos [] = []
find_all_from test zero pos (_ ∷ rest) = []
find_all_from test (suc room) pos ((_, s) ∷ rest) =
    let taken = find_all_from test room (pos + 1) rest in
    let skipped = find_all_from test (suc room) (pos + 1) rest in
    if test s then pos ∷ taken else skipped

unfoldable pub find_all_sockets_by_destination :
    ProxySocketManager → ℕ → ℕ → ProtocolType → ℕ → List ℕ
unfolding find_all_from is_destination
find_all_sockets_by_destination m dest_ip dest_port protocol max_sockets =
    find_all_from (is_destination dest_ip dest_port protocol) max_sockets 0 m.sockets

-- The slot after the write; an empty or absent payload leaves the old bytes.
unfoldable pub fill_pending :
    Route → ProtocolType → Option (List ℕ) → ℕ → PendingPacket → PendingPacket
unfolding copy_into
fill_pending route protocol payload copy_len slot = record {
  source_ip = route.source_ip;
  source_port = route.source_port;
  dest_ip = route.dest_ip;
  dest_port = route.dest_port;
  len = u16 copy_len;
  protocol = protocol;
  payload = elim payload [
    | none ↦ slot.payload
    | some src ↦ if ltb 0 copy_len then copy_into slot.payload src copy_len else slot.payload
  ];
}

-- The sender that the game sees.
unfoldable pub from_addr : NetMap → ℕ → ℕ → SockAddrIn
from_addr g source_ip source_port =
    let vis = if is_lan_mode_port source_port then virtual_to_game g source_ip else source_ip in
    set_addr (record inet_addr { sin_port = bswap16 source_port }) (from_numeric vis)

abbrev pub deliver_entry : (ProxySocket → ProxySocket) → Entry → Entry
deliver_entry f e = (e.0, f e.1)

-- The loop over the found sockets.
abbrev pub deliver_to : (ProxySocket → ProxySocket) → List ℕ → List Entry → List Entry
deliver_to f [] es = es
deliver_to f (pos ∷ rest) es = deliver_to f rest (modify es pos (deliver_entry f))

-- What `RouteIncomingData` does with the sockets that it found.
unfoldable pub dispatch :
    NetMap
    → ProxySocketManager
    → Route
    → ProtocolType
    → Option (List ℕ)
    → ℕ
    → List ℕ
    → Bool × ProxySocketManager
unfolding push_drop_oldest fill_pending from_addr
dispatch g m route protocol payload len [] = (
  false,
  record m {
    pending =
        push_drop_oldest max_pending_packets
          (fill_pending route protocol payload (min len pending_payload_max)) m.pending;
  },
)
dispatch g m route protocol payload len (pos ∷ rest) = (
  true,
  record m {
    sockets =
        deliver_to
          (λ s. incoming_data s payload len (from_addr g route.source_ip route.source_port))
          (pos ∷ rest) m.sockets;
  },
)

-- `kMaxSockets`.
abbrev pub k_max_sockets : ℕ
k_max_sockets = 8

-- `is_known_peer` is `LdnControl::IsKnownSessionPeerPublic`.
unfoldable pub route_incoming_data :
    (ℕ → Bool)
    → NetMap
    → ProxySocketManager
    → Route
    → ProtocolType
    → Option (List ℕ)
    → ℕ
    → Bool × ProxySocketManager
unfolding find_all_sockets_by_destination dispatch
route_incoming_data is_known_peer g m route protocol payload len =
    if not (is_lan_mode_port route.dest_port) && not (is_known_peer route.source_ip)
    then (false, m)
    else dispatch g m route protocol payload len
        (find_all_sockets_by_destination m route.dest_ip route.dest_port protocol k_max_sockets)

-- The socket at a place, after a method call.
abbrev put_at : ℕ → ProxySocket → ProxySocketManager → ProxySocketManager
put_at pos s m = record m { sockets = modify m.sockets pos (λ e. (e.0, s)) }

unfoldable pub awaits_response : ProxyConnectInfo → ProxySocket → Bool
awaits_response response s =
    if not (is_connecting s.state)
    then false
    else get_addr s.local_addr == response.source_ipv4
      && get_port s.local_addr == response.source_port

-- What `RouteConnectResponse` does with the socket that it found.
unfoldable pub respond_to :
    ProxySocketManager → ProxyConnectInfo → Option (ℕ × ProxySocket) → Bool × ProxySocketManager
respond_to m response none = (false, m)
respond_to m response (some (pos, s)) = (true, put_at pos (handle_connect_response s response) m)

unfoldable pub route_connect_response :
    ProxySocketManager → ProxyConnectInfo → Bool × ProxySocketManager
unfolding first_from awaits_response respond_to
route_connect_response m response =
    respond_to m response (first_from (awaits_response response) 0 m.sockets)

unfoldable pub accepts_request : ProxyConnectInfo → ProxySocket → Bool
accepts_request request s =
    if not (is_listening s.state)
    then false
    else if not (is_tcp s.protocol)
    then false
    else if not (get_port s.local_addr == request.dest_port)
    then false
    else get_addr s.local_addr == 0 || get_addr s.local_addr == request.dest_ipv4

-- What `RouteConnectRequest` does with the socket that it found, and the calls that it makes.
unfoldable pub request_to :
    ProxySocketManager
    → ProxyConnectInfo
    → Option (ℕ × ProxySocket)
    → Bool × ProxySocketManager × List Outgoing
request_to m request none = (false, m, [])
request_to m request (some (pos, s)) =
    let out = incoming_connection s request in (true, put_at pos out.0 m, out.1)

unfoldable pub route_connect_request :
    ProxySocketManager → ProxyConnectInfo → Bool × ProxySocketManager × List Outgoing
unfolding first_from accepts_request request_to
route_connect_request m request =
    request_to m request (first_from (accepts_request request) 0 m.sockets)
