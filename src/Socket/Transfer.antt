-- ===== src/Socket/Transfer.antt =====
-- proxy_socket.cpp: Send and SendTo. `answer` is what `ProxySocketManager::SendProxyData` returns;
-- the last component holds the calls that the method made on the manager.
use sys_slp_client.Base.{
  ℕ, Bool, true, false, ◌&&◌, ◌||◌, Option, none, some, List, [], ◌∷◌, ltb, if◌then◌else◌, take,
}
use sys_slp_client.Net.BsdTypes.{
  bad_f, fault, inval, dest_addr_req, msg_size, net_unreach, not_conn, SockAddrIn, get_addr,
  get_port, addr,
}
use sys_slp_client.Net.LanAddrMap.{NetMap, is_lan_mode_port, game_to_virtual}
use sys_slp_client.Socket.State.{
  ProxySocket, Route, Outgoing, proxy_data, Count, bytes, failed, is_created, is_connected,
  is_closed, proxy_socket_max_payload,
}

-- The bytes that a pointer and a length stand for.
abbrev pub payload_of : Option (List ℕ) → ℕ → List ℕ
payload_of none len = []
payload_of (some src) len = take len src

abbrev pub is_null {ℓ} : {A : Type ℓ} → Option A → Bool
is_null none = true
is_null (some _) = false

-- The addresses on the wire: the socket's own, and the destination, mapped for LAN-mode ports.
unfoldable pub send_route : NetMap → ProxySocket → SockAddrIn → Route
send_route m s dest =
    let source_port = get_port s.local_addr in
    let dest_port = get_port dest in
    let dest_ip = get_addr dest in
    record {
      source_ip = (addr s.local_addr).numeric;
      source_port = source_port;
      dest_ip =
          if is_lan_mode_port source_port || is_lan_mode_port dest_port
          then game_to_virtual m dest_ip
          else dest_ip;
      dest_port = dest_port;
    }

unfoldable pub send_to :
    NetMap
    → (Outgoing → Bool)
    → ProxySocket
    → Option (List ℕ)
    → ℕ
    → SockAddrIn
    → Count × List Outgoing
unfolding send_route
send_to m answer s src len dest =
    let out = proxy_data (send_route m s dest) s.protocol (payload_of src len) in
    if s.shutdown_write
    then (failed inval, [])
    else if is_closed s.state
    then (failed bad_f, [])
    else if is_created s.state
    then (failed dest_addr_req, [])
    else if is_null src && ltb 0 len
    then (failed fault, [])
    else if ltb proxy_socket_max_payload len
    then (failed msg_size, [])
    else if answer out
    then (bytes len, out ∷ [])
    else (failed net_unreach, out ∷ [])

unfoldable pub send :
    NetMap → (Outgoing → Bool) → ProxySocket → Option (List ℕ) → ℕ → Count × List Outgoing
unfolding send_to
send m answer s src len =
    if is_connected s.state then send_to m answer s src len s.remote_addr else (failed not_conn, [])
