-- ===== src/Socket/Listener.antt =====
-- proxy_socket.cpp: the TCP side, Listen, Accept, IncomingConnection and HandleConnectResponse.
use sys_slp_client.Base.{
  Bool, true, false, not, if◌then◌else◌, Option, none, some, List, [], ◌∷◌, ◌++◌, bswap16,
}
use sys_slp_client.Net.IpAddr.{from_numeric}
use sys_slp_client.Net.BsdTypes.{inval, op_not_supp, set_addr, get_port, addr, is_stream}
use sys_slp_client.Socket.State.{
  ProxySocket, ProxyConnectInfo, AcceptedSocket, Route, Outgoing, proxy_connect_reply, Outcome,
  success, throws, connected, listening, is_created, is_listening, inet_addr, new_socket,
}

unfoldable pub listen : ProxySocket → Outcome × ProxySocket
listen s =
    if not (is_stream s.type)
    then (throws op_not_supp, s)
    else if is_created s.state
    then (throws inval, s)
    else (success, record s { state = listening })

-- The socket that `accept` hands out.
unfoldable pub to_socket : AcceptedSocket → ProxySocket
unfolding new_socket
to_socket a = record (new_socket a.type a.protocol) {
  state = connected;
  local_addr = a.local_addr;
  remote_addr = a.remote_addr;
}

-- The front of the queue, if there is one; the event is cleared with the last.
unfoldable pub take_accepted :
    ProxySocket → List AcceptedSocket → Option AcceptedSocket × ProxySocket
take_accepted s [] = (none, s)
take_accepted s (a ∷ []) = (some a, record s { accept_queue = []; accept_event = false })
take_accepted s (a ∷ b ∷ rest) = (some a, record s { accept_queue = b ∷ rest })

abbrev pub is_empty {ℓ} : {A : Type ℓ} → List A → Bool
is_empty [] = true
is_empty (_ ∷ _) = false

-- `wait` is the bounded wait on the accept event: the socket as other threads left it.
unfoldable pub accept :
    (ProxySocket → ProxySocket) → ProxySocket → Option AcceptedSocket × ProxySocket
unfolding take_accepted
accept wait s =
    let later = wait s in
    if not (is_listening s.state)
    then (none, s)
    else if not (is_empty s.accept_queue)
    then take_accepted s s.accept_queue
    else if s.non_blocking
    then (none, s)
    else take_accepted later later.accept_queue

-- The socket made for a request.
unfoldable pub accepted_for : ProxySocket → ProxyConnectInfo → AcceptedSocket
accepted_for s request = record {
  type = s.type;
  protocol = s.protocol;
  local_addr = s.local_addr;
  remote_addr =
      set_addr (record inet_addr { sin_port = bswap16 request.source_port })
        (from_numeric request.source_ipv4);
}

unfoldable pub reply_route : ProxySocket → ProxyConnectInfo → Route
reply_route s request = record {
  source_ip = (addr s.local_addr).numeric;
  source_port = get_port s.local_addr;
  dest_ip = request.source_ipv4;
  dest_port = request.source_port;
}

unfoldable pub incoming_connection : ProxySocket → ProxyConnectInfo → ProxySocket × List Outgoing
unfolding accepted_for reply_route
incoming_connection s request = if not (is_listening s.state) then (s, []) else (
  record s { accept_queue = s.accept_queue ++ accepted_for s request ∷ []; accept_event = true },
  proxy_connect_reply (reply_route s request) ∷ [],
)

unfoldable pub handle_connect_response : ProxySocket → ProxyConnectInfo → ProxySocket
handle_connect_response s response = record s {
  connect_response = response;
  connect_response_received = true;
  connect_event = true;
}

unfoldable pub has_pending_connections : ProxySocket → Bool
has_pending_connections s = not (is_empty s.accept_queue)
