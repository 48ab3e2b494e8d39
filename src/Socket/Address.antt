-- ===== src/Socket/Address.antt =====
-- proxy_socket.cpp: Bind, Connect, GetSockName and GetPeerName.
use sys_slp_client.Base.{Bool, false, not, ◌||◌, ◌==◌, if◌then◌else◌, List, [], ◌∷◌}
use sys_slp_client.Net.BsdTypes.{
  BsdErrno, bad_f, inval, fault, af_no_support, net_unreach, not_conn, timed_out, conn_refused,
  in_progress, SockAddrIn, af_inet, get_addr, get_port, protocol_value, is_stream,
}
use sys_slp_client.Socket.State.{
  ProxySocket, Route, Outgoing, proxy_connect, Outcome, success, throws, bound, connecting,
  connected, is_created, is_connected, is_closed, inet_addr,
}

unfoldable pub bind : ProxySocket → SockAddrIn → Outcome × ProxySocket
bind s a =
    if not (is_created s.state)
    then (throws inval, s)
    else if not (a.sin_family == af_inet)
    then (throws af_no_support, s)
    else (success, record s { local_addr = a; state = bound })

unfoldable pub connect_route : ProxySocket → SockAddrIn → Route
connect_route s a = record {
  source_ip = get_addr s.local_addr;
  source_port = get_port s.local_addr;
  dest_ip = get_addr a;
  dest_port = get_port a;
}

-- The socket while a TCP connect waits for its reply.
unfoldable pub start_connecting : ProxySocket → SockAddrIn → ProxySocket
start_connecting s a = record s {
  remote_addr = a;
  state = connecting;
  connect_response_received = false;
  connect_event = false;
}

-- After the blocking wait: `signalled` is what `TimedWait` returned, and `s` the socket as other threads left it.
unfoldable pub finish_connect : Bool × ProxySocket → Outcome × ProxySocket
finish_connect (signalled, s) =
    if not signalled || not s.connect_response_received
    then (throws timed_out, record s { state = bound })
    else if not (protocol_value s.connect_response.protocol == 0)
    then (throws conn_refused, record s { state = bound })
    else (success, record s { state = connected })

-- `answer` is what `SendProxyConnect` returns, `wait` the wait on the connect event.
unfoldable pub connect :
    (Outgoing → Bool)
    → (ProxySocket → Bool × ProxySocket)
    → ProxySocket
    → SockAddrIn
    → Outcome × ProxySocket × List Outgoing
unfolding connect_route start_connecting finish_connect
connect answer wait s a =
    let out = proxy_connect (connect_route s a) s.protocol in
    let waiting = start_connecting s a in
    let finished = finish_connect (wait waiting) in
    if is_closed s.state
    then (throws bad_f, s, [])
    else if not (a.sin_family == af_inet)
    then (throws af_no_support, s, [])
    else if not (is_stream s.type)
    then (success, record s { remote_addr = a; state = connected }, [])
    else if not (answer out)
    then (throws net_unreach, record waiting { state = bound }, out ∷ [])
    else if s.non_blocking
    then (throws in_progress, waiting, out ∷ [])
    else (finished.0, finished.1, out ∷ [])

-- What goes through `out_addr`; `has_out` is false for nullptr.
pub data Name : Type 0 where
  name : SockAddrIn → Name
  name_error : BsdErrno → Name

unfoldable pub get_sock_name : ProxySocket → Bool → Name
get_sock_name s has_out =
    if not has_out
    then name_error fault
    else if is_created s.state
    then name inet_addr
    else name s.local_addr

unfoldable pub get_peer_name : ProxySocket → Bool → Name
get_peer_name s has_out =
    if not has_out
    then name_error fault
    else if not (is_connected s.state)
    then name_error not_conn
    else name s.remote_addr
