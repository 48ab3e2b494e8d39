-- ===== src/Socket/Handshake.antt =====
-- The TCP side: what a connect waits for, and how requests reach accept.
use sys_slp_client.Base.{
  ◌<◌, ◌≡◌, refl, Bool, true, false, ◌==◌, if◌then◌else◌, some, List, [], ◌∷◌, ◌++◌, drop,
  Bool-cases, inl, inr, bswap16-bswap16, bswap32-bswap32,
}
use sys_slp_client.Net.IpAddr.{from_numeric, network}
use sys_slp_client.Net.BsdTypes.{
  SockAddrIn, af_inet, get_addr, get_port, set_addr, is_stream, protocol_value, conn_refused,
}
use sys_slp_client.Socket.State.{
  ProxySocket, ProxyConnectInfo, AcceptedSocket, Outgoing, proxy_connect, proxy_connect_reply,
  success, throws, is_closed, is_listening, bound, connected,
}
use sys_slp_client.Socket.Address.{
  name, connect, connect_route, finish_connect, get_sock_name, get_peer_name,
}
use sys_slp_client.Socket.Listener.{
  accept, take_accepted, to_socket, incoming_connection, accepted_for, reply_route,
  handle_connect_response, is_empty,
}

-- A TCP connect on an open blocking socket, to an IPv4 address, that the session takes, and that is answered while it waits:
-- it succeeds exactly if the answer's protocol is 0, and then the peer is the address; otherwise it is refused, and the socket
-- is bound again.
pub connect-handle_connect_response :
    (answer : Outgoing → Bool) (s : ProxySocket) (a : SockAddrIn) (response : ProxyConnectInfo)
    → is_closed s.state ≡ false
    → a.sin_family ≡ af_inet
    → is_stream s.type ≡ true
    → s.non_blocking ≡ false
    → answer (proxy_connect (connect_route s a) s.protocol) ≡ true
    → let out = connect answer (λ w. (true, handle_connect_response w response)) s a in
      let accepted = protocol_value response.protocol == 0 in
      (out.0 ≡ (if accepted then success else throws conn_refused))
      × (out.1.state ≡ (if accepted then connected else bound))
      × (out.1.remote_addr ≡ a)
      × (out.1.local_addr ≡ s.local_addr)
      × (out.2 ≡ proxy_connect (connect_route s a) s.protocol ∷ [])
unfolding connect handle_connect_response finish_connect
connect-handle_connect_response answer s a response alive family tcp_like blocking sent =
    elim (Bool-cases (protocol_value response.protocol == 0)) [
      | inl yes_ ↦
          simp (alive, family, tcp_like, blocking, sent, yes_) (refl, refl, refl, refl, refl)
      | inr no_ ↦ simp (alive, family, tcp_like, blocking, sent, no_) (refl, refl, refl, refl, refl)
    ]

-- The first of a list, or a last resort.
abbrev pub first_or {ℓ} : {A : Type ℓ} → A → List A → A
first_or a [] = a
first_or a (x ∷ _) = x

take_accepted_lem :
    (s : ProxySocket) (q : List AcceptedSocket) (x : AcceptedSocket)
    → let out = take_accepted s (q ++ x ∷ []) in
      (out.0 ≡ some (first_or x q)) × (out.1.accept_queue ≡ drop 1 (q ++ x ∷ []))
unfolding take_accepted
take_accepted_lem s [] x = (refl, refl)
take_accepted_lem s (a ∷ []) x = (refl, refl)
take_accepted_lem s (a ∷ b ∷ q) x = (refl, refl)

is_empty-snoc : (q : List AcceptedSocket) (x : AcceptedSocket) → is_empty (q ++ x ∷ []) ≡ false
is_empty-snoc [] x = refl
is_empty-snoc (a ∷ q) x = refl

-- Requests that reach a listening socket are accepted in the order of their arrival: after one more request accept returns the oldest, which
-- is the new one if none waited, and leaves the rest; the request is answered with the listener's address to its
-- source.
pub accept-incoming_connection :
    (wait : ProxySocket → ProxySocket) (s : ProxySocket) (request : ProxyConnectInfo)
    → is_listening s.state ≡ true
    → let arrived = incoming_connection s request in
      let out = accept wait arrived.0 in
      (out.0 ≡ some (first_or (accepted_for s request) s.accept_queue))
      × (out.1.accept_queue ≡ drop 1 (s.accept_queue ++ accepted_for s request ∷ []))
      × (arrived.1 ≡ proxy_connect_reply (reply_route s request) ∷ [])
unfolding accept incoming_connection
accept-incoming_connection wait s request h =
    let x = accepted_for s request in
    let now = record s { accept_queue = s.accept_queue ++ x ∷ []; accept_event = true } in
    let r = take_accepted_lem now s.accept_queue x in
    simp (h, is_empty-snoc s.accept_queue x) (r.0, r.1, refl)

-- The socket of an accepted request: connected to the source of the request, under the listener's own address.
pub to_socket-accepted_for :
    (s : ProxySocket) (request : ProxyConnectInfo)
    → request.source_ipv4 < 4294967296
    → request.source_port < 65536
    → let c = to_socket (accepted_for s request) in
      (get_peer_name c true ≡ name (accepted_for s request).remote_addr)
      × (get_addr c.remote_addr ≡ request.source_ipv4)
      × (get_port c.remote_addr ≡ request.source_port)
      × (get_sock_name c true ≡ name s.local_addr)
unfolding to_socket accepted_for get_peer_name get_sock_name get_addr get_port set_addr network
    from_numeric
to_socket-accepted_for s request h k =
    (refl, bswap32-bswap32 request.source_ipv4 h, bswap16-bswap16 request.source_port k, refl)
