-- ===== src/Socket/Lifecycle.antt =====
-- What a socket may do in which state.
use sys_slp_client.Base.{
  ℕ, ◌≤◌, ◌≡◌, refl, Bool, true, false, Option, some, List, [], ◌∷◌, take, if◌then◌else◌,
  le→ltb_false, if_same,
}
use sys_slp_client.Net.BsdTypes.{
  bad_f, inval, not_conn, net_unreach, SockAddrIn, af_inet, get_addr, get_port, addr, is_stream,
}
use sys_slp_client.Net.IpAddr.{from_network}
use sys_slp_client.Net.LanAddrMap.{NetMap, game_to_virtual, set_real_address, translation_enabled}
use sys_slp_client.Net.Encodings.{translation_off}
use sys_slp_client.Socket.State.{
  ProxySocket, Outgoing, proxy_data, success, throws, bytes, failed, bound, listening, is_created,
  proxy_socket_max_payload,
}
use sys_slp_client.Socket.Receive.{eof, error, recv_from, recv}
use sys_slp_client.Socket.Transfer.{send_to, send}
use sys_slp_client.Socket.Address.{name, name_error, bind, connect, get_sock_name, get_peer_name}
use sys_slp_client.Socket.Listener.{listen}
use sys_slp_client.Socket.Teardown.{close}

abbrev pub closed_socket : ProxySocket → ProxySocket
closed_socket s = (close s).0

-- After Close nothing goes through the socket any more, whatever its state was before: reads are at end of file,
-- sends and address calls fail with the errors given, and no call reaches the manager.
pub close_is_final :
    (s : ProxySocket) (m : NetMap) (answer : Outgoing → Bool)
    (wait : ProxySocket → Bool × ProxySocket) (src : Option (List ℕ)) (len flags : ℕ)
    (a : SockAddrIn)
    → let c = closed_socket s in
      (send_to m answer c src len a ≡ (failed inval, []))
      × (send m answer c src len ≡ (failed not_conn, []))
      × ((recv_from wait c true len flags).0 ≡ eof)
      × ((recv wait c true len flags).0 ≡ error not_conn)
      × (bind c a ≡ (throws inval, c))
      × (connect answer wait c a ≡ (throws bad_f, c, []))
      × (get_peer_name c true ≡ name_error not_conn)
unfolding close send_to send recv_from recv bind connect get_peer_name
close_is_final s m answer wait src len flags a = (refl, refl, refl, refl, refl, refl, refl)

-- Listen succeeds on a stream socket in every state but Created, which includes a socket that was closed before.
pub listen_closed :
    (s : ProxySocket)
    → is_stream s.type ≡ true
    → listen (closed_socket s) ≡ (success, record (closed_socket s) { state = listening })
unfolding close listen
listen_closed s h = simp h

bind_lem :
    (s : ProxySocket) (a : SockAddrIn)
    → is_created s.state ≡ true
    → a.sin_family ≡ af_inet
    → bind s a ≡ (success, record s { local_addr = a; state = bound })
unfolding bind
bind_lem s a h e = simp (h, e)

bind_twice :
    (s : ProxySocket) (a : SockAddrIn) → is_created s.state ≡ false → bind s a ≡ (throws inval, s)
unfolding bind
bind_twice s a h = simp h

-- A socket bound once keeps its address.
pub bind_once :
    (s : ProxySocket) (a b : SockAddrIn)
    → is_created s.state ≡ true
    → a.sin_family ≡ af_inet
    → let s' = (bind s a).1 in
      ((bind s a).0 ≡ success) × (get_sock_name s' true ≡ name a) × (bind s' b ≡ (throws inval, s'))
unfolding get_sock_name
bind_once s a b h e =
    rw (bind_lem s a h e)
      (refl, refl, bind_twice (record s { local_addr = a; state = bound }) b refl)

-- A datagram sent from a bound socket goes to the manager under the bound address and port, to the given destination, with exactly
-- the caller's bytes; with translation off no address is changed.
pub bind-send_to :
    (s : ProxySocket) (m : NetMap) (real mask : ℕ) (answer : Outgoing → Bool) (a dest : SockAddrIn)
    (src : List ℕ) (len : ℕ)
    → is_created s.state ≡ true
    → a.sin_family ≡ af_inet
    → s.shutdown_write ≡ false
    → len ≤ proxy_socket_max_payload
    → let out =
        proxy_data
          (record {
            source_ip = get_addr a;
            source_port = get_port a;
            dest_ip = get_addr dest;
            dest_port = get_port dest;
          })
          s.protocol
          (take len src) in
      send_to
        (set_real_address translation_enabled m real mask)
        answer
        (bind s a).1
        (some src)
        len
        dest
      ≡ (if answer out then (bytes len, out ∷ []) else (failed net_unreach, out ∷ []))
unfolding send_to addr from_network get_addr
bind-send_to s m real mask answer a dest src len h e w k =
    rw (bind_lem s a h e) (simp (w, le→ltb_false proxy_socket_max_payload len k, unmapped, if_same))
  where
    unmapped :
        game_to_virtual (set_real_address translation_enabled m real mask) (get_addr dest)
        ≡ get_addr dest
    unmapped = (translation_off m real mask (get_addr dest)).1
