-- ===== src/Service/Binding.antt =====
-- What a Bind leaves that a proxy socket answers.
use sys_slp_client.Base.{
  ℕ, ◌≤◌, ◌<◌, ◌≡◌, ◌≢◌, inl, inr, refl, sym, ap, ◌∙◌, subst, Bool, true, false, not, ◌&&◌, ◌==◌,
  leb, Option, none, some, length, bswap16, if_cases, if_no, if_both, Option-cases, eq→==, ==→eq,
  ==_false→ne, leb→le, leb_false→lt, arith,
}
use sys_slp_client.Net.IpAddr.{octet, is_any}
use sys_slp_client.Net.BsdTypes.{
  SocketType, ProtocolType, inval, SockAddrIn, af_inet, addr, get_port, is_lan_sock_addr,
}
use sys_slp_client.Net.Encodings.{is_lan_sock_addr_iff}
use sys_slp_client.Ports.{EphemeralPortPool, allocate_port, allocate_specific_port}
use sys_slp_client.Socket.State.{ProxySocket, bound, is_created, new_socket}
use sys_slp_client.Socket.Address.{bind}
use sys_slp_client.Manager.State.{ProxySocketManager, max_proxy_sockets}
use sys_slp_client.Manager.Sockets.{
  find_fd, insert_at, create_proxy_socket, create_if_absent, get_proxy_socket,
  get_active_socket_count, take_port, reserve_port,
}
use sys_slp_client.Manager.Lookup.{find_fd-insert_at}
use sys_slp_client.Service.Bind.{
  SocketInfo, BsdMitmService, BindAnswers, BindReply, answered, addr_in_use, no_mem, bind_failed,
  find_info, with_socket, bind_addr, choose_port, finish_bind, bind_chosen, bind_with_port,
  with_broadcast, bind_created,
}
use sys_slp_client.Service.Giving.{find_fd-put_socket, find_info-mark_proxy, delivered-IsDelivered}

-- The address that the socket gets, and the ports afterwards: its own port if that could be reserved, or a drawn one for port 0.
pub data Chooses (pool : EphemeralPortPool) (a : SockAddrIn) (protocol : ProtocolType)
    : SockAddrIn → EphemeralPortPool → Type 0 where
  own_port :
      get_port a ≢ 0
      → (allocate_specific_port pool (get_port a) protocol).0 ≡ true
      → Chooses pool a protocol a (allocate_specific_port pool (get_port a) protocol).1
  drawn_port :
      get_port a ≡ 0
      → (allocate_port pool protocol).0 ≢ 0
      → Chooses pool a protocol
          (record a { sin_port = bswap16 (allocate_port pool protocol).0 })
          (allocate_port pool protocol).1

-- No port is left to draw, or the socket's own is in use.
pub data Refuses (pool : EphemeralPortPool) (a : SockAddrIn) (protocol : ProtocolType)
    : Type 0 where
  none_to_draw : get_port a ≡ 0 → (allocate_port pool protocol).0 ≡ 0 → Refuses pool a protocol
  own_in_use :
      get_port a ≢ 0
      → (allocate_specific_port pool (get_port a) protocol).0 ≡ false
      → Refuses pool a protocol

-- The socket that CreateProxySocket gives: a new one, which finds room, or the one of the descriptor.
pub data Origin (m : ProxySocketManager) (fd : ℕ) (socket : ProxySocket) : Type 0 where
  made_now :
      get_proxy_socket m fd ≡ none
      → get_active_socket_count m < max_proxy_sockets
      → is_created socket.state ≡ true
      → Origin m fd socket
  made_before : get_proxy_socket m fd ≡ some socket → Origin m fd socket

-- How the proxy socket answers a Bind, and what it leaves.
pub data Serves (fd : ℕ) (a : SockAddrIn) (info : SocketInfo) (s : BsdMitmService)
    : BindReply × BsdMitmService → Type 0 where
  no_room :
      get_proxy_socket s.manager fd ≡ none
      → max_proxy_sockets ≤ get_active_socket_count s.manager
      → Serves fd a info s (no_mem, s)
  no_port :
      (s' : BsdMitmService) (socket : ProxySocket)
      → Origin s.manager fd socket
      → Refuses s.manager.port_pool a info.protocol
      → s'.socket_info ≡ s.socket_info
      → get_proxy_socket s'.manager fd ≡ some (with_broadcast info socket)
      → Serves fd a info s (addr_in_use, s')
  not_fresh :
      (s' : BsdMitmService) (old : ProxySocket) (a' : SockAddrIn)
      → get_proxy_socket s.manager fd ≡ some old
      → is_created old.state ≡ false
      → Chooses s.manager.port_pool a info.protocol a' s'.manager.port_pool
      → s'.socket_info ≡ s.socket_info
      → get_proxy_socket s'.manager fd ≡ some (with_broadcast info old)
      → Serves fd a info s (bind_failed inval, s')
  bound_to :
      (s' : BsdMitmService) (before socket : ProxySocket)
      → Origin s.manager fd before
      → is_created before.state ≡ true
      → get_proxy_socket s'.manager fd ≡ some socket
      → socket.state ≡ bound
      → Chooses s.manager.port_pool a info.protocol socket.local_addr s'.manager.port_pool
      → find_info fd s'.socket_info ≡ some (record info { is_proxy = true })
      → Serves fd a info s (answered, s')

-- What CreateProxySocket gives Bind.
pub data Given (m : ProxySocketManager) (fd : ℕ)
    : Option ProxySocket × ProxySocketManager → Type 0 where
  refused :
      get_proxy_socket m fd ≡ none
      → max_proxy_sockets ≤ get_active_socket_count m
      → Given m fd (none, m)
  given :
      (socket : ProxySocket) (m' : ProxySocketManager)
      → Origin m fd socket
      → find_fd m'.sockets fd ≡ some socket
      → m'.port_pool ≡ m.port_pool
      → Given m fd (some socket, m')

pub create_proxy_socket-Given :
    (m : ProxySocketManager) (place fd : ℕ) (type : SocketType) (protocol : ProtocolType)
    → Given m fd (create_proxy_socket m place fd type protocol)
unfolding create_proxy_socket create_if_absent get_proxy_socket get_active_socket_count new_socket
create_proxy_socket-Given m place fd type protocol = elim (Option-cases (find_fd m.sockets fd)) [
  | inr (s, e) ↦ rw e (given s m (made_before e) e refl)
  | inl e ↦ rw e (
      if_cases (Given m fd) (leb max_proxy_sockets (length m.sockets)) _ _
        (λ full. refused e (leb→le max_proxy_sockets (length m.sockets) full))
        (λ room.
          given (new_socket type protocol)
            (record m { sockets = insert_at place (fd, new_socket type protocol) m.sockets })
            (made_now e (leb_false→lt max_proxy_sockets (length m.sockets) room) refl)
            (find_fd-insert_at place fd (new_socket type protocol) m.sockets e) refl))
]

bind_addr_lem :
    (m : ProxySocketManager) (a : SockAddrIn) → a.sin_addr < 4294967296 → bind_addr m a ≡ a
unfolding bind_addr is_any octet
bind_addr_lem m a low =
    if_no (λ x. x ≡ a) (is_any (addr a) && is_lan_sock_addr a) _ _
      (not_both (is_lan_sock_addr a) (is_lan_sock_addr_iff a low).0) refl
  where
    not_both :
        (lan : Bool)
        → (lan ≡ true → (octet (addr a) 0 ≡ 10) × (octet (addr a) 1 ≡ 13))
        → (is_any (addr a) && lan) ≡ false
    not_both true h = ground (arith, h refl)
    not_both false h = ground arith

-- What the choice of a port gives Bind; the sockets stay.
data Chosen (m : ProxySocketManager) (a : SockAddrIn) (protocol : ProtocolType)
    : Option SockAddrIn × ProxySocketManager → Type 0 where
  no_choice :
      (m' : ProxySocketManager)
      → Refuses m.port_pool a protocol
      → m'.sockets ≡ m.sockets
      → Chosen m a protocol (none, m')
  choice :
      (a' : SockAddrIn) (m' : ProxySocketManager)
      → Chooses m.port_pool a protocol a' m'.port_pool
      → a'.sin_family ≡ a.sin_family
      → m'.sockets ≡ m.sockets
      → Chosen m a protocol (some a', m')

choose_port-Chosen :
    (m : ProxySocketManager) (a : SockAddrIn) (protocol : ProtocolType)
    → Chosen m a protocol (choose_port m a protocol)
unfolding choose_port take_port reserve_port
choose_port-Chosen m a protocol =
    if_cases (Chosen m a protocol) (get_port a == 0) _ _
      (λ zero_port.
        let any = ==→eq (get_port a) 0 zero_port in
        if_cases (Chosen m a protocol) (drawn == 0) _ _
          (λ none_left. no_choice _ (none_to_draw any (==→eq drawn 0 none_left)) refl)
          (λ one. choice _ _ (drawn_port any (==_false→ne drawn 0 one)) refl refl))
      (λ own.
        let some_port = ==_false→ne (get_port a) 0 own in
        if_cases (Chosen m a protocol) (allocate_specific_port m.port_pool (get_port a) protocol).0
          _ _ (λ free. choice _ _ (own_port some_port free) refl refl)
          (λ used. no_choice _ (own_in_use some_port used) refl))
  where
    drawn : ℕ
    drawn = (allocate_port m.port_pool protocol).0

with_broadcast-state :
    (info : SocketInfo) (s : ProxySocket) → (with_broadcast info s).state ≡ s.state
with_broadcast-state info s =
    if_both (λ (x : ProxySocket). x.state ≡ s.state) info.broadcast refl refl

module _ (i : BindAnswers) (fd : ℕ) (a : SockAddrIn) (info : SocketInfo) (s : BsdMitmService)
    (low : a.sin_addr < 4294967296) (family : a.sin_family ≡ af_inet)
    (known : find_info fd s.socket_info ≡ some info) where
  bound-Serves :
      (a' : SockAddrIn) (before socket old : ProxySocket) (m : ProxySocketManager)
      → Origin s.manager fd before
      → is_created before.state ≡ true
      → find_fd m.sockets fd ≡ some old
      → Chooses s.manager.port_pool a info.protocol a' m.port_pool
      → Serves fd a info s (
        answered,
        finish_bind i fd a' info (record socket { local_addr = a'; state = bound }) m s,
      )
  unfolding finish_bind get_proxy_socket
  bound-Serves a' before socket old m origin new e chosen =
      let socket' : ProxySocket = record socket { local_addr = a'; state = bound } in
      let d =
        delivered-IsDelivered _ fd (get_port a') info.protocol socket' socket'
          (with_socket fd socket' m) (find_fd-put_socket fd socket' m.sockets old e) in
      bound_to _ before d.socket' origin new d.found d.kept.0
        (subst (λ p. Chooses s.manager.port_pool a info.protocol d.socket'.local_addr p)
          (sym d.ports)
          (subst (λ x. Chooses s.manager.port_pool a info.protocol x m.port_pool) (sym d.kept.1)
            chosen))
        (find_info-mark_proxy fd info s.socket_info known)

  -- The socket that Bind works on: new, or the one of the descriptor.
  bind_chosen-Serves :
      (a' : SockAddrIn) (socket : ProxySocket) (m : ProxySocketManager)
      → Origin s.manager fd socket
      → find_fd m.sockets fd ≡ some (with_broadcast info socket)
      → Chooses s.manager.port_pool a info.protocol a' m.port_pool
      → a'.sin_family ≡ a.sin_family
      → Serves fd a info s (bind_chosen i fd a' info m s (bind (with_broadcast info socket) a'))
  unfolding bind bind_chosen get_proxy_socket
  bind_chosen-Serves a' socket m origin e chosen same =
      let socket' = with_broadcast info socket in
      if_cases (λ x. Serves fd a info s (bind_chosen i fd a' info m s x))
        (not (is_created socket'.state)) _ _ (λ used. stale used origin)
        (λ fresh.
          if_no (λ x. Serves fd a info s (bind_chosen i fd a' info m s x))
            (not (a'.sin_family == af_inet)) _ _
            (ap not (eq→== a'.sin_family af_inet (same ∙ family)))
            (bound-Serves a' socket socket' socket' m origin (negated _ false (same_state fresh)) e
              chosen))
    where
      negated : (b c : Bool) → not b ≡ c → b ≡ not c
      negated true c h = ap not h
      negated false c h = ap not h

      same_state :
          {b : Bool}
          → not (is_created (with_broadcast info socket).state) ≡ b
          → not (is_created socket.state) ≡ b
      same_state h = sym (ap (λ x. not (is_created x)) (with_broadcast-state info socket)) ∙ h

      stale :
          not (is_created (with_broadcast info socket).state) ≡ true
          → Origin s.manager fd socket
          → Serves fd a info s (bind_failed inval, record s { manager = m })
      stale used (made_now absent room new) =
          absurd (cc (sym new ∙ negated _ true (same_state used)))
      stale used (made_before old) =
          not_fresh _ socket a' old (negated _ true (same_state used)) chosen refl e

  bind_with_port-Serves :
      (socket : ProxySocket) (m : ProxySocketManager) (x : Option SockAddrIn × ProxySocketManager)
      → Origin s.manager fd socket
      → find_fd m.sockets fd ≡ some (with_broadcast info socket)
      → m.port_pool ≡ s.manager.port_pool
      → Chosen m a info.protocol x
      → Serves fd a info s (bind_with_port i fd info (with_broadcast info socket) s x)
  unfolding bind_with_port get_proxy_socket
  bind_with_port-Serves socket m _ origin e ports (no_choice m' refuses same) =
      no_port _ socket origin (subst (λ p. Refuses p a info.protocol) ports refuses) refl
        (ap (λ es. find_fd es fd) same ∙ e)
  bind_with_port-Serves socket m _ origin e ports (choice a' m' chosen family' same) =
      bind_chosen-Serves a' socket m' origin (ap (λ es. find_fd es fd) same ∙ e)
        (subst (λ p. Chooses p a info.protocol a' m'.port_pool) ports chosen) family'

  pub bind_created-Serves :
      (x : Option ProxySocket × ProxySocketManager)
      → Given s.manager fd x
      → Serves fd a info s (bind_created i fd a info s x)
  unfolding bind_created
  bind_created-Serves _ (refused e full) = no_room e full
  bind_created-Serves _ (given socket m origin e ports) =
      let socket' = with_broadcast info socket in
      let m' = with_socket fd socket' m in
      subst
        (λ b.
          Serves fd a info s (bind_with_port i fd info socket' s (choose_port m' b info.protocol)))
        (sym (bind_addr_lem m' a low))
        (bind_with_port-Serves socket m' (choose_port m' a info.protocol) origin
          (find_fd-put_socket fd socket' m.sockets socket e) ports
          (choose_port-Chosen m' a info.protocol))
