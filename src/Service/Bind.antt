-- ===== src/Service/Bind.antt =====
-- bsd_mitm_service.cpp: Socket's record of a descriptor, and Bind. The real service's answers, nifm's and those of the control plane
-- are arguments.
use sys_slp_client.Base.{
  ℕ, Bool, true, false, not, ◌&&◌, ◌||◌, ◌==◌, leb, if◌then◌else◌, Option, none, some, List, [],
  ◌∷◌, bswap16,
}
use sys_slp_client.Net.IpAddr.{from_numeric, is_any}
use sys_slp_client.Net.BsdTypes.{
  SocketType, stream, dgram, ProtocolType, tcp, udp, unspecified, BsdErrno, SockAddrIn, af_inet,
  get_port, addr, set_addr, is_lan_sock_addr,
}
use sys_slp_client.Net.LanAddrMap.{NetMap, translation_enabled, has_real_address, set_real_address}
use sys_slp_client.Socket.State.{ProxySocket, Outcome, success, throws}
use sys_slp_client.Socket.Address.{bind}
use sys_slp_client.Manager.State.{Entry, ProxySocketManager}
use sys_slp_client.Manager.Sockets.{create_proxy_socket, get_local_ip, take_port, reserve_port}
use sys_slp_client.Manager.Pending.{deliver_pending_packets}

pub record SocketInfo : Type 0 where
  pub type : SocketType
  pub protocol : ProtocolType
  pub is_proxy : Bool
  pub broadcast : Bool
  pub session_id : ℕ

-- `g_socket_info`, as a list.
abbrev pub find_info : ℕ → List (ℕ × SocketInfo) → Option SocketInfo
find_info fd [] = none
find_info fd ((key, info) ∷ rest) = if key == fd then some info else find_info fd rest

-- `g_socket_info.erase`, and the assignment of an entry.
abbrev pub erase_info : ℕ → List (ℕ × SocketInfo) → List (ℕ × SocketInfo)
erase_info fd [] = []
erase_info fd ((key, info) ∷ rest) =
    if key == fd then erase_info fd rest else (key, info) ∷ erase_info fd rest

abbrev pub set_info : ℕ → SocketInfo → List (ℕ × SocketInfo) → List (ℕ × SocketInfo)
set_info fd info table = (fd, info) ∷ erase_info fd table

-- The tables, the manager and one session's members.
pub record BsdMitmService : Type 0 where
  pub session_id : ℕ
  pub mode : ℕ
  pub entered_local_network_mode : Bool
  pub socket_info : List (ℕ × SocketInfo)
  pub manager : ProxySocketManager
  pub net : NetMap

-- The protocol of a new socket; `protocol` is none for 0.
abbrev pub default_protocol : SocketType → Option ProtocolType → ProtocolType
default_protocol type (some protocol) = protocol
default_protocol stream none = tcp
default_protocol dgram none = udp
default_protocol _ none = unspecified

-- What Socket keeps of the real service's new descriptor, none for a failure.
unfoldable pub track_socket :
    Option ℕ → SocketType → Option ProtocolType → BsdMitmService → BsdMitmService
track_socket none type protocol s = s
track_socket (some fd) type protocol s = record s {
  socket_info =
      set_info fd
        (record {
          type = type;
          protocol = default_protocol type protocol;
          is_proxy = false;
          broadcast = false;
          session_id = s.session_id;
        })
        s.socket_info;
}

unfoldable pub lan_signature_port : ℕ → Bool
lan_signature_port port =
    port == 30000 || port == 35000 || port == 11452 || (leb 49152 port && leb port 49155)

unfoldable pub promote : SockAddrIn → SocketInfo → Bool
unfolding lan_signature_port is_lan_sock_addr is_any
promote a info =
    let any = is_any (addr a) in
    is_lan_sock_addr a || (any && (info.broadcast || (any && lan_signature_port (get_port a))))

-- The errno, or the call is forwarded.
pub data BindReply : Type 0 where
  forwarded : BindReply
  answered : BindReply
  addr_in_use : BindReply
  no_mem : BindReply
  bind_failed : BsdErrno → BindReply

-- The object behind the manager's pointer.
abbrev pub put_socket : ℕ → ProxySocket → List Entry → List Entry
put_socket fd s [] = []
put_socket fd s ((key, old) ∷ rest) =
    if key == fd then (key, s) ∷ rest else (key, old) ∷ put_socket fd s rest

abbrev pub with_socket : ℕ → ProxySocket → ProxySocketManager → ProxySocketManager
with_socket fd s m = record m { sockets = put_socket fd s m.sockets }

-- The address is that of the game unless it is both in the LAN and 0.0.0.0.
unfoldable pub bind_addr : ProxySocketManager → SockAddrIn → SockAddrIn
unfolding is_lan_sock_addr is_any get_local_ip
bind_addr m a =
    if is_any (addr a) && is_lan_sock_addr a
    then (if get_local_ip m == 0 then a else set_addr a (from_numeric (get_local_ip m)))
    else a

-- The address with its port reserved, if it could be.
unfoldable pub choose_port :
    ProxySocketManager → SockAddrIn → ProtocolType → Option SockAddrIn × ProxySocketManager
unfolding take_port reserve_port
choose_port m a protocol =
    let (port, drawn) = take_port m protocol in
    let (free, reserved) = reserve_port m (get_port a) protocol in
    if get_port a == 0
    then (if port == 0 then (none, drawn) else (some (record a { sin_port = bswap16 port }), drawn))
    else if free
    then (some a, reserved)
    else (none, reserved)

abbrev pub mark_proxy : ℕ → List (ℕ × SocketInfo) → List (ℕ × SocketInfo)
mark_proxy fd [] = []
mark_proxy fd ((key, info) ∷ rest) =
    if key == fd
    then (key, record info { is_proxy = true }) ∷ rest
    else (key, info) ∷ mark_proxy fd rest

-- `real` is the console's address and mask, if nifm knows them; `entered` tells whether local network mode could be entered.
pub record BindAnswers : Type 0 where
  pub place : ℕ
  pub real : Option (ℕ × ℕ)
  pub entered : Bool

abbrev pub learn_address : Option (ℕ × ℕ) → NetMap → NetMap
learn_address none g = g
learn_address (some (address, mask)) g =
    if translation_enabled && not (has_real_address g)
    then set_real_address translation_enabled g address mask
    else g

abbrev pub next_mode : ℕ → ℕ → ℕ
next_mode mode port =
    if not (mode == 0) then mode else if port == 12345 then 1 else if port == 30000 then 2 else 0

abbrev pub delivered : ℕ → Option ProxySocket × ProxySocketManager → ProxySocketManager
delivered fd (none, m) = m
delivered fd (some s, m) = with_socket fd s m

-- Once the proxy socket is bound.
unfoldable pub finish_bind :
    BindAnswers
    → ℕ
    → SockAddrIn
    → SocketInfo
    → ProxySocket
    → ProxySocketManager
    → BsdMitmService
    → BsdMitmService
unfolding deliver_pending_packets
finish_bind i fd a info socket m s =
    let port = get_port a in
    let net = if port == 30000 then learn_address i.real s.net else s.net in
    let manager = with_socket fd socket m in
    record s {
      socket_info = mark_proxy fd s.socket_info;
      mode = next_mode s.mode port;
      net = net;
      entered_local_network_mode =
          if port == 30000 && not s.entered_local_network_mode
          then i.entered
          else s.entered_local_network_mode;
      manager = delivered fd (deliver_pending_packets net manager (some socket) port info.protocol);
    }

-- The outcome of the proxy socket's own Bind.
unfoldable pub bind_chosen :
    BindAnswers
    → ℕ
    → SockAddrIn
    → SocketInfo
    → ProxySocketManager
    → BsdMitmService
    → Outcome × ProxySocket
    → BindReply × BsdMitmService
unfolding finish_bind
bind_chosen i fd a info m s (throws e, socket) = (bind_failed e, record s { manager = m })
bind_chosen i fd a info m s (success, socket) = (answered, finish_bind i fd a info socket m s)

unfoldable pub bind_with_port :
    BindAnswers
    → ℕ
    → SocketInfo
    → ProxySocket
    → BsdMitmService
    → Option SockAddrIn × ProxySocketManager
    → BindReply × BsdMitmService
unfolding bind_chosen
bind_with_port i fd info socket s (none, m) = (addr_in_use, record s { manager = m })
bind_with_port i fd info socket s (some a, m) = bind_chosen i fd a info m s (bind socket a)

abbrev pub with_broadcast : SocketInfo → ProxySocket → ProxySocket
with_broadcast info socket = if info.broadcast then record socket { broadcast = true } else socket

unfoldable pub bind_created :
    BindAnswers
    → ℕ
    → SockAddrIn
    → SocketInfo
    → BsdMitmService
    → Option ProxySocket × ProxySocketManager
    → BindReply × BsdMitmService
unfolding bind_with_port choose_port bind_addr
bind_created i fd a info s (none, m) = (no_mem, record s { manager = m })
bind_created i fd a info s (some socket, m) =
    let socket' = with_broadcast info socket in
    let m' = with_socket fd socket' m in
    bind_with_port i fd info socket' s (choose_port m' (bind_addr m' a) info.protocol)

-- Bind once the address is an IPv4 one.
unfoldable pub bind_tracked :
    BindAnswers → ℕ → SockAddrIn → Option SocketInfo → BsdMitmService → BindReply × BsdMitmService
unfolding bind_created promote create_proxy_socket
bind_tracked i fd a none s = (forwarded, s)
bind_tracked i fd a (some info) s =
    if promote a info
    then bind_created i fd a info s
        (create_proxy_socket s.manager i.place fd info.type info.protocol)
    else (forwarded, s)

-- `none` for an address that is too short or missing.
unfoldable pub service_bind :
    BindAnswers → ℕ → Option SockAddrIn → BsdMitmService → BindReply × BsdMitmService
unfolding bind_tracked
service_bind i fd none s = (forwarded, s)
service_bind i fd (some a) s =
    if a.sin_family == af_inet
    then bind_tracked i fd a (find_info fd s.socket_info) s
    else (forwarded, s)
