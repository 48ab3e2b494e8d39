-- ===== src/Manager/Sockets.antt =====
-- proxy_socket_manager.cpp: the life of the sockets, the ports and the counts.
use sys_slp_client.Base.{
  ℕ, zero, suc, Bool, true, false, not, ◌==◌, leb, if◌then◌else◌, Option, none, some, List, [], ◌∷◌,
  ◌++◌, length,
}
use sys_slp_client.Net.BsdTypes.{SocketType, ProtocolType, get_port}
use sys_slp_client.Ports.{
  EphemeralPortPool, allocate_port, allocate_specific_port, release_port, release_all,
  get_available_count,
}
use sys_slp_client.Ring.{clear}
use sys_slp_client.Socket.State.{ProxySocket, Outgoing, new_socket}
use sys_slp_client.Socket.Teardown.{close}
use sys_slp_client.Manager.State.{ProxySocketManager, Entry, max_proxy_sockets}

-- `m_sockets.find(fd)`.
abbrev pub find_fd : List Entry → ℕ → Option ProxySocket
find_fd [] fd = none
find_fd ((key, s) ∷ rest) fd = if key == fd then some s else find_fd rest fd

-- `m_sockets.erase(it)`.
abbrev pub erase_fd : List Entry → ℕ → List Entry
erase_fd [] fd = []
erase_fd ((key, s) ∷ rest) fd = if key == fd then rest else (key, s) ∷ erase_fd rest fd

-- The hash table puts a new entry at some place of its order.
abbrev pub insert_at : ℕ → Entry → List Entry → List Entry
insert_at zero e es = e ∷ es
insert_at (suc place) e [] = e ∷ []
insert_at (suc place) e (x ∷ es) = x ∷ insert_at place e es

-- What `CreateProxySocket` does for the outcome of its lookup.
unfoldable pub create_if_absent :
    Option ProxySocket
    → ProxySocketManager
    → ℕ
    → ℕ
    → SocketType
    → ProtocolType
    → Option ProxySocket × ProxySocketManager
create_if_absent (some s) m place fd type protocol = (some s, m)
create_if_absent none m place fd type protocol =
    if leb max_proxy_sockets (length m.sockets) then (none, m) else (
      some (new_socket type protocol),
      record m { sockets = insert_at place (fd, new_socket type protocol) m.sockets },
    )

unfoldable pub create_proxy_socket :
    ProxySocketManager → ℕ → ℕ → SocketType → ProtocolType → Option ProxySocket × ProxySocketManager
unfolding create_if_absent
create_proxy_socket m place fd type protocol =
    create_if_absent (find_fd m.sockets fd) m place fd type protocol

unfoldable pub get_proxy_socket : ProxySocketManager → ℕ → Option ProxySocket
get_proxy_socket m fd = find_fd m.sockets fd

abbrev pub is_some {ℓ} : {A : Type ℓ} → Option A → Bool
is_some none = false
is_some (some _) = true

unfoldable pub is_proxy_socket : ProxySocketManager → ℕ → Bool
is_proxy_socket m fd = is_some (find_fd m.sockets fd)

-- The pool without the socket's own port.
unfoldable pub without_port : EphemeralPortPool → ProxySocket → EphemeralPortPool
without_port pool s =
    if not (get_port s.local_addr == 0)
    then release_port pool (get_port s.local_addr) s.protocol
    else pool

-- What `CloseProxySocket` does for the outcome of its lookup.
unfoldable pub close_found :
    Option ProxySocket → ProxySocketManager → ℕ → Bool × ProxySocketManager × List Outgoing
unfolding without_port
close_found none m fd = (false, m, [])
close_found (some s) m fd = (
  true,
  record m { port_pool = without_port m.port_pool s; sockets = erase_fd m.sockets fd },
  (close s).1,
)

unfoldable pub close_proxy_socket :
    ProxySocketManager → ℕ → Bool × ProxySocketManager × List Outgoing
unfolding close_found
close_proxy_socket m fd = close_found (find_fd m.sockets fd) m fd

-- The calls that closing all the sockets makes.
abbrev pub close_each : List Entry → List Outgoing
close_each [] = []
close_each ((_, s) ∷ rest) = (close s).1 ++ close_each rest

unfoldable pub close_all_proxy_sockets : ProxySocketManager → ProxySocketManager × List Outgoing
close_all_proxy_sockets m =
    (record m { sockets = []; port_pool = release_all m.port_pool }, close_each m.sockets)

unfoldable pub reset : ProxySocketManager → ProxySocketManager × List Outgoing
unfolding clear
reset m = (
  record m {
    sockets = [];
    port_pool = release_all m.port_pool;
    pending = clear m.pending;
    local_ip = 0;
    send_callback = none;
    proxy_connect_callback = none;
    proxy_connect_reply_callback = none;
    proxy_disconnect_callback = none;
  },
  close_each m.sockets,
)

unfoldable pub take_port : ProxySocketManager → ProtocolType → ℕ × ProxySocketManager
take_port m protocol =
    let out = allocate_port m.port_pool protocol in (out.0, record m { port_pool = out.1 })

unfoldable pub reserve_port : ProxySocketManager → ℕ → ProtocolType → Bool × ProxySocketManager
reserve_port m port protocol =
    let out = allocate_specific_port m.port_pool port protocol in
    (out.0, record m { port_pool = out.1 })

unfoldable pub give_back_port : ProxySocketManager → ℕ → ProtocolType → ProxySocketManager
give_back_port m port protocol = record m { port_pool = release_port m.port_pool port protocol }

unfoldable pub set_local_ip : ProxySocketManager → ℕ → ProxySocketManager
set_local_ip m ip = record m { local_ip = ip }

unfoldable pub get_local_ip : ProxySocketManager → ℕ
get_local_ip m = m.local_ip

unfoldable pub get_active_socket_count : ProxySocketManager → ℕ
get_active_socket_count m = length m.sockets

unfoldable pub get_available_port_count : ProxySocketManager → ProtocolType → ℕ
get_available_port_count m protocol = get_available_count m.port_pool protocol
