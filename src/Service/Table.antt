-- ===== src/Service/Table.antt =====
-- bsd_mitm_service.cpp: the table of the descriptors, in Close, Accept and DuplicateSocket, SetSockOpt and the destructor.
use sys_slp_client.Base.{
  ℕ, Bool, not, ◌&&◌, ◌==◌, if◌then◌else◌, Option, none, some, List, [], ◌∷◌, ◌++◌,
}
use sys_slp_client.Socket.State.{Outgoing}
use sys_slp_client.Socket.Options.{sol_socket, so_broadcast}
use sys_slp_client.Manager.State.{ProxySocketManager}
use sys_slp_client.Manager.Sockets.{close_proxy_socket}
use sys_slp_client.Service.Bind.{SocketInfo, find_info, erase_info, set_info, BsdMitmService}

-- Close of a descriptor whose entry is found; the real service's Close follows.
unfoldable pub close_info : ℕ → Option SocketInfo → BsdMitmService → BsdMitmService × List Outgoing
unfolding close_proxy_socket
close_info fd none s = (s, [])
close_info fd (some info) s =
    let closed = close_proxy_socket s.manager fd in
    let table = erase_info fd s.socket_info in
    if info.is_proxy
    then (record s { socket_info = table; manager = closed.1 }, closed.2)
    else (record s { socket_info = table }, [])

unfoldable pub service_close : ℕ → BsdMitmService → BsdMitmService × List Outgoing
unfolding close_info
service_close fd s = close_info fd (find_info fd s.socket_info) s

-- Accept and DuplicateSocket give the new descriptor, if there is one, the entry of the old.
unfoldable pub copy_info : ℕ → Option ℕ → BsdMitmService → BsdMitmService
copy_info fd none s = s
copy_info fd (some new_fd) s = elim (find_info fd s.socket_info) [
  | none ↦ s
  | some info ↦ record s { socket_info = set_info new_fd info s.socket_info }
]

abbrev pub with_broadcast_option : ℕ → Bool → List (ℕ × SocketInfo) → List (ℕ × SocketInfo)
with_broadcast_option fd on [] = []
with_broadcast_option fd on ((key, info) ∷ rest) =
    if key == fd
    then (key, record info { broadcast = on }) ∷ rest
    else (key, info) ∷ with_broadcast_option fd on rest

-- SetSockOpt on a descriptor without a proxy socket; `value` is none for a buffer shorter than a word.
unfoldable pub save_option : ℕ → ℕ → ℕ → Option ℕ → BsdMitmService → BsdMitmService
save_option fd level optname none s = s
save_option fd level optname (some value) s =
    if level == sol_socket && optname == so_broadcast
    then record s { socket_info = with_broadcast_option fd (not (value == 0)) s.socket_info }
    else s

-- The proxied descriptors of a session, and the entries of the others.
unfoldable pub own_proxies : ℕ → List (ℕ × SocketInfo) → List ℕ
own_proxies session [] = []
own_proxies session ((fd, info) ∷ rest) =
    let fds = own_proxies session rest in
    if info.session_id == session then (if info.is_proxy then fd ∷ fds else fds) else fds

unfoldable pub of_others : ℕ → List (ℕ × SocketInfo) → List (ℕ × SocketInfo)
of_others session [] = []
of_others session ((fd, info) ∷ rest) =
    let kept = of_others session rest in
    if info.session_id == session then kept else (fd, info) ∷ kept

unfoldable pub close_fds : List ℕ → ProxySocketManager → ProxySocketManager × List Outgoing
unfolding close_proxy_socket
close_fds [] m = (m, [])
close_fds (fd ∷ fds) m =
    let closed = close_proxy_socket m fd in
    let rest = close_fds fds closed.1 in (rest.0, closed.2 ++ rest.1)

-- The destructor, up to local network mode.
unfoldable pub clean_up_session : BsdMitmService → BsdMitmService × List Outgoing
unfolding own_proxies of_others close_fds
clean_up_session s =
    let closed = close_fds (own_proxies s.session_id s.socket_info) s.manager in
    (record s { socket_info = of_others s.session_id s.socket_info; manager = closed.0 }, closed.1)
