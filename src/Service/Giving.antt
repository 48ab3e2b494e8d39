-- ===== src/Service/Giving.antt =====
-- What Bind's entries and the delivery of the buffered datagrams leave of the descriptor's proxy socket.
use sys_slp_client.Base.{
  ℕ, zero, suc, ◌≡◌, refl, ap, ◌∙◌, Bool, true, false, ◌==◌, if◌then◌else◌, Option, none, some,
  List, [], ◌∷◌, get_or, if_cases,
}
use sys_slp_client.Net.BsdTypes.{ProtocolType}
use sys_slp_client.Net.LanAddrMap.{NetMap}
use sys_slp_client.Socket.State.{ProxySocket}
use sys_slp_client.Socket.Receive.{incoming_data}
use sys_slp_client.Manager.State.{ProxySocketManager, Entry, PendingPacket, empty_pending}
use sys_slp_client.Manager.Sockets.{find_fd}
use sys_slp_client.Manager.Pending.{
  Scan, is_for, give, keep_packet, give_packet, scan_pending, start_scan, deliver_pending_packets,
}
use sys_slp_client.Service.Bind.{SocketInfo, find_info, put_socket, mark_proxy, delivered}

pub find_fd-put_socket :
    (fd : ℕ) (s : ProxySocket) (es : List Entry) (old : ProxySocket)
    → find_fd es fd ≡ some old
    → find_fd (put_socket fd s es) fd ≡ some s
find_fd-put_socket fd s [] old h = absurd (cc h)
find_fd-put_socket fd s ((key, t) ∷ es) old h =
    by_test (key == fd) refl h (find_fd-put_socket fd s es old)
  where
    by_test :
        (b : Bool)
        → key == fd ≡ b
        → (if b then some t else find_fd es fd) ≡ some old
        → (find_fd es fd ≡ some old → find_fd (put_socket fd s es) fd ≡ some s)
        → find_fd (if b then (key, s) ∷ es else (key, t) ∷ put_socket fd s es) fd ≡ some s
    by_test true e k ih = rw e refl
    by_test false e k ih = rw e (ih k)

pub find_info-mark_proxy :
    (fd : ℕ) (info : SocketInfo) (table : List (ℕ × SocketInfo))
    → find_info fd table ≡ some info
    → find_info fd (mark_proxy fd table) ≡ some (record info { is_proxy = true })
find_info-mark_proxy fd info [] h = absurd (cc h)
find_info-mark_proxy fd info ((key, x) ∷ rest) h =
    by_test (key == fd) refl h (find_info-mark_proxy fd info rest)
  where
    marked : SocketInfo → Option SocketInfo
    marked y = some (record y { is_proxy = true })

    by_test :
        (b : Bool)
        → key == fd ≡ b
        → (if b then some x else find_info fd rest) ≡ some info
        → (find_info fd rest ≡ some info → find_info fd (mark_proxy fd rest) ≡ marked info)
        → find_info fd (
            if b then (key, record x { is_proxy = true }) ∷ rest else (key, x) ∷ mark_proxy fd rest)
          ≡ marked info
    by_test true e k ih = rw e (ap (λ o. elim o [ none ↦ none | some y ↦ marked y ]) k)
    by_test false e k ih = rw e (ih k)

-- The part of a socket that a delivery leaves alone.
abbrev pub Keeps : ProxySocket → ProxySocket → Type 0
Keeps s s' = (s'.state ≡ s.state) × (s'.local_addr ≡ s.local_addr)

scan_step-Keeps :
    (g : NetMap) (c : Scan) (pkt : PendingPacket) (b : Bool)
    → Keeps c.socket (if b then give_packet g c pkt else keep_packet c pkt).socket
unfolding give_packet keep_packet give incoming_data
scan_step-Keeps g c pkt true = (refl, refl)
scan_step-Keeps g c pkt false = (refl, refl)

scan_pending-Keeps :
    (g : NetMap) (port : ℕ) (protocol : ProtocolType) (n : ℕ) (c : Scan)
    → Keeps c.socket (scan_pending g port protocol n c).socket
unfolding scan_pending
scan_pending-Keeps g port protocol zero c = (refl, refl)
scan_pending-Keeps g port protocol (suc n) c =
    let pkt = get_or c.slots c.read_idx empty_pending in
    let step = scan_step-Keeps g c pkt (is_for port protocol pkt) in
    let rest =
      scan_pending-Keeps g port protocol n
        (if is_for port protocol pkt then give_packet g c pkt else keep_packet c pkt) in
    (rest.0 ∙ step.0, rest.1 ∙ step.1)

-- After the delivery the descriptor has the socket, its state, its address and the ports unchanged.
pub record IsDelivered (fd : ℕ) (socket : ProxySocket) (m m' : ProxySocketManager) : Type 0 where
  pub socket' : ProxySocket
  pub found : find_fd m'.sockets fd ≡ some socket'
  pub kept : Keeps socket socket'
  pub ports : m'.port_pool ≡ m.port_pool

pub delivered-IsDelivered :
    (g : NetMap) (fd port : ℕ) (protocol : ProtocolType) (socket old : ProxySocket)
    (m : ProxySocketManager)
    → find_fd m.sockets fd ≡ some old
    → IsDelivered fd socket m
        (delivered fd (deliver_pending_packets g m (some socket) port protocol))
unfolding deliver_pending_packets
delivered-IsDelivered g fd port protocol socket old m e =
    if_cases (λ x. IsDelivered fd socket m (delivered fd x)) (m.pending.count == 0) _ _
      (λ _. record {
        socket' = socket;
        found = find_fd-put_socket fd socket m.sockets old e;
        kept = (refl, refl);
        ports = refl;
      })
      (λ _.
        let c = scan_pending g port protocol m.pending.count (start_scan m socket) in
        record {
          socket' = c.socket;
          found = find_fd-put_socket fd c.socket m.sockets old e;
          kept = scan_pending-Keeps g port protocol m.pending.count (start_scan m socket);
          ports = refl;
        })
