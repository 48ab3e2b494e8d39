-- ===== src/Manager/Pending.antt =====
-- proxy_socket_manager.cpp: DeliverPendingPackets, which gives the buffered datagrams for a port to
-- its socket and closes the gaps in place.
use sys_slp_client.Base.{
  ℕ, zero, suc, ◌+◌, ◌%◌, Bool, not, ◌&&◌, ◌==◌, if◌then◌else◌, Option, none, some, List, get_or,
}
use sys_slp_client.Net.BsdTypes.{ProtocolType, same_protocol}
use sys_slp_client.Net.LanAddrMap.{NetMap}
use sys_slp_client.Ring.{modify}
use sys_slp_client.Socket.State.{ProxySocket}
use sys_slp_client.Socket.Receive.{incoming_data}
use sys_slp_client.Manager.State.{
  ProxySocketManager, PendingPacket, empty_pending, max_pending_packets,
}
use sys_slp_client.Manager.Routing.{from_addr}

unfoldable pub is_for : ℕ → ProtocolType → PendingPacket → Bool
is_for port protocol pkt = same_protocol pkt.protocol protocol && pkt.dest_port == port

unfoldable pub give : NetMap → ProxySocket → PendingPacket → ProxySocket
give g s pkt =
    incoming_data s (some pkt.payload) pkt.len (from_addr g pkt.source_ip pkt.source_port)

-- The loop's variables.
pub record Scan : Type 0 where
  pub slots : List PendingPacket
  pub read_idx : ℕ
  pub write_idx : ℕ
  pub kept : ℕ
  pub socket : ProxySocket

-- The branch of a packet for another socket.
unfoldable pub keep_packet : Scan → PendingPacket → Scan
keep_packet c pkt = record c {
  slots =
      if not (c.write_idx == c.read_idx) then modify c.slots c.write_idx (λ _. pkt) else c.slots;
  write_idx = (c.write_idx + 1) % max_pending_packets;
  kept = c.kept + 1;
  read_idx = (c.read_idx + 1) % max_pending_packets;
}

-- The branch of a packet for this one.
unfoldable pub give_packet : NetMap → Scan → PendingPacket → Scan
unfolding give
give_packet g c pkt = record c {
  socket = give g c.socket pkt;
  read_idx = (c.read_idx + 1) % max_pending_packets;
}

-- The loop, with `remaining` packets to read.
unfoldable pub scan_pending : NetMap → ℕ → ProtocolType → ℕ → Scan → Scan
unfolding is_for keep_packet give_packet
scan_pending g port protocol zero c = c
scan_pending g port protocol (suc remaining) c =
    let pkt = get_or c.slots c.read_idx empty_pending in
    scan_pending g port protocol remaining
      (if is_for port protocol pkt then give_packet g c pkt else keep_packet c pkt)

abbrev pub start_scan : ProxySocketManager → ProxySocket → Scan
start_scan m s = record {
  slots = m.pending.slots;
  read_idx = m.pending.head;
  write_idx = m.pending.head;
  kept = 0;
  socket = s;
}

-- The socket is the caller's; `none` for nullptr.
unfoldable pub deliver_pending_packets :
    NetMap
    → ProxySocketManager
    → Option ProxySocket
    → ℕ
    → ProtocolType
    → Option ProxySocket × ProxySocketManager
unfolding scan_pending
deliver_pending_packets g m none port protocol = (none, m)
deliver_pending_packets g m (some s) port protocol =
    let c = scan_pending g port protocol m.pending.count (start_scan m s) in
    if m.pending.count == 0 then (some s, m) else (
      some c.socket,
      record m {
        pending = record m.pending { slots = c.slots; tail = c.write_idx; count = c.kept };
      },
    )
