-- ===== src/Manager/Backlog.antt =====
-- The buffer for datagrams without a destination: what goes in, and who gets it out.
use sys_slp_client.Base.{
  ℕ, ◌+◌, ◌%◌, ◌≡◌, refl, sym, ap, ◌∙◌, Bool, true, false, not, ◌&&◌, ◌||◌, ◌==◌, min,
  if◌then◌else◌, Option, some, List, [], ◌∷◌, ◌++◌, length, get_or, keep, arith, Bool-cases, inl,
  inr, ==→eq,
}
use sys_slp_client.Net.BsdTypes.{ProtocolType}
use sys_slp_client.Net.LanAddrMap.{NetMap, is_lan_mode_port}
use sys_slp_client.Ring.{push_drop_oldest}
use sys_slp_client.Ring.Queue.{
  contents, bounded, contents-push_drop_oldest, push_drop_oldest-IsValid,
}
use sys_slp_client.Ring.Queue
use sys_slp_client.Socket.State.{ProxySocket, Route}
use sys_slp_client.Socket.Receive.{incoming_data}
use sys_slp_client.Manager.State.{
  ProxySocketManager, PendingPacket, empty_pending, max_pending_packets, pending_payload_max,
}
use sys_slp_client.Manager.Routing.{
  is_destination, find_all_from, find_all_sockets_by_destination, dispatch, route_incoming_data,
  fill_pending, from_addr, k_max_sockets, deliver_to,
}
use sys_slp_client.Manager.Pending.{Scan, scan_pending, is_for, deliver_pending_packets, start_scan}
use sys_slp_client.Manager.Matching.{
  any, change_first, any-find_all, any_found, deliver_to-find_all,
}
use sys_slp_client.Manager.Compaction.{At, Splits, scan_pending-Splits, give_all, not_for, span}

-- The buffered packets, oldest first.
abbrev pub backlog : ProxySocketManager → List PendingPacket
backlog m = contents max_pending_packets empty_pending m.pending

-- What handing the buffered datagrams for a port to its socket gives, and leaves.
pub record Delivered (g : NetMap) (m : ProxySocketManager) (s : ProxySocket) (port : ℕ)
    (protocol : ProtocolType) (out : Option ProxySocket × ProxySocketManager) : Type 0 where
  pub ring : Queue.IsValid max_pending_packets out.1.pending
  pub kept : backlog out.1 ≡ keep (not_for port protocol) (backlog m)
  pub given : out.0 ≡ some (give_all g s (keep (is_for port protocol) (backlog m)))
  pub sockets : out.1.sockets ≡ m.sockets

module _ (g : NetMap) (m : ProxySocketManager) (s : ProxySocket) (port : ℕ)
    (protocol : ProtocolType) (v : Queue.IsValid max_pending_packets m.pending) where
  none_waiting : m.pending.count ≡ 0 → Delivered g m s port protocol (some s, m)
  none_waiting e = record {
    ring = v;
    kept = is_empty ∙ ap (keep (not_for port protocol)) (sym is_empty);
    given = ap (λ q. some (give_all g s (keep (is_for port protocol) q))) (sym is_empty);
    sockets = refl;
  }
    where
      is_empty : backlog m ≡ []
      is_empty = ap (span m.pending.slots m.pending.head) e

  start_scan-At : At m.pending.head 0 0 (start_scan m s)
  start_scan-At = record {
    storage = v.storage;
    read_at = at_head;
    write_at = at_head;
    behind = omega arith;
    kept_at = refl;
  }
    where
      at_head : m.pending.head ≡ (m.pending.head + 0) % max_pending_packets
      at_head = omega (arith, v.head_in)

  abbrev after : Scan → ProxySocketManager
  after c = record m {
    pending = record m.pending { slots = c.slots; tail = c.write_idx; count = c.kept };
  }

  some_waiting :
      (c : Scan)
      → Splits g port protocol m.pending.head 0 0 m.pending.count (start_scan m s) c
      → Delivered g m s port protocol (some c.socket, after c)
  some_waiting c r = record {
    ring = record {
      storage = r.at_end.storage;
      some_room = omega arith;
      head_in = v.head_in;
      tail_at = r.at_end.write_at;
      count_le = omega (arith, r.at_end.behind, v.count_le);
    };
    kept = r.kept_queue ∙ ap (keep (not_for port protocol)) from_zero;
    given = ap some (r.given ∙ ap (λ q. give_all g s (keep (is_for port protocol) q)) from_zero);
    sockets = refl;
  }
    where
      from_zero : span m.pending.slots (m.pending.head + 0) m.pending.count ≡ backlog m
      from_zero = ap (λ j. span m.pending.slots j m.pending.count) (omega arith)

  -- DeliverPendingPackets with a well-formed ring: the socket receives the buffered packets for its port and protocol, oldest
  -- first, and exactly the other packets stay buffered, in their order, in a well-formed ring; no other socket changes.
  pub deliver_pending_packets_lem :
      Delivered g m s port protocol (deliver_pending_packets g m (some s) port protocol)
  unfolding deliver_pending_packets
  deliver_pending_packets_lem = elim (Bool-cases (m.pending.count == 0)) [
    | inl e ↦ rw e (none_waiting (==→eq m.pending.count 0 e))
    | inr ne ↦ rw ne (
        some_waiting (scan_pending g port protocol m.pending.count (start_scan m s)) (
          scan_pending-Splits g port protocol m.pending.count m.pending.head 0 0 (start_scan m s)
            start_scan-At (omega (arith, v.count_le))))
  ]

-- What routing a datagram of the sockets answers, and leaves.
pub data Routed (is_known_peer : ℕ → Bool) (g : NetMap) (m : ProxySocketManager) (route : Route)
    (protocol : ProtocolType) (src : List ℕ) : Bool × ProxySocketManager → Type 0 where
  foreign :
      is_lan_mode_port route.dest_port ≡ false
      → is_known_peer route.source_ip ≡ false
      → Routed is_known_peer g m route protocol src (false, m)
  matched :
      is_lan_mode_port route.dest_port || is_known_peer route.source_ip ≡ true
      → any (is_destination route.dest_ip route.dest_port protocol) m.sockets ≡ true
      → Routed is_known_peer g m route protocol src (
        true,
        record m {
          sockets =
              change_first k_max_sockets
                (is_destination route.dest_ip route.dest_port protocol)
                (λ s.
                  incoming_data s
                    (some src)
                    (length src)
                    (from_addr g route.source_ip route.source_port))
                m.sockets;
        },
      )
  unmatched :
      (m' : ProxySocketManager)
      → is_lan_mode_port route.dest_port || is_known_peer route.source_ip ≡ true
      → any (is_destination route.dest_ip route.dest_port protocol) m.sockets ≡ false
      → m'.sockets ≡ m.sockets
      → Queue.IsValid max_pending_packets m'.pending
      → backlog m'
        ≡ bounded max_pending_packets (backlog m)
          ++ fill_pending route protocol
              (some src)
              (min (length src) pending_payload_max)
              (get_or m.pending.slots m.pending.tail empty_pending)
            ∷ []
      → Routed is_known_peer g m route protocol src (false, m')

module _ (is_known_peer : ℕ → Bool) (g : NetMap) (m : ProxySocketManager) (route : Route)
    (protocol : ProtocolType) (src : List ℕ) where
  abbrev test : ProxySocket → Bool
  test = is_destination route.dest_ip route.dest_port protocol

  abbrev push : ProxySocket → ProxySocket
  push s = incoming_data s (some src) (length src) (from_addr g route.source_ip route.source_port)

  abbrev passes : Bool
  passes = is_lan_mode_port route.dest_port || is_known_peer route.source_ip

  abbrev found : List ℕ
  found = find_all_from test k_max_sockets 0 m.sockets

  route_lem : route_incoming_data is_known_peer g m route protocol (some src) (length src) ≡ (
      if not (is_lan_mode_port route.dest_port) && not (is_known_peer route.source_ip)
      then (false, m)
      else dispatch g m route protocol (some src) (length src) found)
  unfolding route_incoming_data find_all_sockets_by_destination
  route_lem = refl

  dispatch_none :
      Queue.IsValid max_pending_packets m.pending
      → passes ≡ true
      → any test m.sockets ≡ false
      → Routed is_known_peer g m route protocol src
          (dispatch g m route protocol (some src) (length src) [])
  unfolding dispatch
  dispatch_none v p h =
      let write = fill_pending route protocol (some src) (min (length src) pending_payload_max) in
      unmatched (record m { pending = push_drop_oldest max_pending_packets write m.pending }) p h
        refl (push_drop_oldest-IsValid max_pending_packets empty_pending write m.pending v)
        (contents-push_drop_oldest max_pending_packets empty_pending write m.pending v)

  dispatch_some :
      passes ≡ true
      → any test m.sockets ≡ true
      → Routed is_known_peer g m route protocol src
          (true, record m { sockets = deliver_to push found m.sockets })
  dispatch_some p h = rw (deliver_to-find_all test push k_max_sockets m.sockets) (matched p h)

  dispatch_lem :
      any test m.sockets ≡ true
      → dispatch g m route protocol (some src) (length src) found
        ≡ (true, record m { sockets = deliver_to push found m.sockets })
  unfolding dispatch
  dispatch_lem h = let (pos, rest, e) = any_found test 7 0 m.sockets h in rw e refl

  dispatch-Routed :
      Queue.IsValid max_pending_packets m.pending
      → passes ≡ true
      → Routed is_known_peer g m route protocol src
          (dispatch g m route protocol (some src) (length src) found)
  dispatch-Routed v p = elim (Bool-cases (any test m.sockets)) [
    | inl some_match ↦ rw (dispatch_lem some_match) (dispatch_some p some_match)
    | inr no_match ↦
        rw (any-find_all test k_max_sockets 0 m.sockets no_match) (dispatch_none v p no_match)
  ]

  -- RouteIncomingData with a well-formed pending ring: a datagram from outside the session to a port other than those of LAN
  -- mode is dropped; one with destinations reaches the first 8 of them, in the table's order, and no other socket; one without is buffered
  -- last, after the oldest of 16.
  pub route_incoming_data_lem :
      Queue.IsValid max_pending_packets m.pending
      → Routed is_known_peer g m route protocol src
          (route_incoming_data is_known_peer g m route protocol (some src) (length src))
  route_incoming_data_lem v = rw route_lem (elim (Bool-cases (is_lan_mode_port route.dest_port)) [
    | inl lan ↦ rw lan (dispatch-Routed v (rw lan refl))
    | inr session ↦ elim (Bool-cases (is_known_peer route.source_ip)) [
      | inl peer ↦ rw (session, peer) (dispatch-Routed v (rw (session, peer) refl))
      | inr stranger ↦ rw (session, stranger) (foreign session stranger)
    ]
  ])
