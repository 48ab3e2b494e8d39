-- ===== src/Tunnel/Exchange.antt =====
-- slp_tunnel.cpp: Send, OnFrame, OnStop and the local address. The tunnel's calls of the manager and of the
-- relay socket are part of the results.
use sys_slp_client.Base.{
  ℕ, ◌+◌, ◌/◌, ◌%◌, Bool, true, false, not, ◌||◌, ◌==◌, ltb, if◌then◌else◌, Option, none, some,
  List, [], ◌∷◌, map, take, replicate, u16,
}
use sys_slp_client.Socket.State.{Route}
use sys_slp_client.Tunnel.Codec.{send_ipv4, type_ipv4, type_ipv4_frag}
use sys_slp_client.Tunnel.Packet.{Inbound, ignored, inbound, ip_packet, parse_virtual_ip}
use sys_slp_client.Tunnel.Reassembly.{FragEntry, zero_entry, max_frag_entries, on_frag}

pub record Tunnel : Type 0 where
  pub local_ip : ℕ
  pub ip_id : ℕ
  pub frags : List FragEntry

abbrev pub initial_tunnel : Tunnel
initial_tunnel = record { local_ip = 0; ip_id = 0; frags = replicate max_frag_entries zero_entry }

abbrev pub fallback_ip : ℕ
fallback_ip = 0x0A0D2502

-- `virtual_ip` is what the runtime's GetVirtualIp writes; the manager's SetLocalIp gets the new address.
unfoldable pub init : List ℕ → Tunnel → Tunnel
unfolding parse_virtual_ip
init virtual_ip t =
    let ip = parse_virtual_ip virtual_ip in
    record t { local_ip = if ip == 0 then fallback_ip else ip }

unfoldable pub refresh_local_ip : List ℕ → Tunnel → Tunnel
unfolding parse_virtual_ip
refresh_local_ip virtual_ip t =
    let fresh = parse_virtual_ip virtual_ip in
    if fresh == 0 || fresh == t.local_ip then t else record t { local_ip = fresh }

-- What `Send` calls: nothing, the manager's RouteIncomingData, or the relay socket.
pub data Calls : Type 0 where
  no_calls : Calls
  route_back : Route → List ℕ → Calls
  frames : List (List ℕ) → Calls

abbrev pub is_loopback : ℕ → Bool
is_loopback ip = ip / 16777216 == 127

-- `Send` for a pointer that is not null or a length of 0; `ready` says that the runtime runs and has an open
-- relay socket.
unfoldable pub send_bytes :
    (List ℕ → Bool) → Bool → Tunnel → Route → List ℕ → ℕ → Bool × Tunnel × Calls
unfolding send_ipv4 ip_packet
send_bytes raw ready t route src len =
    let payload = take len src in
    let source_ip = if route.source_ip == 0 then t.local_ip else route.source_ip in
    let sent = send_ipv4 raw (ip_packet t.ip_id (record route { source_ip = source_ip }) payload) in
    if ltb 2000 len
    then (false, t, no_calls)
    else if not ready
    then (false, t, no_calls)
    else if is_loopback route.dest_ip
    then (true, t, route_back (record route { source_ip = route.dest_ip }) payload)
    else (sent.0, record t { ip_id = u16 (t.ip_id + 1) }, frames sent.1)

unfoldable pub send :
    (List ℕ → Bool) → Bool → Tunnel → Route → Option (List ℕ) → ℕ → Bool × Tunnel × Calls
unfolding send_bytes
send raw ready t route none len =
    if ltb 0 len then (false, t, no_calls) else send_bytes raw ready t route [] len
send raw ready t route (some src) len = send_bytes raw ready t route src len

-- What is done with a packet, if there is one.
unfoldable pub inbound_of : Option (List ℕ) → Inbound
unfolding inbound
inbound_of none = ignored
inbound_of (some pkt) = inbound pkt

unfoldable pub on_frame : ℕ → ℕ → ℕ → List ℕ → Tunnel → Tunnel × Inbound
unfolding inbound on_frag inbound_of
on_frame now later type payload t =
    let out = on_frag now later payload t.frags in
    if type == type_ipv4
    then (t, inbound payload)
    else if type == type_ipv4_frag
    then (record t { frags = out.0 }, inbound_of out.1)
    else (t, ignored)

-- The runtime's loop for one received frame: frames of more than one byte go to the tunnel.
unfoldable pub on_received : ℕ → ℕ → List ℕ → Tunnel → Tunnel × Inbound
unfolding on_frame
on_received now later [] t = (t, ignored)
on_received now later (b ∷ []) t = (t, ignored)
on_received now later (b ∷ c ∷ rest) t = on_frame now later (b % 128) (c ∷ rest) t

abbrev pub retire : FragEntry → FragEntry
retire e = record e { active = false }

unfoldable pub on_stop : Tunnel → Tunnel
on_stop t = record t { frags = map retire t.frags }
