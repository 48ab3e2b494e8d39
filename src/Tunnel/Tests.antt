-- ===== src/Tunnel/Tests.antt =====
-- The tunnel at concrete states: a console at 10.13.37.2 sends to 10.13.37.3.
use sys_slp_client.Base.{
  ℕ, ◌<◌, ◌≡◌, refl, true, false, some, List, [], ◌∷◌, length, length-replicate, replicate,
  All-replicate, arith,
}
use sys_slp_client.Socket.State.{Route}
use sys_slp_client.Tunnel.Codec.{type_ipv4}
use sys_slp_client.Tunnel.Packet.{
  ignored, inbound, ip_packet, ip_checksum, ip_header, parse_virtual_ip,
}
use sys_slp_client.Tunnel.Reassembly.{FragEntry, zero_entry, on_frag, holds, int64_max}
use sys_slp_client.Tunnel.Exchange.{Tunnel, initial_tunnel, frames, send, on_received}
use sys_slp_client.Tunnel.Checksum.{ip_checksum_verifies}
use sys_slp_client.Tunnel.Parsing.{InRange, expected, inbound-ip_packet}
use sys_slp_client.Tunnel.Storage.{IsEntry, IsTable, zero_entry-IsEntry, on_frag-IsTable}
use sys_slp_client.Tunnel.Table.{Unknown, InTime}
use sys_slp_client.Tunnel.Splitting.{low_frame, high_frame}
use sys_slp_client.Tunnel.RoundTrip.{wire_route, send-on_received, send-fragments}

abbrev to_peer : Route
to_peer = record {
  source_ip = 0x0A0D2502;
  source_port = 30000;
  dest_ip = 0x0A0D2503;
  dest_port = 30001;
}

abbrev hello : List ℕ
hello = 104 ∷ 105 ∷ []

-- "10.13.37.2"
parsed : parse_virtual_ip (49 ∷ 48 ∷ 46 ∷ 49 ∷ 51 ∷ 46 ∷ 51 ∷ 55 ∷ 46 ∷ 50 ∷ []) ≡ 0x0A0D2502
unfolding parse_virtual_ip
parsed = refl

to_peer-InRange : InRange to_peer
to_peer-InRange = record {
  source = omega arith;
  source_port = omega arith;
  dest = omega arith;
  dest_port = omega arith;
}

idle-IsTable : IsTable initial_tunnel.frags
idle-IsTable = (refl, All-replicate (λ e. IsEntry e) 4 zero_entry zero_entry-IsEntry)

idle-Unknown : Unknown 0x0A0D2502 7 initial_tunnel.frags
unfolding holds
idle-Unknown = All-replicate (λ e. holds 0x0A0D2502 7 e ≡ false) 4 zero_entry refl

idle-InTime : InTime initial_tunnel.frags
idle-InTime = All-replicate (λ (e : FragEntry). e.last_tick < int64_max) 4 zero_entry (omega arith)

abbrev sender : Tunnel
sender = record initial_tunnel { local_ip = 0x0A0D2502; ip_id = 7 }

-- 1500 bytes.
abbrev large : List ℕ
large = replicate 1500 7

large-length : length large ≡ 1500
large-length = length-replicate 1500 (let x : ℕ = 7 in x)

ip_checksum_verifies_example :
    let sum = ip_checksum (ip_header 30 7 0 0x0A0D2502 0x0A0D2503) in
    ip_checksum (ip_header 30 7 sum 0x0A0D2502 0x0A0D2503) ≡ 0
ip_checksum_verifies_example =
    ip_checksum_verifies 30 7 0x0A0D2502 0x0A0D2503 (omega arith) (omega arith) (omega arith)
      (omega arith)

inbound-ip_packet_example : inbound (ip_packet 7 to_peer hello) ≡ expected to_peer hello
inbound-ip_packet_example = inbound-ip_packet 7 to_peer hello to_peer-InRange (omega arith)

-- Fragment 1 of 2, with 2 bytes, of a datagram of 10.13.37.2.
abbrev a_fragment : List ℕ
a_fragment = 10 ∷ 13 ∷ 37 ∷ 2 ∷ 10 ∷ 13 ∷ 37 ∷ 3 ∷ 0 ∷ 7 ∷ 1 ∷ 2 ∷ 0 ∷ 2 ∷ 5 ∷ 120 ∷ 104 ∷ 105 ∷ []

on_frag-IsTable_example : IsTable (on_frag 100 101 a_fragment initial_tunnel.frags).0
on_frag-IsTable_example = on_frag-IsTable 100 101 a_fragment initial_tunnel.frags idle-IsTable

send-on_received_example :
    let pkt = ip_packet 7 to_peer hello in
    let sent = send (λ _. true) true sender to_peer (some hello) 2 in
    (sent.0 ≡ true)
    × (sent.2 ≡ frames ((type_ipv4 ∷ pkt) ∷ []))
    × (on_received 100 101 (type_ipv4 ∷ pkt) initial_tunnel
        ≡ (initial_tunnel, expected (wire_route sender to_peer) hello))
send-on_received_example =
    send-on_received sender to_peer hello initial_tunnel to_peer-InRange refl 100 101 (omega arith)

send-fragments_example :
    let pkt = ip_packet 7 to_peer large in
    let sent = send (λ _. true) true sender to_peer (some large) (length large) in
    let a = on_received 100 101 (low_frame pkt) initial_tunnel in
    let b = on_received 100 101 (high_frame pkt) initial_tunnel in
    (sent.0 ≡ true)
    × (sent.2 ≡ frames (low_frame pkt ∷ high_frame pkt ∷ []))
    × (a.1 ≡ ignored)
    × ((on_received 102 103 (high_frame pkt) a.0).1 ≡ expected (wire_route sender to_peer) large)
    × (b.1 ≡ ignored)
    × ((on_received 102 103 (low_frame pkt) b.0).1 ≡ expected (wire_route sender to_peer) large)
send-fragments_example =
    send-fragments sender to_peer large initial_tunnel to_peer-InRange refl 100 101 102 103
      (omega (arith, large-length)) (omega (arith, large-length)) (omega arith) (omega arith)
      idle-InTime idle-Unknown (omega arith)
