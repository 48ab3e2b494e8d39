-- ===== src/Tunnel/Parsing.antt =====
-- What ProcessIpv4 reads out of the packets that Send builds.
use sys_slp_client.Base.{
  ℕ, ◌+◌, ◌-◌, ◌*◌, ◌/◌, ◌%◌, ◌≤◌, ◌<◌, ◌≡◌, refl, ap₂, ◌∙◌, true, false, not, ◌||◌, List, length,
  take, drop, take_all, ltb, ◌==◌, if◌then◌else◌, arith, u8, be16, be32,
}
use sys_slp_client.Socket.State.{Route}
use sys_slp_client.Tunnel.Codec.{byte, rd16be, rd32be, ipv4_valid, ipv4_total_len, ipv4_src}
use sys_slp_client.Tunnel.Packet.{
  ip_packet, ip_header, inbound, inbound_udp, Inbound, ignored, control, datagram, control_port,
}

pub be16-bytes16 : (v : ℕ) → v < 65536 → be16 (u8 (v / 256)) (u8 v) ≡ v
be16-bytes16 v h = omega arith

pub be32-bytes32 :
    (v : ℕ) → v < 4294967296 → be32 (u8 (v / 16777216)) (u8 (v / 65536)) (u8 (v / 256)) (u8 v) ≡ v
be32-bytes32 v h = omega arith

-- Every field of a route has its width.
pub record InRange (r : Route) : Type 0 where
  pub source : r.source_ip < 4294967296
  pub source_port : r.source_port < 65536
  pub dest : r.dest_ip < 4294967296
  pub dest_port : r.dest_port < 65536

pub length-ip_packet :
    (ip_id : ℕ) (r : Route) (payload : List ℕ)
    → length (ip_packet ip_id r payload) ≡ 28 + length payload
unfolding ip_packet ip_header
length-ip_packet ip_id r payload = omega arith

-- The fields of a packet, read back.
record Reads (r : Route) (payload pkt : List ℕ) : Type 0 where
  version : byte pkt 0 ≡ 69
  total : rd16be pkt 2 ≡ 28 + length payload
  protocol : byte pkt 9 ≡ 17
  source : rd32be pkt 12 ≡ r.source_ip
  dest : rd32be pkt 16 ≡ r.dest_ip
  source_port : rd16be pkt 20 ≡ r.source_port
  dest_port : rd16be pkt 22 ≡ r.dest_port
  ulen : rd16be pkt 24 ≡ 8 + length payload
  rest : drop 28 pkt ≡ payload
  size : length pkt ≡ 28 + length payload

ip_packet-Reads :
    (ip_id : ℕ) (r : Route) (payload : List ℕ)
    → InRange r
    → length payload ≤ 2000
    → Reads r payload (ip_packet ip_id r payload)
unfolding ip_packet ip_header rd16be rd32be
ip_packet-Reads ip_id r payload v h = record {
  version = refl;
  total = omega arith;
  protocol = refl;
  source = be32-bytes32 r.source_ip v.source;
  dest = be32-bytes32 r.dest_ip v.dest;
  source_port = be16-bytes16 r.source_port v.source_port;
  dest_port = be16-bytes16 r.dest_port v.dest_port;
  ulen = omega arith;
  rest = refl;
  size = length-ip_packet ip_id r payload;
}

inbound_lem :
    (pkt : List ℕ)
    → inbound pkt ≡ (
        if not (ipv4_valid pkt)
        then ignored
        else if ltb (length pkt) (byte pkt 0 % 16 * 4 + 8)
        then ignored
        else if ltb (ipv4_total_len pkt) (byte pkt 0 % 16 * 4 + 8)
        then ignored
        else if not (byte pkt 9 == 17)
        then ignored
        else inbound_udp pkt (byte pkt 0 % 16 * 4) (ipv4_total_len pkt))
unfolding inbound
inbound_lem pkt = refl

-- Where a datagram of a route goes.
abbrev pub expected : Route → List ℕ → Inbound
expected r payload =
    if r.dest_port == control_port then control r.source_ip payload else datagram r payload

module _ (r : Route) (payload pkt : List ℕ) (reads : Reads r payload pkt) where
  total_len : ipv4_total_len pkt ≡ 28 + length payload
  unfolding ipv4_total_len
  total_len = ground (arith, reads.total, reads.size)

  valid : ipv4_valid pkt ≡ true
  unfolding ipv4_valid
  valid = ground (arith, reads.version, reads.size)

  read_payload : take (rd16be pkt 24 - 8) (drop 28 pkt) ≡ payload
  read_payload =
      ap₂ take {y = length payload} (omega (arith, reads.ulen)) reads.rest
      ∙ take_all (length payload) payload (omega arith)

  read_route :
      record {
        source_ip = rd32be pkt 12;
        source_port = rd16be pkt 20;
        dest_ip = rd32be pkt 16;
        dest_port = rd16be pkt 22;
      }
      ≡ r
  read_route = λ i. record {
    source_ip = reads.source i;
    source_port = reads.source_port i;
    dest_ip = reads.dest i;
    dest_port = reads.dest_port i;
  }

  long_enough : ltb (rd16be pkt 24) 8 || ltb (28 + length payload) (20 + rd16be pkt 24) ≡ false
  long_enough = ground (arith, reads.ulen)

  inbound_udp_reads : inbound_udp pkt 20 (28 + length payload) ≡ expected r payload
  unfolding inbound_udp
  inbound_udp_reads = rw long_enough (ap₂ expected read_route read_payload)

  inbound_reads : inbound pkt ≡ expected r payload
  inbound_reads =
      rw (inbound_lem pkt, valid, reads.version, total_len, long_header, long_total, reads.protocol)
        inbound_udp_reads
    where
      long_header : ltb (length pkt) 28 ≡ false
      long_header = ground (arith, reads.size)

      long_total : ltb (28 + length payload) 28 ≡ false
      long_total = ground arith

-- The packet that Send builds for a datagram of at most 2000 bytes is read back as that datagram: its addresses, its ports and its bytes, for the LDN
-- control plane if that is its port, else for the sockets.
pub inbound-ip_packet :
    (ip_id : ℕ) (r : Route) (payload : List ℕ)
    → InRange r
    → length payload ≤ 2000
    → inbound (ip_packet ip_id r payload) ≡ expected r payload
inbound-ip_packet ip_id r payload v h =
    inbound_reads r payload (ip_packet ip_id r payload) (ip_packet-Reads ip_id r payload v h)

pub ipv4_src-ip_packet :
    (ip_id : ℕ) (r : Route) (payload : List ℕ)
    → InRange r
    → ipv4_src (ip_packet ip_id r payload) ≡ r.source_ip
unfolding ip_packet ip_header ipv4_src
ipv4_src-ip_packet ip_id r payload v = be32-bytes32 r.source_ip v.source

pub id-ip_packet :
    (ip_id : ℕ) (r : Route) (payload : List ℕ)
    → ip_id < 65536
    → rd16be (ip_packet ip_id r payload) 4 ≡ ip_id
unfolding ip_packet ip_header rd16be
id-ip_packet ip_id r payload h = be16-bytes16 ip_id h
