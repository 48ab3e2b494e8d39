-- ===== src/Tunnel/Packet.antt =====
-- slp_tunnel.cpp: the IPv4 and UDP headers that Send writes, and what ProcessIpv4 reads.
use sys_slp_client.Base.{
  ℕ, zero, suc, ◌+◌, ◌-◌, ◌*◌, ◌/◌, ◌%◌, not, ◌&&◌, ◌||◌, ◌==◌, ltb, leb, if◌then◌else◌, List, [],
  ◌∷◌, ◌++◌, length, take, drop, u16, u32, be16,
}
use sys_slp_client.Socket.State.{Route}
use sys_slp_client.Tunnel.Codec.{byte, bytes16, bytes32, ipv4_valid, ipv4_total_len, rd16be, rd32be}

-- The 16-bit words of a header, added up in 32 bits; an odd byte counts as a high one.
unfoldable pub sum_words : ℕ → List ℕ → ℕ
sum_words sum [] = sum
sum_words sum (a ∷ []) = u32 (sum + a * 256)
sum_words sum (a ∷ b ∷ rest) = sum_words (u32 (sum + be16 a b)) rest

-- `while (sum >> 16)`. Three rounds are enough for 32 bits.
unfoldable pub fold_carry : ℕ → ℕ → ℕ
fold_carry zero sum = sum
fold_carry (suc fuel) sum =
    let folded = fold_carry fuel (sum % 65536 + sum / 65536) in
    if sum / 65536 == 0 then sum else folded

unfoldable pub ip_checksum : List ℕ → ℕ
unfolding sum_words fold_carry
ip_checksum p = 65535 - fold_carry 3 (sum_words 0 p)

-- The 20 bytes of the header with the given checksum.
unfoldable pub ip_header : ℕ → ℕ → ℕ → ℕ → ℕ → List ℕ
ip_header ip_total ip_id sum src_ip dst_ip =
    0x45 ∷ 0 ∷ bytes16 ip_total
    ++ bytes16 ip_id
    ++ 0x40 ∷ 0 ∷ 64 ∷ 17 ∷ bytes16 sum
    ++ bytes32 src_ip
    ++ bytes32 dst_ip

-- The packet that `Send` builds: the checksum is that of the header with a zero in its place.
unfoldable pub ip_packet : ℕ → Route → List ℕ → List ℕ
unfolding ip_header ip_checksum
ip_packet ip_id route payload =
    let ip_total = u16 (20 + 8 + length payload) in
    let sum = ip_checksum (ip_header ip_total ip_id 0 route.source_ip route.dest_ip) in
    ip_header ip_total ip_id sum route.source_ip route.dest_ip
    ++ bytes16 route.source_port
    ++ bytes16 route.dest_port
    ++ bytes16 (u16 (8 + length payload))
    ++ 0 ∷ 0 ∷ payload

-- `ldn::ControlPort`.
abbrev pub control_port : ℕ
control_port = 11452

-- Where a packet goes: nowhere, to the LDN control plane, or to the sockets.
pub data Inbound : Type 0 where
  ignored : Inbound
  control : ℕ → List ℕ → Inbound
  datagram : Route → List ℕ → Inbound

-- The datagram in a packet, once its lengths are checked.
unfoldable pub inbound_udp : List ℕ → ℕ → ℕ → Inbound
unfolding rd16be rd32be
inbound_udp pkt uoff total =
    let ulen = rd16be pkt (uoff + 4) in
    let payload = take (ulen - 8) (drop (uoff + 8) pkt) in
    let route : Route = record {
      source_ip = rd32be pkt 12;
      source_port = rd16be pkt uoff;
      dest_ip = rd32be pkt 16;
      dest_port = rd16be pkt (uoff + 2);
    } in
    if ltb ulen 8 || ltb total (uoff + ulen)
    then ignored
    else if route.dest_port == control_port
    then control route.source_ip payload
    else datagram route payload

-- `ProcessIpv4` up to the call that it makes.
unfoldable pub inbound : List ℕ → Inbound
unfolding ipv4_valid ipv4_total_len inbound_udp
inbound pkt =
    let ihl = byte pkt 0 % 16 * 4 in
    let total = ipv4_total_len pkt in
    if not (ipv4_valid pkt)
    then ignored
    else if ltb (length pkt) (ihl + 8)
    then ignored
    else if ltb total (ihl + 8)
    then ignored
    else if not (byte pkt 9 == 17)
    then ignored
    else inbound_udp pkt ihl total

-- `ParseIp`, from a character on. The characters are those before the closing zero.
unfoldable pub parse_octets : List ℕ → ℕ → ℕ → ℕ → ℕ
parse_octets [] v oct cur =
    if ltb 255 cur || ltb 3 oct then 0 else if oct + 1 == 4 then u32 (v * 256) + cur else 0
parse_octets (ch ∷ rest) v oct cur =
    let digit = parse_octets rest v oct (cur * 10 + (ch - 48)) in
    let dot = parse_octets rest (u32 (v * 256) + cur) (oct + 1) 0 in
    if leb 48 ch && leb ch 57
    then digit
    else if ch == 46
    then (if ltb 255 cur || ltb 3 oct then 0 else dot)
    else 0

unfoldable pub parse_virtual_ip : List ℕ → ℕ
unfolding parse_octets
parse_virtual_ip s = parse_octets s 0 0 0
