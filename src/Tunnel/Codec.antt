-- ===== src/Tunnel/Codec.antt =====
-- slp_client.c: the frames of the relay protocol. A buffer with its length is the list of its bytes.
use sys_slp_client.Base.{
  ℕ, zero, suc, ◌+◌, ◌-◌, ◌*◌, ◌/◌, ◌%◌, Bool, true, false, ◌==◌, ltb, leb, if◌then◌else◌, Option,
  none, some, List, [], ◌∷◌, ◌++◌, length, get_or, take, drop, u8, be16, be32, min,
}

abbrev pub type_keepalive : ℕ
type_keepalive = 0

abbrev pub type_ipv4 : ℕ
type_ipv4 = 1

abbrev pub type_ping : ℕ
type_ping = 2

abbrev pub type_ipv4_frag : ℕ
type_ipv4_frag = 3

-- `SLP_MTU`.
abbrev pub slp_mtu : ℕ
slp_mtu = 1400

-- `p[i]`, for an index that the code has checked.
abbrev pub byte : List ℕ → ℕ → ℕ
byte p i = get_or p i 0

-- The big-endian bytes of a word.
abbrev pub bytes16 : ℕ → List ℕ
bytes16 v = u8 (v / 256) ∷ u8 v ∷ []

abbrev pub bytes32 : ℕ → List ℕ
bytes32 v = u8 (v / 16777216) ∷ u8 (v / 65536) ∷ u8 (v / 256) ∷ u8 v ∷ []

unfoldable pub frame_keepalive : List ℕ
frame_keepalive = type_keepalive ∷ []

unfoldable pub frame_ping : ℕ → List ℕ
frame_ping ts = type_ping ∷ bytes32 ts

-- An empty packet makes no frame.
unfoldable pub frame_ipv4 : List ℕ → List ℕ
frame_ipv4 [] = []
frame_ipv4 (b ∷ packet) = type_ipv4 ∷ b ∷ packet

unfoldable pub frame_ipv4_frag : ℕ → ℕ → ℕ → ℕ → ℕ → List ℕ → List ℕ
frame_ipv4_frag src dst id part total_part chunk =
    type_ipv4_frag ∷ bytes32 src
    ++ bytes32 dst
    ++ bytes16 id
    ++ part ∷ total_part ∷ bytes16 (length chunk)
    ++ bytes16 slp_mtu
    ++ chunk

-- The type of a frame; `none` for -1.
unfoldable pub frame_type : List ℕ → Option ℕ
frame_type [] = none
frame_type (b ∷ _) = some (b % 128)

unfoldable pub ipv4_valid : List ℕ → Bool
ipv4_valid pkt =
    let ihl = byte pkt 0 % 16 * 4 in
    if ltb (length pkt) 20
    then false
    else if byte pkt 0 / 16 == 4
    then (if ltb ihl 20 then false else leb ihl (length pkt))
    else false

unfoldable pub rd32be : List ℕ → ℕ → ℕ
rd32be p i = be32 (byte p i) (byte p (i + 1)) (byte p (i + 2)) (byte p (i + 3))

unfoldable pub rd16be : List ℕ → ℕ → ℕ
rd16be p i = be16 (byte p i) (byte p (i + 1))

unfoldable pub ipv4_src : List ℕ → ℕ
unfolding rd32be
ipv4_src pkt = rd32be pkt 12

unfoldable pub ipv4_dst : List ℕ → ℕ
unfolding rd32be
ipv4_dst pkt = rd32be pkt 16

unfoldable pub ipv4_total_len : List ℕ → ℕ
unfolding rd16be
ipv4_total_len pkt = if leb (rd16be pkt 2) (length pkt) then rd16be pkt 2 else length pkt

-- Frames are handed to `slpClientSendRaw`, which says whether it sent them; the list holds what was handed over.
abbrev pub Sent : Type 0
Sent = Bool × List (List ℕ)

abbrev pub before : List ℕ → Sent → Sent
before frame (ok, frames) = (ok, frame ∷ frames)

-- The loop over the chunks, from a part's offset on.
unfoldable pub send_parts : (List ℕ → Bool) → List ℕ → ℕ → ℕ → ℕ → ℕ → Sent
unfolding frame_ipv4_frag ipv4_src ipv4_dst rd16be
send_parts raw pkt total zero offset part = (true, [])
send_parts raw pkt total (suc fuel) offset part =
    let chunk = min (length pkt - offset) slp_mtu in
    let frame =
      frame_ipv4_frag (ipv4_src pkt) (ipv4_dst pkt) (rd16be pkt 4) part total
        (take chunk (drop offset pkt)) in
    let rest = send_parts raw pkt total fuel (offset + chunk) (u8 (part + 1)) in
    if ltb offset (length pkt)
    then (if raw frame then before frame rest else (false, frame ∷ []))
    else (true, [])

unfoldable pub send_whole : (List ℕ → Bool) → List ℕ → Sent
send_whole raw [] = (false, [])
send_whole raw (b ∷ frame) = (raw (b ∷ frame), (b ∷ frame) ∷ [])

-- `total_u`.
abbrev pub parts_of : ℕ → ℕ
parts_of len = (len + slp_mtu - 1) / slp_mtu

-- Each round of the loop takes at least one byte, so the packet's length is enough fuel.
unfoldable pub send_ipv4 : (List ℕ → Bool) → List ℕ → Sent
unfolding send_parts send_whole frame_ipv4
send_ipv4 raw pkt =
    let total = parts_of (length pkt) in
    if leb (length pkt) slp_mtu
    then send_whole raw (frame_ipv4 pkt)
    else if ltb 255 total
    then (false, [])
    else send_parts raw pkt total (length pkt) 0 0
