-- ===== src/Ldn/Frames.antt =====
-- ldn_control.cpp: the frames that SendFrame writes and OnControlFrame reads. The header is packed, in the machine's
-- little-endian order.
use sys_slp_client.Base.{
  ℕ, ◌+◌, ◌*◌, ◌/◌, not, ◌==◌, ltb, if◌then◌else◌, Option, none, some, List, [], ◌∷◌, ◌++◌, length,
  get_or, take, drop, u8, u16,
}
use sys_slp_client.Ldn.Rle.{compress, decompress}

-- `sizeof(LanPacketHeader)`. `info_size` below is `sizeof(NetworkInfo)`, which is up to the compiler (1152 without padding).
abbrev pub header_size : ℕ
header_size = 12

abbrev pub lan_magic : ℕ
lan_magic = 0x11451400

abbrev pub le16 : ℕ → List ℕ
le16 v = u8 v ∷ u8 (v / 256) ∷ []

abbrev pub le32 : ℕ → List ℕ
le32 v = u8 v ∷ u8 (v / 256) ∷ u8 (v / 65536) ∷ u8 (v / 16777216) ∷ []

unfoldable pub read16 : List ℕ → ℕ → ℕ
read16 p i = get_or p i 0 + get_or p (i + 1) 0 * 256

unfoldable pub read32 : List ℕ → ℕ → ℕ
unfolding read16
read32 p i = read16 p i + read16 p (i + 2) * 65536

unfoldable pub lan_packet_header : ℕ → ℕ → ℕ → ℕ → ℕ → List ℕ
lan_packet_header type compressed len decompress_length seq =
    le32 lan_magic ++ type ∷ compressed ∷ le16 len ++ le16 decompress_length ++ le16 seq

-- A body that does not shrink into the buffer goes out as it is.
unfoldable pub frame_with : ℕ → ℕ → List ℕ → Option (List ℕ) → List ℕ
unfolding lan_packet_header
frame_with type seq body none = lan_packet_header type 0 (u16 (length body)) 0 seq ++ body
frame_with type seq body (some packed) =
    lan_packet_header type 1 (u16 (length packed)) (u16 (length body)) seq ++ packed

-- What SendFrame hands to the tunnel, for the counter's value `seq`.
unfoldable pub send_frame : ℕ → ℕ → ℕ → List ℕ → List ℕ
unfolding lan_packet_header frame_with compress
send_frame info_size type seq [] = lan_packet_header type 0 0 0 seq
send_frame info_size type seq (b ∷ body) =
    frame_with type seq (b ∷ body) (compress info_size (b ∷ body))

-- The counter, which skips 0.
unfoldable pub next_seq : ℕ → ℕ
next_seq tx_seq = if u16 (tx_seq + 1) == 0 then 1 else u16 (tx_seq + 1)

-- What OnControlFrame dispatches: the type, the counter and the body.
abbrev pub Frame : Type 0
Frame = ℕ × ℕ × List ℕ

unfoldable pub unpacked : ℕ → ℕ → ℕ → Option (List ℕ) → Option Frame
unpacked type seq want none = none
unpacked type seq want (some body) = if length body == want then some (type, seq, body) else none

unfoldable pub on_control_frame : ℕ → List ℕ → Option Frame
unfolding read16 read32 unpacked decompress
on_control_frame info_size payload =
    let len = read16 payload 6 in
    let body = take len (drop header_size payload) in
    if ltb (length payload) header_size
    then none
    else if not (read32 payload 0 == lan_magic)
    then none
    else if ltb (length payload) (header_size + len)
    then none
    else if not (get_or payload 5 0 == 0)
    then unpacked (get_or payload 4 0) (read16 payload 10) (read16 payload 8)
        (decompress info_size body)
    else some (get_or payload 4 0, read16 payload 10, body)
