-- ===== src/Ldn/Wire.antt =====
-- SendFrame and OnControlFrame together.
use sys_slp_client.Base.{
  ℕ, ◌+◌, ◌≤◌, ◌<◌, ◌≡◌, refl, sym, ap, ap₂, ◌∙◌, true, false, not, ◌==◌, ltb, if◌then◌else◌,
  Option, none, some, List, [], ◌∷◌, ◌++◌, length, get_or, take, drop, take_all, u16, arith, eq→==,
  append-nil,
}
use sys_slp_client.Ldn.Rle.{compress, decompress}
use sys_slp_client.Ldn.Frames.{
  header_size, lan_magic, lan_packet_header, frame_with, send_frame, on_control_frame, unpacked,
  read16, read32,
}
use sys_slp_client.Ldn.Inflate.{Compresses, packs, compress-Compresses}

on_control_frame_lem :
    (info_size : ℕ) (p : List ℕ)
    → on_control_frame info_size p ≡ (
        if ltb (length p) header_size
        then none
        else if not (read32 p 0 == lan_magic)
        then none
        else if ltb (length p) (header_size + read16 p 6)
        then none
        else if not (get_or p 5 0 == 0)
        then unpacked
            (get_or p 4 0)
            (read16 p 10)
            (read16 p 8)
            (decompress info_size (take (read16 p 6) (drop header_size p)))
        else some (get_or p 4 0, read16 p 10, take (read16 p 6) (drop header_size p)))
unfolding on_control_frame
on_control_frame_lem info_size p = refl

module _ (type c len want seq : ℕ) (tail : List ℕ) (a : len ≡ length tail) (b : len < 65536)
    (d : want < 65536) (e : seq < 65536) where
  abbrev p : List ℕ
  p = lan_packet_header type c len want seq ++ tail

  p-magic : (read32 p 0 == lan_magic) ≡ true
  unfolding lan_packet_header read32 read16
  p-magic = refl

  p-length : length p ≡ header_size + length tail
  unfolding lan_packet_header
  p-length = omega arith

  p-read : (read16 p 6 ≡ len) × (read16 p 8 ≡ want) × (read16 p 10 ≡ seq)
  unfolding lan_packet_header read16
  p-read = (omega arith, omega arith, omega arith)

  p-bytes : (get_or p 4 0 ≡ type) × (get_or p 5 0 ≡ c) × (drop header_size p ≡ tail)
  unfolding lan_packet_header
  p-bytes = (refl, refl, refl)

  p-body : take (read16 p 6) (drop header_size p) ≡ tail
  p-body =
      ap₂ take {y = length tail} (omega (arith, p-read.0)) p-bytes.2
      ∙ take_all (length tail) tail (omega arith)

  header-read :
      (info_size : ℕ)
      → on_control_frame info_size p ≡ (
          if not (c == 0)
          then unpacked type seq want (decompress info_size tail)
          else some (type, seq, tail))
  header-read info_size =
      on_control_frame_lem info_size p
      ∙ rw (long, p-magic, whole, p-body, p-bytes.0, p-bytes.1, p-read.1, p-read.2) refl
    where
      long : ltb (length p) header_size ≡ false
      long = ground (arith, p-length)

      whole : ltb (length p) (header_size + read16 p 6) ≡ false
      whole = ground (arith, p-length, p-read.0)

unpacked_lem :
    (type seq want : ℕ) (body : List ℕ)
    → want ≡ length body
    → unpacked type seq want (some body) ≡ some (type, seq, body)
unfolding unpacked
unpacked_lem type seq want body h = rw (eq→== (length body) want (sym h)) refl

module _ (info_size type seq : ℕ) (body : List ℕ) (h : length body ≤ info_size)
    (k : info_size < 65536) (e : seq < 65536) where
  frame_with-read :
      (o : Option (List ℕ))
      → Compresses info_size body o
      → on_control_frame info_size (frame_with type seq body o) ≡ some (type, seq, body)
  unfolding frame_with
  frame_with-read none q =
      header-read type 0 (u16 (length body)) 0 seq body (omega arith) (omega arith) (omega arith) e
        info_size
  frame_with-read _ (packs packed q) =
      header-read type 1 (u16 (length packed)) (u16 (length body)) seq packed
        (omega (arith, q.in_room)) (omega arith) (omega arith) e info_size
      ∙ ap (unpacked type seq (u16 (length body))) (q.back info_size h)
      ∙ unpacked_lem type seq (u16 (length body)) body (omega arith)

-- OnControlFrame reads the type, the counter and the body of every frame that SendFrame makes, whether or not the body was compressed, for bodies that
-- fit a NetworkInfo.
pub on_control_frame-send_frame :
    (info_size type seq : ℕ) (body : List ℕ)
    → length body ≤ info_size
    → info_size < 65536
    → seq < 65536
    → on_control_frame info_size (send_frame info_size type seq body) ≡ some (type, seq, body)
unfolding send_frame
on_control_frame-send_frame info_size type seq [] h k e =
    ap (on_control_frame info_size) (sym (append-nil (lan_packet_header type 0 0 0 seq)))
    ∙ header-read type 0 0 0 seq [] refl (omega arith) (omega arith) e info_size
on_control_frame-send_frame info_size type seq (b ∷ body) h k e =
    frame_with-read info_size type seq (b ∷ body) h k e (compress info_size (b ∷ body))
      (compress-Compresses info_size (b ∷ body))
