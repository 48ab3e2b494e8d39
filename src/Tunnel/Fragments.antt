-- ===== src/Tunnel/Fragments.antt =====
-- Fragments as they are read, and two of them in one entry.
use sys_slp_client.Base.{
  ℕ, ◌+◌, ◌≤◌, ◌<◌, ◌≡◌, refl, sym, ap, ◌∙◌, true, false, none, some, List, ◌++◌, length,
  length-append, length-replicate, length-take, take, drop, take_exact, drop_exact, take_all, ltb,
  arith, append_assoc, le→leb, eq→==,
}
use sys_slp_client.Tunnel.Codec.{frame_ipv4_frag, slp_mtu, rd16be, rd32be}
use sys_slp_client.Tunnel.Parsing.{be16-bytes16, be32-bytes32}
use sys_slp_client.Tunnel.Reassembly.{
  FragEntry, Fragment, holds, zero_entry, frag_data_size, fresh_entry, parse_frag, copy_at,
  fix_geometry, write_part, complete, rebuilt_size, store_part,
}
use sys_slp_client.Tunnel.Guards.{fields, parse_frag_lem, bad_total, bad_stride, bad_length}

-- A fragment of a packet in `total` parts of 1400 bytes.
abbrev pub part_of : ℕ → ℕ → ℕ → ℕ → List ℕ → Fragment
part_of src id part total chunk = record {
  src = src;
  id = id;
  part = part;
  total = total;
  pmtu = slp_mtu;
  chunk = chunk;
}

module _ (src dst id part total : ℕ) (chunk : List ℕ) (a : src < 4294967296) (b : id < 65536)
    (c : part < total) (d : total ≤ 4) (e : length chunk ≤ slp_mtu) where
  abbrev body : List ℕ
  body = drop 1 (frame_ipv4_frag src dst id part total chunk)

  body-length : ltb (length body) 16 ≡ false
  unfolding frame_ipv4_frag
  body-length = ground arith

  body-total : bad_total body ≡ false
  unfolding frame_ipv4_frag
  body-total = ground arith

  body-stride : bad_stride body ≡ false
  unfolding frame_ipv4_frag rd16be
  body-stride = refl

  body-bad_length : bad_length body ≡ false
  unfolding frame_ipv4_frag rd16be
  body-bad_length = ground arith

  body-fields : fields body ≡ part_of src id part total chunk
  unfolding frame_ipv4_frag rd16be rd32be
  body-fields = λ i. record {
    src = be32-bytes32 src a i;
    id = be16-bytes16 id b i;
    part = part;
    total = total;
    pmtu = slp_mtu;
    chunk =
        (ap (λ k. take k chunk) (be16-bytes16 (length chunk) (omega arith))
            ∙ take_all (length chunk) chunk (omega arith))
          i;
  }

  -- OnFrag reads what slpFrameIpv4Frag wrote, after the type byte.
  pub parse_frag-frame_ipv4_frag :
      parse_frag (drop 1 (frame_ipv4_frag src dst id part total chunk))
      ≡ some (part_of src id part total chunk)
  parse_frag-frame_ipv4_frag =
      parse_frag_lem body
      ∙ rw (body-length, body-total, body-stride, body-bad_length) (ap some body-fields)

copy_at_lem :
    (d : List ℕ) (off : ℕ) (bytes : List ℕ)
    → copy_at d off bytes ≡ (take off d ++ bytes) ++ drop (off + length bytes) d
unfolding copy_at
copy_at_lem d off bytes = refl

-- Two copies that meet at 1400, in either order, into a buffer that is long enough.
module _ (d first second : List ℕ) (w : length d ≡ frag_data_size)
    (h : length first ≡ slp_mtu) where
  cut_exactly :
      (rest : List ℕ) → take (slp_mtu + length second) ((first ++ second) ++ rest) ≡ first ++ second
  cut_exactly rest =
      take_exact (slp_mtu + length second) (first ++ second) rest
        (omega (arith, length-append first second))

  take-low : take slp_mtu (copy_at d 0 first) ≡ first
  take-low =
      ap (take slp_mtu) (copy_at_lem d 0 first)
      ∙ take_exact slp_mtu first (drop (0 + length first) d) h

  low_high :
      take (slp_mtu + length second) (copy_at (copy_at d 0 first) slp_mtu second) ≡ first ++ second
  low_high =
      ap (take (slp_mtu + length second)) (copy_at_lem (copy_at d 0 first) slp_mtu second)
      ∙ ap
          (λ x.
            take (slp_mtu + length second)
              ((x ++ second) ++ drop (slp_mtu + length second) (copy_at d 0 first)))
          take-low
      ∙ cut_exactly (drop (slp_mtu + length second) (copy_at d 0 first))

  abbrev beyond : List ℕ
  beyond = drop (slp_mtu + length second) d

  drop-high : drop slp_mtu (copy_at d slp_mtu second) ≡ second ++ beyond
  drop-high =
      ap (drop slp_mtu) (copy_at_lem d slp_mtu second ∙ append_assoc (take slp_mtu d) second beyond)
      ∙ drop_exact slp_mtu (take slp_mtu d) (second ++ beyond)
          (omega (arith, length-take slp_mtu d))

  high_low :
      take (slp_mtu + length second) (copy_at (copy_at d slp_mtu second) 0 first) ≡ first ++ second
  high_low =
      ap (take (slp_mtu + length second)) (
        copy_at_lem (copy_at d slp_mtu second) 0 first
        ∙ ap (λ n. first ++ drop n (copy_at d slp_mtu second)) {y = slp_mtu} (omega arith)
        ∙ ap (◌++◌ first) drop-high
        ∙ sym (append_assoc first second beyond))
      ∙ cut_exactly beyond

module _ (now later src id : ℕ) (first second : List ℕ) (h : length first ≡ slp_mtu)
    (k : length second ≤ slp_mtu) where
  abbrev empty : FragEntry
  empty = fresh_entry now src id

  abbrev low : Fragment
  low = part_of src id 0 2 first

  abbrev high : Fragment
  high = part_of src id 1 2 second

  -- The entry after the first part, or after the second.
  abbrev pub with_low : FragEntry
  with_low = write_part later low (fix_geometry low empty)

  abbrev pub with_high : FragEntry
  with_high = write_part later high (fix_geometry high empty)

  pub store_part-low : store_part later low empty ≡ (with_low, none)
  unfolding store_part fresh_entry complete write_part fix_geometry
  store_part-low = refl

  pub store_part-high : store_part later high empty ≡ (with_high, none)
  unfolding store_part fresh_entry complete write_part fix_geometry
  store_part-high = refl

  zeros : length zero_entry.buffer ≡ frag_data_size
  zeros = length-replicate frag_data_size (let z : ℕ = 0 in z)

  -- The packet that both parts make.
  abbrev pub joined : List ℕ
  joined = first ++ second

  pub store_part-low_high : (later' : ℕ) → (store_part later' high with_low).1 ≡ some joined
  unfolding store_part fresh_entry complete write_part fix_geometry rebuilt_size
  store_part-low_high later' =
      rw (le→leb (slp_mtu + length second) frag_data_size (omega arith))
        (ap some (low_high zero_entry.buffer first second zeros h))

  pub store_part-high_low : (later' : ℕ) → (store_part later' low with_high).1 ≡ some joined
  unfolding store_part fresh_entry complete write_part fix_geometry rebuilt_size
  store_part-high_low later' =
      rw (le→leb (slp_mtu + length second) frag_data_size (omega arith))
        (ap some (high_low zero_entry.buffer first second zeros h))

  -- Either entry still stands for the datagram, as of the tick of its part.
  pub with_low-held : (holds src id with_low ≡ true) × (with_low.last_tick ≡ later)
  unfolding holds fresh_entry write_part fix_geometry
  with_low-held = (rw (eq→== src src refl, eq→== id id refl) refl, refl)

  pub with_high-held : (holds src id with_high ≡ true) × (with_high.last_tick ≡ later)
  unfolding holds fresh_entry write_part fix_geometry
  with_high-held = (rw (eq→== src src refl, eq→== id id refl) refl, refl)
