-- ===== src/Tunnel/Rejoining.antt =====
-- OnFrag on the two fragments of a packet.
use sys_slp_client.Base.{
  ℕ, zero, suc, ◌+◌, ◌*◌, ◌≤◌, ◌<◌, ◌≡◌, refl, ap, ap₂, ◌∙◌, true, Option, none, some, List, [],
  ◌∷◌, ◌++◌, map, length, length-map, length-take, length-drop, take-drop, get_or, take, drop,
  arith,
}
use sys_slp_client.Ring.{modify}
use sys_slp_client.Ring.Window.{get_or-modify_self}
use sys_slp_client.Tunnel.Codec.{slp_mtu, ipv4_src, ipv4_dst, rd16be}
use sys_slp_client.Tunnel.Reassembly.{
  FragEntry, Fragment, zero_entry, expire, fresh_entry, find_frag_entry, store_part, store_at,
  on_parsed, on_frag, holds, frag_timeout_ticks, parse_frag,
}
use sys_slp_client.Tunnel.Table.{
  Unknown, InTime, expired-Unknown, find_frag_entry-Unknown, find_frag_entry-known,
}
use sys_slp_client.Tunnel.Fragments.{
  part_of, parse_frag-frame_ipv4_frag, with_low, with_high, store_part-low, store_part-high,
  store_part-low_high, store_part-high_low, with_low-held, with_high-held,
}
use sys_slp_client.Tunnel.Splitting.{low_frame, high_frame}

modify_twice :
    (es : List FragEntry) (i : ℕ) (a b : FragEntry)
    → modify (modify es i (λ _. a)) i (λ _. b) ≡ modify es i (λ _. b)
modify_twice [] i a b = refl
modify_twice (e ∷ es) zero a b = refl
modify_twice (e ∷ es) (suc i) a b = ap (◌∷◌ e) (modify_twice es i a b)

store_at_lem :
    (later : ℕ) (f : Fragment) (i : ℕ) (es : List FragEntry)
    → store_at later f (some i, es) ≡ (
      modify es i (λ _. (store_part later f (get_or es i zero_entry)).0),
      (store_part later f (get_or es i zero_entry)).1,
    )
unfolding store_at
store_at_lem later f i es = refl

-- A part that is parsed, found a place, and stored there.
stored_at :
    (now later : ℕ) (payload : List ℕ) (f : Fragment) (i : ℕ) (e e' : FragEntry)
    (o : Option (List ℕ)) (es base : List FragEntry)
    → parse_frag payload ≡ some f
    → find_frag_entry now f.src f.id es ≡ (some i, modify base i (λ _. e))
    → i < length base
    → store_part later f e ≡ (e', o)
    → on_frag now later payload es ≡ (modify base i (λ _. e'), o)
unfolding on_frag on_parsed
stored_at now later payload f i e e' o es base read found below stored =
    rw (read, found)
      (store_at_lem later f i (modify base i (λ _. e))
        ∙ ap (put (modify base i (λ _. e)))
            (ap (store_part later f) (get_or-modify_self base i (λ _. e) zero_entry below) ∙ stored)
        ∙ ap (λ es'. (es', o)) (modify_twice base i e e'))
  where
    put : List FragEntry → FragEntry × Option (List ℕ) → List FragEntry × Option (List ℕ)
    put es' out = (modify es' i (λ _. out.0), out.1)

-- The reassembly of such a packet at a console that holds no fragments of it, in either order, the second within a second.
module _ (pkt : List ℕ) (big : slp_mtu < length pkt) (small : length pkt ≤ 2 * slp_mtu)
    (es : List FragEntry) (now later now' later' : ℕ) (room : 0 < length es) (ticks : InTime es)
    (unknown : Unknown (ipv4_src pkt) (rd16be pkt 4) es) (src_in : ipv4_src pkt < 4294967296)
    (id_in : rd16be pkt 4 < 65536) (soon : now' ≤ later + frag_timeout_ticks) where
  abbrev low_part : Fragment
  low_part = part_of (ipv4_src pkt) (rd16be pkt 4) 0 2 (take slp_mtu pkt)

  abbrev high_part : Fragment
  high_part = part_of (ipv4_src pkt) (rd16be pkt 4) 1 2 (drop slp_mtu pkt)

  low_full : length (take slp_mtu pkt) ≡ slp_mtu
  low_full = omega (arith, length-take slp_mtu pkt)

  high_short : length (drop slp_mtu pkt) ≤ slp_mtu
  high_short = omega (arith, length-drop slp_mtu pkt)

  low_read : parse_frag (drop 1 (low_frame pkt)) ≡ some low_part
  low_read =
      parse_frag-frame_ipv4_frag (ipv4_src pkt) (ipv4_dst pkt) (rd16be pkt 4) 0 2 (take slp_mtu pkt)
        src_in id_in (omega arith) (omega arith) (omega (arith, low_full))

  high_read : parse_frag (drop 1 (high_frame pkt)) ≡ some high_part
  high_read =
      parse_frag-frame_ipv4_frag (ipv4_src pkt) (ipv4_dst pkt) (rd16be pkt 4) 1 2 (drop slp_mtu pkt)
        src_in id_in (omega arith) (omega arith) high_short

  -- Two parts, the first of which makes the entry `e`.
  both :
      (a b : Fragment) (pa pb : List ℕ) (e : FragEntry)
      → parse_frag pa ≡ some a
      → parse_frag pb ≡ some b
      → (a.src ≡ ipv4_src pkt) × (a.id ≡ rd16be pkt 4)
      → (b.src ≡ ipv4_src pkt) × (b.id ≡ rd16be pkt 4)
      → store_part later a (fresh_entry now (ipv4_src pkt) (rd16be pkt 4)) ≡ (e, none)
      → (holds (ipv4_src pkt) (rd16be pkt 4) e ≡ true) × (e.last_tick ≡ later)
      → (store_part later' b e).1 ≡ some pkt
      → let first = on_frag now later pa es in
        (first.1 ≡ none) × ((on_frag now' later' pb first.0).1 ≡ some pkt)
  both a b pa pb e read_a read_b of_a of_b stored held done =
      let (i, found, below) =
        find_frag_entry-Unknown now (ipv4_src pkt) (rd16be pkt 4) es room ticks unknown in
      let base : List FragEntry = map (expire now) es in
      let below_base : i < length base = omega (arith, length-map (expire now) es) in
      let first =
        stored_at now later pa a i (fresh_entry now (ipv4_src pkt) (rd16be pkt 4)) e none es base
          read_a (ap₂ (λ s d. find_frag_entry now s d es) of_a.0 of_a.1 ∙ found) below_base
          (stored) in
      let second =
        stored_at now' later' pb b i e (store_part later' b e).0 (some pkt) (modify base i (λ _. e))
          (map (expire now') base) read_b
          (ap₂ (λ s d. find_frag_entry now' s d (modify base i (λ _. e))) of_b.0 of_b.1
            ∙ find_frag_entry-known now' (ipv4_src pkt) (rd16be pkt 4) i e base below_base
                (expired-Unknown (ipv4_src pkt) (rd16be pkt 4) now es unknown) held.0
                (omega (arith, held.1)))
          (omega (arith, length-map (expire now') base))
          (ap (pair (store_part later' b e).0) done) in
      (
        ap (λ (x : List FragEntry × Option (List ℕ)). x.1) first,
        ap (λ (x : List FragEntry × Option (List ℕ)). (on_frag now' later' pb x.0).1) first
            ∙ ap (λ (x : List FragEntry × Option (List ℕ)). x.1) second,
      )
    where
      pair : FragEntry → Option (List ℕ) → FragEntry × Option (List ℕ)
      pair x o = (x, o)

  joined_pkt : take slp_mtu pkt ++ drop slp_mtu pkt ≡ pkt
  joined_pkt = take-drop slp_mtu pkt

  -- A packet of 1401 to 2800 bytes whose two fragments reach a console that holds no fragment of it is handed on exactly once and
  -- byte for byte, when the second arrives within a second of the first, in order,
  pub on_frag-in_order :
      let first = on_frag now later (drop 1 (low_frame pkt)) es in
      (first.1 ≡ none) × ((on_frag now' later' (drop 1 (high_frame pkt)) first.0).1 ≡ some pkt)
  on_frag-in_order =
      both low_part high_part (drop 1 (low_frame pkt)) (drop 1 (high_frame pkt))
        (with_low now later (ipv4_src pkt) (rd16be pkt 4) (take slp_mtu pkt) (drop slp_mtu pkt)
          low_full high_short)
        low_read high_read (refl, refl) (refl, refl)
        (store_part-low now later (ipv4_src pkt) (rd16be pkt 4) (take slp_mtu pkt)
          (drop slp_mtu pkt) low_full high_short)
        (with_low-held now later (ipv4_src pkt) (rd16be pkt 4) (take slp_mtu pkt) (drop slp_mtu pkt)
          low_full high_short)
        (store_part-low_high now later (ipv4_src pkt) (rd16be pkt 4) (take slp_mtu pkt)
            (drop slp_mtu pkt) low_full high_short later'
          ∙ ap some joined_pkt)

  -- and also in the opposite order.
  pub on_frag-reordered :
      let first = on_frag now later (drop 1 (high_frame pkt)) es in
      (first.1 ≡ none) × ((on_frag now' later' (drop 1 (low_frame pkt)) first.0).1 ≡ some pkt)
  on_frag-reordered =
      both high_part low_part (drop 1 (high_frame pkt)) (drop 1 (low_frame pkt))
        (with_high now later (ipv4_src pkt) (rd16be pkt 4) (take slp_mtu pkt) (drop slp_mtu pkt)
          low_full high_short)
        high_read low_read (refl, refl) (refl, refl)
        (store_part-high now later (ipv4_src pkt) (rd16be pkt 4) (take slp_mtu pkt)
          (drop slp_mtu pkt) low_full high_short)
        (with_high-held now later (ipv4_src pkt) (rd16be pkt 4) (take slp_mtu pkt)
          (drop slp_mtu pkt) low_full high_short)
        (store_part-high_low now later (ipv4_src pkt) (rd16be pkt 4) (take slp_mtu pkt)
            (drop slp_mtu pkt) low_full high_short later'
          ∙ ap some joined_pkt)
