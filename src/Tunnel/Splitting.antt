-- ===== src/Tunnel/Splitting.antt =====
-- slpClientSendIpv4 on a packet for two frames.
use sys_slp_client.Base.{
  ℕ, zero, suc, ◌+◌, ◌-◌, ◌*◌, ◌≤◌, ◌<◌, ◌≡◌, refl, ap, ap₂, ◌∙◌, Bool, true, false, List, [], ◌∷◌,
  length, length-drop, take, drop, take_all, min, u8, ltb, leb, if◌then◌else◌, arith, le→leb_false,
  lt→ltb, le→ltb_false,
}
use sys_slp_client.Tunnel.Codec.{
  frame_ipv4_frag, frame_ipv4, slp_mtu, ipv4_src, ipv4_dst, rd16be, send_ipv4, send_parts,
  send_whole, before, parts_of, Sent,
}

pub send_ipv4_lem :
    (raw : List ℕ → Bool) (pkt : List ℕ)
    → send_ipv4 raw pkt ≡ (
        if leb (length pkt) slp_mtu
        then send_whole raw (frame_ipv4 pkt)
        else if ltb 255 (parts_of (length pkt))
        then (false, [])
        else send_parts raw pkt (parts_of (length pkt)) (length pkt) 0 0)
unfolding send_ipv4
send_ipv4_lem raw pkt = refl

-- The two fragments of a packet.
abbrev pub low_frame : List ℕ → List ℕ
low_frame pkt = frame_ipv4_frag (ipv4_src pkt) (ipv4_dst pkt) (rd16be pkt 4) 0 2 (take slp_mtu pkt)

abbrev pub high_frame : List ℕ → List ℕ
high_frame pkt = frame_ipv4_frag (ipv4_src pkt) (ipv4_dst pkt) (rd16be pkt 4) 1 2 (drop slp_mtu pkt)

module _ (pkt : List ℕ) (big : slp_mtu < length pkt) (small : length pkt ≤ 2 * slp_mtu) where
  send_parts_step :
      (total fuel offset part : ℕ)
      → offset < length pkt
      → let chunk = min (length pkt - offset) slp_mtu in
        send_parts (λ _. true) pkt total (suc fuel) offset part
        ≡ before
            (frame_ipv4_frag
              (ipv4_src pkt)
              (ipv4_dst pkt)
              (rd16be pkt 4)
              part
              total
              (take chunk (drop offset pkt)))
            (send_parts (λ _. true) pkt total fuel (offset + chunk) (u8 (part + 1)))
  unfolding send_parts
  send_parts_step total fuel offset part h = rw (lt→ltb offset (length pkt) h) refl

  send_parts_end :
      (total fuel offset part : ℕ)
      → length pkt ≤ offset
      → send_parts (λ _. true) pkt total fuel offset part ≡ (true, [])
  unfolding send_parts
  send_parts_end total zero offset part h = refl
  send_parts_end total (suc fuel) offset part h = rw (le→ltb_false offset (length pkt) h) refl

  abbrev part_frame : ℕ → List ℕ → List ℕ
  part_frame part chunk = frame_ipv4_frag (ipv4_src pkt) (ipv4_dst pkt) (rd16be pkt 4) part 2 chunk

  abbrev rest_of : ℕ → ℕ → ℕ → Sent
  rest_of fuel offset part = send_parts (λ _. true) pkt 2 fuel offset part

  last_part : (fuel : ℕ) → rest_of (suc fuel) slp_mtu 1 ≡ (true, high_frame pkt ∷ [])
  last_part fuel =
      let chunk = min (length pkt - slp_mtu) slp_mtu in
      send_parts_step 2 fuel slp_mtu 1 big
      ∙ ap₂ before
          (ap (part_frame 1)
            (take_all chunk (drop slp_mtu pkt) (omega (arith, length-drop slp_mtu pkt))))
          (send_parts_end 2 fuel (slp_mtu + chunk) 2 (omega arith))

  two_parts : rest_of (length pkt) 0 0 ≡ (true, low_frame pkt ∷ high_frame pkt ∷ [])
  two_parts =
      ap (λ f. rest_of f 0 0) {y = suc (suc (length pkt - 2))} (omega arith)
      ∙ send_parts_step 2 (suc (length pkt - 2)) 0 0 (omega arith)
      ∙ ap (λ c. before (part_frame 0 (take c pkt)) (rest_of (suc (length pkt - 2)) (0 + c) 1))
          {y = slp_mtu} (omega arith)
      ∙ ap (before (low_frame pkt)) (last_part (length pkt - 2))

  pub send_ipv4-two_parts : send_ipv4 (λ _. true) pkt ≡ (true, low_frame pkt ∷ high_frame pkt ∷ [])
  send_ipv4-two_parts =
      send_ipv4_lem (λ _. true) pkt
      ∙ rw (le→leb_false (length pkt) slp_mtu big) (
          ap (λ n. if ltb 255 n then (false, []) else send_parts (λ _. true) pkt n (length pkt) 0 0)
            {y = 2} (omega arith)
          ∙ two_parts)
