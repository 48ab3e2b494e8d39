-- ===== src/Tunnel/RoundTrip.antt =====
-- From one console's Send to the other console's sockets, whole or in fragments.
use sys_slp_client.Base.{
  ℕ, ◌+◌, ◌*◌, ◌≤◌, ◌<◌, ◌≡◌, refl, sym, subst, ap, ◌∙◌, Bool, true, false, none, some, List, [],
  ◌∷◌, length, take, drop, take_all, u16, ltb, ◌==◌, if◌then◌else◌, arith, le→leb, le→ltb_false,
}
use sys_slp_client.Socket.State.{Route}
use sys_slp_client.Tunnel.Codec.{
  frame_ipv4_frag, frame_ipv4, slp_mtu, ipv4_src, ipv4_dst, rd16be, send_ipv4, send_whole, Sent,
  type_ipv4,
}
use sys_slp_client.Tunnel.Packet.{Inbound, ignored, inbound, ip_packet}
use sys_slp_client.Tunnel.Reassembly.{on_frag, frag_timeout_ticks}
use sys_slp_client.Tunnel.Exchange.{
  Tunnel, Calls, no_calls, route_back, frames, send_bytes, send, on_received, on_frame, inbound_of,
  is_loopback,
}
use sys_slp_client.Tunnel.Parsing.{InRange, expected, inbound-ip_packet, length-ip_packet}
use sys_slp_client.Tunnel.Table.{Unknown, InTime}
use sys_slp_client.Tunnel.Splitting.{low_frame, high_frame, send_ipv4-two_parts, send_ipv4_lem}
use sys_slp_client.Tunnel.Rejoining.{on_frag-in_order, on_frag-reordered}
use sys_slp_client.Tunnel.Parsing.{ipv4_src-ip_packet, id-ip_packet}

-- The route as it goes on the wire: a socket without an address has the console's.
abbrev pub wire_route : Tunnel → Route → Route
wire_route t route = record route {
  source_ip = if route.source_ip == 0 then t.local_ip else route.source_ip;
}

abbrev handed_over : Tunnel → Sent → Bool × Tunnel × Calls
handed_over t sent = (sent.0, record t { ip_id = u16 (t.ip_id + 1) }, frames sent.1)

send_shape :
    (t : Tunnel) (route : Route) (payload : List ℕ) (len : ℕ)
    → send (λ _. true) true t route (some payload) len ≡ (
        if ltb 2000 len
        then (false, t, no_calls)
        else if is_loopback route.dest_ip
        then (true, t, route_back (record route { source_ip = route.dest_ip }) (take len payload))
        else handed_over t
            (send_ipv4 (λ _. true) (ip_packet t.ip_id (wire_route t route) (take len payload))))
unfolding send send_bytes
send_shape t route payload len = refl

-- What Send does for a datagram that goes to the relay.
send_lem :
    (t : Tunnel) (route : Route) (payload : List ℕ)
    → length payload ≤ 2000
    → is_loopback route.dest_ip ≡ false
    → send (λ _. true) true t route (some payload) (length payload)
      ≡ handed_over t (send_ipv4 (λ _. true) (ip_packet t.ip_id (wire_route t route) payload))
send_lem t route payload h out =
    send_shape t route payload (length payload)
    ∙ rw (le→ltb_false 2000 (length payload) h, out)
        (ap (λ p. handed_over t (send_ipv4 (λ _. true) (ip_packet t.ip_id (wire_route t route) p)))
          (take_all (length payload) payload (omega arith)))

framed :
    (b : ℕ) (pkt : List ℕ)
    → send_whole (λ _. true) (frame_ipv4 (b ∷ pkt)) ≡ (true, (type_ipv4 ∷ b ∷ pkt) ∷ [])
unfolding send_whole frame_ipv4
framed b pkt = refl

-- A frame that carries a whole packet.
whole_sent :
    (pkt : List ℕ)
    → 0 < length pkt
    → length pkt ≤ slp_mtu
    → send_ipv4 (λ _. true) pkt ≡ (true, (type_ipv4 ∷ pkt) ∷ [])
whole_sent [] h k = absurd (omega arith)
whole_sent (b ∷ pkt) h k =
    send_ipv4_lem (λ _. true) (b ∷ pkt) ∙ rw (le→leb (length (b ∷ pkt)) slp_mtu k) (framed b pkt)

inbound_of-none : inbound_of none ≡ ignored
unfolding inbound_of
inbound_of-none = refl

inbound_of-some : (pkt : List ℕ) → inbound_of (some pkt) ≡ inbound pkt
unfolding inbound_of
inbound_of-some pkt = refl

whole_received :
    (now later : ℕ) (pkt : List ℕ) (t : Tunnel)
    → 0 < length pkt
    → on_received now later (type_ipv4 ∷ pkt) t ≡ (t, inbound pkt)
unfolding on_received on_frame
whole_received now later [] t h = absurd (omega arith)
whole_received now later (b ∷ pkt) t h = refl

fragment_received :
    (now later src dst id part total : ℕ) (chunk : List ℕ) (t : Tunnel)
    → let frame = frame_ipv4_frag src dst id part total chunk in
      let out = on_frag now later (drop 1 frame) t.frags in
      on_received now later frame t ≡ (record t { frags = out.0 }, inbound_of out.1)
unfolding on_received on_frame frame_ipv4_frag
fragment_received now later src dst id part total chunk t = refl

module _ (t : Tunnel) (route : Route) (payload : List ℕ) (peer : Tunnel)
    (in_range : InRange (wire_route t route)) (out : is_loopback route.dest_ip ≡ false) where
  abbrev pkt : List ℕ
  pkt = ip_packet t.ip_id (wire_route t route) payload

  pkt-length : length pkt ≡ 28 + length payload
  pkt-length = length-ip_packet t.ip_id (wire_route t route) payload

  -- A datagram of at most 1372 bytes that does not go to a loopback address, with a relay socket that takes every frame: Send succeeds
  -- with one frame, and the console that receives it reads the datagram back, with the sender's addresses, both ports and all bytes.
  pub send-on_received :
      (now later : ℕ)
      → length payload ≤ 1372
      → let sent = send (λ _. true) true t route (some payload) (length payload) in
        (sent.0 ≡ true)
        × (sent.2 ≡ frames ((type_ipv4 ∷ pkt) ∷ []))
        × (on_received now later (type_ipv4 ∷ pkt) peer
            ≡ (peer, expected (wire_route t route) payload))
  send-on_received now later h =
      let made =
        send_lem t route payload (omega arith) out
        ∙ ap (handed_over t)
            (whole_sent pkt (omega (arith, pkt-length)) (omega (arith, pkt-length))) in
      (
        ap (λ (x : Bool × Tunnel × Calls). x.0) made,
        ap (λ (x : Bool × Tunnel × Calls). x.2) made,
        whole_received now later pkt peer (omega (arith, pkt-length))
            ∙ ap (λ i. (peer, i))
                (inbound-ip_packet t.ip_id (wire_route t route) payload in_range (omega arith)),
      )

  module _ (now later now' later' : ℕ) (big : 1372 < length payload) (small : length payload ≤ 2000)
      (id_in : t.ip_id < 65536) (room : 0 < length peer.frags) (ticks : InTime peer.frags)
      (unknown : Unknown (wire_route t route).source_ip t.ip_id peer.frags)
      (soon : now' ≤ later + frag_timeout_ticks) where
    over : slp_mtu < length pkt
    over = omega (arith, pkt-length)

    under : length pkt ≤ 2 * slp_mtu
    under = omega (arith, pkt-length)

    src_eq : ipv4_src pkt ≡ (wire_route t route).source_ip
    src_eq = ipv4_src-ip_packet t.ip_id (wire_route t route) payload in_range

    id_eq : rd16be pkt 4 ≡ t.ip_id
    id_eq = id-ip_packet t.ip_id (wire_route t route) payload id_in

    src_in : ipv4_src pkt < 4294967296
    src_in = omega (arith, src_eq, in_range.source)

    id_in_pkt : rd16be pkt 4 < 65536
    id_in_pkt = omega (arith, id_eq)

    pkt-Unknown : Unknown (ipv4_src pkt) (rd16be pkt 4) peer.frags
    pkt-Unknown =
        subst (λ s. Unknown s (rd16be pkt 4) peer.frags) (sym src_eq)
          (subst (λ d. Unknown (wire_route t route).source_ip d peer.frags) (sym id_eq) unknown)

    -- Two frames that arrive in turn; the second hands the packet on.
    arrived :
        (src dst id part total src' dst' id' part' total' : ℕ) (chunk chunk' : List ℕ)
        → let fa = frame_ipv4_frag src dst id part total chunk in
          let fb = frame_ipv4_frag src' dst' id' part' total' chunk' in
          let first = on_frag now later (drop 1 fa) peer.frags in
          (first.1 ≡ none) × ((on_frag now' later' (drop 1 fb) first.0).1 ≡ some pkt)
          → let a = on_received now later fa peer in
            (a.1 ≡ ignored)
            × ((on_received now' later' fb a.0).1 ≡ expected (wire_route t route) payload)
    arrived src dst id part total src' dst' id' part' total' chunk chunk' r =
        let first =
          on_frag now later (drop 1 (frame_ipv4_frag src dst id part total chunk)) peer.frags in
        let ea = fragment_received now later src dst id part total chunk peer in
        (
          ap (λ (x : Tunnel × Inbound). x.1) ea ∙ ap inbound_of r.0 ∙ inbound_of-none,
          ap
                (λ (x : Tunnel × Inbound).
                  (on_received now' later' (frame_ipv4_frag src' dst' id' part' total' chunk')
                    x.0).1)
                ea
              ∙ ap (λ (x : Tunnel × Inbound). x.1)
                  (fragment_received now' later' src' dst' id' part' total' chunk'
                    (record peer { frags = first.0 }))
              ∙ ap inbound_of r.1
              ∙ inbound_of-some pkt
              ∙ inbound-ip_packet t.ip_id (wire_route t route) payload in_range small,
        )

    -- A datagram of 1373 to 2000 bytes that does not go to a loopback address, with a relay socket that takes every frame: Send
    -- succeeds with two fragments, and a console that holds no fragment of it, and that receives both within a second, in either order, reads the datagram back once, with the
    -- sender's addresses, both ports and all bytes.
    pub send-fragments :
        let sent = send (λ _. true) true t route (some payload) (length payload) in
        let a = on_received now later (low_frame pkt) peer in
        let b = on_received now later (high_frame pkt) peer in
        (sent.0 ≡ true)
        × (sent.2 ≡ frames (low_frame pkt ∷ high_frame pkt ∷ []))
        × (a.1 ≡ ignored)
        × ((on_received now' later' (high_frame pkt) a.0).1 ≡ expected (wire_route t route) payload)
        × (b.1 ≡ ignored)
        × ((on_received now' later' (low_frame pkt) b.0).1 ≡ expected (wire_route t route) payload)
    send-fragments =
        let made =
          send_lem t route payload small out
          ∙ ap (handed_over t) (send_ipv4-two_parts pkt over under) in
        let in_order =
          arrived (ipv4_src pkt) (ipv4_dst pkt) (rd16be pkt 4) 0 2 (ipv4_src pkt) (ipv4_dst pkt)
            (rd16be pkt 4) 1 2 (take slp_mtu pkt) (drop slp_mtu pkt)
            (on_frag-in_order pkt over under peer.frags now later now' later' room ticks pkt-Unknown
              src_in id_in_pkt soon) in
        let reordered =
          arrived (ipv4_src pkt) (ipv4_dst pkt) (rd16be pkt 4) 1 2 (ipv4_src pkt) (ipv4_dst pkt)
            (rd16be pkt 4) 0 2 (drop slp_mtu pkt) (take slp_mtu pkt)
            (on_frag-reordered pkt over under peer.frags now later now' later' room ticks
              pkt-Unknown src_in id_in_pkt soon) in
        (
          ap (λ (x : Bool × Tunnel × Calls). x.0) made,
          ap (λ (x : Bool × Tunnel × Calls). x.2) made,
          in_order.0,
          in_order.1,
          reordered.0,
          reordered.1,
        )
