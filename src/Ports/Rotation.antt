-- ===== src/Ports/Rotation.antt =====
-- What the hint does to the order in which ports are handed out.
use sys_slp_client.Base.{
  ℕ, ◌+◌, ◌-◌, ◌%◌, ◌<◌, ◌≤◌, ◌≡◌, ◌≢◌, inl, inr, refl, subst, sym, ◌∙◌, true, false, ◌==◌, some,
  Bool-cases, arith,
}
use sys_slp_client.Net.BsdTypes.{ProtocolType, tcp}
use sys_slp_client.Ports.{
  EphemeralPortPool, Bitset, ephemeral_port_count, ephemeral_port_min, set_bit, count_bits,
  get_bitset, get_hint, put_bitset, taken, allocate_port, release_port, get_available_count,
}
use sys_slp_client.Ports.Bitsets.{get_available_count_lem}
use sys_slp_client.Ports.Search.{Found, probed, search_free-cases, probed_onto}
use sys_slp_client.Ports.Counting.{count_bits-set, count_bits_all, set_bit-set_bit}
use sys_slp_client.Ports.Allocation.{IsValid, none_left, taken_port, allocate_port-taken}
use sys_slp_client.Ports.Release.{release_in_range}

-- After taking `index` and giving it back, the pool is as before but for the hint, which has moved past it.
taken-release :
    (p : EphemeralPortPool) (protocol : ProtocolType) (index : ℕ)
    → get_bitset p protocol index ≡ false
    → let p' =
        put_bitset
          (taken p protocol (some index)).1
          protocol
          (set_bit (get_bitset (taken p protocol (some index)).1 protocol) index false) in
      (get_bitset p' protocol ≡ get_bitset p protocol)
      × (get_hint p' protocol ≡ (index + 1) % ephemeral_port_count)
unfolding taken get_hint
taken-release p tcp index e = (set_bit-set_bit index p.tcp_ports e, refl)
taken-release p _ index e = (set_bit-set_bit index p.udp_ports e, refl)

-- If a search that starts just past `index` comes back to `index`, every other index is taken.
came_round :
    (b : Bitset) (index : ℕ)
    → index < ephemeral_port_count
    → Found ephemeral_port_count 0 ((index + 1) % ephemeral_port_count) b index
    → count_bits ephemeral_port_count b + 1 ≡ ephemeral_port_count
came_round b index h f =
    sym (count_bits-set ephemeral_port_count index b h f.free)
    ∙ count_bits_all ephemeral_port_count (set_bit b index true) (λ j k.
      elim (Bool-cases (j == index)) [
        | inl here ↦ rw here
        | inr other ↦ rw other (others j k (ground arith))
      ])
  where
    hint : ℕ
    hint = (index + 1) % ephemeral_port_count

    last : f.round + 1 ≡ ephemeral_port_count
    last = omega (arith, f.at, f.before)

    others : (j : ℕ) → j < ephemeral_port_count → j ≢ index → b j ≡ true
    others j k ne =
        let round : ℕ = (j + ephemeral_port_count - hint) % ephemeral_port_count in
        let back : probed hint round ≡ j = probed_onto hint j (omega arith) k in
        subst (λ (i : ℕ). b i ≡ true) back
          (f.first round (omega arith) (omega (arith, back, last, f.at, ne)))

-- With the hint just past `index` and a second free index, the next port is another one.
moved_on :
    (b : Bitset) (p : EphemeralPortPool) (protocol : ProtocolType) (index : ℕ)
    → index < ephemeral_port_count
    → count_bits ephemeral_port_count b + 2 ≤ ephemeral_port_count
    → (get_bitset p protocol ≡ b) × (get_hint p protocol ≡ (index + 1) % ephemeral_port_count)
    → (allocate_port p protocol).0 ≢ ephemeral_port_min + index
unfolding taken
moved_on b p protocol index h room (bits, hint) =
    rw (allocate_port-taken p protocol, bits, hint)
      (elim (search_free-cases ephemeral_port_count 0 ((index + 1) % ephemeral_port_count) b) [
        | inl (other, e, f) ↦ rw e (λ same.
            let back : other ≡ index = omega (arith, f.at) in
            absurd (
              omega (
                arith,
                room,
                came_round b index h (
                    subst (Found ephemeral_port_count 0 ((index + 1) % ephemeral_port_count) b) back
                      f),
              )))
        | inr (e, _) ↦ rw e (λ same. absurd (omega arith))
      ])

-- A port that was just allocated and given back is not the next one allocated, as long as the protocol had
-- another port available.
pub allocate-release-allocate :
    (p : EphemeralPortPool) (protocol : ProtocolType)
    → IsValid p
    → 2 ≤ get_available_count p protocol
    → let (port, p') = allocate_port p protocol in
      (allocate_port (release_port p' port protocol) protocol).0 ≢ port
allocate-release-allocate p protocol v two =
    rw (allocate_port-taken p protocol)
      (elim (search_free-cases ephemeral_port_count 0 (get_hint p protocol)
        (get_bitset p protocol)) [
          | inl (index, e, f) ↦
              (let h : index < ephemeral_port_count = omega (arith, f.at) in
                rw
                  (
                    e,
                    taken_port p protocol index h,
                    release_in_range (taken p protocol (some index)).1 index protocol h,
                  )
                  (moved_on (get_bitset p protocol) _ protocol index h
                    (omega (arith, two, get_available_count_lem p protocol))
                    (taken-release p protocol index f.free)))
          | inr (e, all) ↦ absurd (omega (arith, two, none_left p protocol v all))
        ])
