-- ===== src/Ports/Allocation.antt =====
-- What the pool's methods promise to their callers.
use sys_slp_client.Base.{
  ℕ, ◌+◌, ◌-◌, ◌%◌, ◌<◌, ◌≤◌, ◌≡◌, inl, inr, refl, ap, subst, true, false, ◌&&◌, ◌==◌, some,
  if◌then◌else◌, arith,
}
use sys_slp_client.Net.BsdTypes.{ProtocolType, tcp}
use sys_slp_client.Ports.{
  EphemeralPortPool, ephemeral_port_count, ephemeral_port_min, ephemeral_port_max, count_bits,
  get_bitset, get_hint, search_free, taken, allocate_port, is_port_allocated, get_available_count,
}
use sys_slp_client.Ports.Bitsets.{
  same_pool, Writes, Writes-allocated, is_port_allocated_lem, get_available_count_lem,
  port_to_index-port,
}
use sys_slp_client.Ports.Search.{probed, search_free-cases, probed_onto}
use sys_slp_client.Ports.Counting.{count_bits-set, count_bits_all, count_bits-le}

-- The hints are indices.
pub record IsValid (p : EphemeralPortPool) : Type 0 where
  pub udp_hint_in : p.udp_hint < ephemeral_port_count
  pub tcp_hint_in : p.tcp_hint < ephemeral_port_count

abbrev pub IsEphemeral : ℕ → Type 0
IsEphemeral port = (ephemeral_port_min ≤ port) × (port ≤ ephemeral_port_max)

-- What happens when exactly the port `port` of `protocol` is taken.
pub record Takes (p : EphemeralPortPool) (protocol : ProtocolType) (port : ℕ)
    (p' : EphemeralPortPool) : Type 0 where
  pub ephemeral : IsEphemeral port
  pub was_free : is_port_allocated p port protocol ≡ false
  pub only :
      (q : ℕ) (r : ProtocolType)
      → is_port_allocated p' q r
        ≡ (if q == port && same_pool protocol r then true else is_port_allocated p q r)
  pub count : get_available_count p' protocol + 1 ≡ get_available_count p protocol

pub get_hint-IsValid :
    (p : EphemeralPortPool) (protocol : ProtocolType)
    → IsValid p
    → get_hint p protocol < ephemeral_port_count
unfolding get_hint
get_hint-IsValid p protocol v = ground arith

pub Writes-Takes :
    (p p' : EphemeralPortPool) (protocol : ProtocolType) (index : ℕ)
    → index < ephemeral_port_count
    → get_bitset p protocol index ≡ false
    → Writes p p' protocol index true
    → Takes p protocol (ephemeral_port_min + index) p'
Writes-Takes p p' protocol index h e w = record {
  ephemeral = omega arith;
  was_free = ground (
    arith,
    is_port_allocated_lem p (ephemeral_port_min + index) protocol,
    port_to_index-port index h,
  );
  only = λ q r. Writes-allocated p p' protocol index true q r h w;
  count = omega (
    arith,
    get_available_count_lem p protocol,
    get_available_count_lem p' protocol,
    ap (count_bits ephemeral_port_count) w.own,
    count_bits-set ephemeral_port_count index (get_bitset p protocol) h e,
    count_bits-le ephemeral_port_count (get_bitset p' protocol),
  );
}

-- What `AllocatePort` does, on both of its branches: it takes a free ephemeral port, or it returns 0 because
-- none is left and changes nothing.
pub data Outcome (p : EphemeralPortPool) (protocol : ProtocolType)
    : ℕ × EphemeralPortPool → Type 0 where
  took :
      (port : ℕ) (p' : EphemeralPortPool)
      → Takes p protocol port p'
      → IsValid p'
      → Outcome p protocol (port, p')
  exhausted : get_available_count p protocol ≡ 0 → Outcome p protocol (0, p)

taken-IsValid :
    (p : EphemeralPortPool) (protocol : ProtocolType) (index : ℕ)
    → IsValid p
    → IsValid (taken p protocol (some index)).1
unfolding taken
taken-IsValid p tcp index v = omega arith
taken-IsValid p _ index v = omega arith

taken-Writes :
    (p : EphemeralPortPool) (protocol : ProtocolType) (index : ℕ)
    → Writes p (taken p protocol (some index)).1 protocol index true
unfolding taken
taken-Writes p tcp index = record { own = refl; other = λ r h. ground arith }
taken-Writes p _ index = record { own = refl; other = λ r h. ground arith }

pub taken_port :
    (p : EphemeralPortPool) (protocol : ProtocolType) (index : ℕ)
    → index < ephemeral_port_count
    → taken p protocol (some index)
      ≡ (ephemeral_port_min + index, (taken p protocol (some index)).1)
unfolding taken
taken_port p protocol index h = ground arith

pub allocate_port-taken :
    (p : EphemeralPortPool) (protocol : ProtocolType)
    → allocate_port p protocol
      ≡ taken p protocol
          (search_free ephemeral_port_count 0 (get_hint p protocol) (get_bitset p protocol))
unfolding allocate_port
allocate_port-taken p protocol = refl

pub none_left :
    (p : EphemeralPortPool) (protocol : ProtocolType)
    → IsValid p
    → ((k : ℕ)
        → 0 ≤ k
        → k < 0 + ephemeral_port_count
        → get_bitset p protocol (probed (get_hint p protocol) k) ≡ true)
    → get_available_count p protocol ≡ 0
none_left p protocol v all =
    let hint = get_hint p protocol in
    omega (
      arith,
      get_available_count_lem p protocol,
      count_bits_all ephemeral_port_count (get_bitset p protocol) (λ index h.
          subst (λ (j : ℕ). get_bitset p protocol j ≡ true)
            (probed_onto hint index (get_hint-IsValid p protocol v) h)
            (all ((index + ephemeral_port_count - hint) % ephemeral_port_count) (omega arith)
              (omega arith))),
    )

-- `AllocatePort` on a pool whose hints are in range: either it takes exactly one port, an ephemeral
-- one that was free, and changes no other answer of the pool for either protocol; or no port
-- of the protocol is left, and it returns 0 and changes nothing.
pub allocate_port_lem :
    (p : EphemeralPortPool) (protocol : ProtocolType)
    → IsValid p
    → Outcome p protocol (allocate_port p protocol)
unfolding taken
allocate_port_lem p protocol v =
    rw (allocate_port-taken p protocol)
      (elim (search_free-cases ephemeral_port_count 0 (get_hint p protocol)
        (get_bitset p protocol)) [
          | inl (index, e, f) ↦
              (let h : index < ephemeral_port_count = omega (arith, f.at) in
                rw (e, taken_port p protocol index h)
                  (took (ephemeral_port_min + index) (taken p protocol (some index)).1
                    (Writes-Takes p (taken p protocol (some index)).1 protocol index h f.free
                      (taken-Writes p protocol index))
                    (taken-IsValid p protocol index v)))
          | inr (e, all) ↦ rw e (exhausted (none_left p protocol v all))
        ])
