-- ===== src/Ports/Release.antt =====
-- Reserving a given port, and giving a port back.
use sys_slp_client.Base.{
  ℕ, ◌+◌, ◌-◌, ◌<◌, ◌≡◌, inl, inr, refl, subst, sym, Bool, true, false, ◌&&◌, ◌==◌, leb,
  if◌then◌else◌, Bool-cases, arith,
}
use sys_slp_client.Net.BsdTypes.{ProtocolType}
use sys_slp_client.Ports.{
  EphemeralPortPool, Bitset, ephemeral_port_count, ephemeral_port_min, set_bit, count_bits,
  get_bitset, put_bitset, port_to_index, allocate_specific_port, release_port, is_port_allocated,
  get_available_count,
}
use sys_slp_client.Ports.Bitsets.{
  same_pool, Writes, put_bitset-Writes, Writes-allocated, is_port_allocated_lem,
  get_available_count_lem, port_to_index-port, port_to_index_lem,
}
use sys_slp_client.Ports.Counting.{count_bits-clear, count_bits-same, count_bits-le}
use sys_slp_client.Ports.Allocation.{IsEphemeral, Takes, Writes-Takes}

-- What `AllocateSpecificPort` does with a 16-bit port: outside the ephemeral range it agrees and tracks nothing; a
-- taken port is refused; a free one is taken.
pub data SpecificOutcome (p : EphemeralPortPool) (port : ℕ) (protocol : ProtocolType)
    : Bool × EphemeralPortPool → Type 0 where
  untracked : port < ephemeral_port_min → SpecificOutcome p port protocol (true, p)
  in_use : is_port_allocated p port protocol ≡ true → SpecificOutcome p port protocol (false, p)
  reserved :
      (p' : EphemeralPortPool)
      → Takes p protocol port p'
      → SpecificOutcome p port protocol (true, p')

specific_lem :
    (p : EphemeralPortPool) (port : ℕ) (protocol : ProtocolType)
    → allocate_specific_port p port protocol ≡ (
        if leb ephemeral_port_count (port_to_index port)
        then (true, p)
        else if get_bitset p protocol (port_to_index port)
        then (false, p)
        else (
          true,
          put_bitset p protocol (set_bit (get_bitset p protocol) (port_to_index port) true),
        ))
unfolding allocate_specific_port
specific_lem p port protocol = refl

specific_in_range :
    (p : EphemeralPortPool) (index : ℕ) (protocol : ProtocolType)
    → index < ephemeral_port_count
    → SpecificOutcome p
        (ephemeral_port_min + index)
        protocol
        (allocate_specific_port p (ephemeral_port_min + index) protocol)
specific_in_range p index protocol h =
    rw (specific_lem p (ephemeral_port_min + index) protocol, port_to_index-port index h, above)
      (elim (Bool-cases (get_bitset p protocol index)) [
        | inl busy ↦ rw busy (
            in_use (
              rw
                (
                  is_port_allocated_lem p (ephemeral_port_min + index) protocol,
                  port_to_index-port index h,
                  above,
                )
                busy))
        | inr unset ↦ rw unset (
            reserved _
              (Writes-Takes p _ protocol index h unset (put_bitset-Writes p protocol index true)))
      ])
  where
    above : leb ephemeral_port_count index ≡ false
    above = ground arith

-- `AllocateSpecificPort` on a 16-bit port, on each of its three branches.
pub allocate_specific_port_lem :
    (p : EphemeralPortPool) (port : ℕ) (protocol : ProtocolType)
    → port < 65536
    → SpecificOutcome p port protocol (allocate_specific_port p port protocol)
allocate_specific_port_lem p port protocol h = elim (port_to_index_lem port) [
  | inl (low, e) ↦ rw (specific_lem p port protocol, e) (untracked low)
  | inr (high, e) ↦
      subst (λ (q : ℕ). SpecificOutcome p q protocol (allocate_specific_port p q protocol)) (sym e)
        (specific_in_range p (port_to_index port) protocol (omega arith))
]

release_lem :
    (p : EphemeralPortPool) (port : ℕ) (protocol : ProtocolType)
    → release_port p port protocol ≡ (
        if leb ephemeral_port_count (port_to_index port)
        then p
        else put_bitset p protocol (set_bit (get_bitset p protocol) (port_to_index port) false))
unfolding release_port
release_lem p port protocol = refl

pub release_in_range :
    (p : EphemeralPortPool) (index : ℕ) (protocol : ProtocolType)
    → index < ephemeral_port_count
    → release_port p (ephemeral_port_min + index) protocol
      ≡ put_bitset p protocol (set_bit (get_bitset p protocol) index false)
release_in_range p index protocol h =
    rw (release_lem p (ephemeral_port_min + index) protocol, port_to_index-port index h, above)
  where
    above : leb ephemeral_port_count index ≡ false
    above = ground arith

-- Clearing a bit gives one more if it was set.
count-cleared :
    (index : ℕ) (b : Bitset)
    → index < ephemeral_port_count
    → ephemeral_port_count - count_bits ephemeral_port_count (set_bit b index false)
      ≡ (if b index then 1 else 0) + (ephemeral_port_count - count_bits ephemeral_port_count b)
count-cleared index b h = elim (Bool-cases (b index)) [
  | inl busy ↦ rw busy (
      omega (
        arith,
        count_bits-clear ephemeral_port_count index b h busy,
        count_bits-le ephemeral_port_count b,
      ))
  | inr unset ↦ rw (unset, count_bits-same ephemeral_port_count index b false unset) (omega arith)
]

-- What giving back the port `port` of `protocol` does to the answers of the pool.
pub record Returns (p : EphemeralPortPool) (protocol : ProtocolType) (port : ℕ)
    (p' : EphemeralPortPool) : Type 0 where
  pub only :
      (q : ℕ) (r : ProtocolType)
      → is_port_allocated p' q r
        ≡ (if q == port && same_pool protocol r then false else is_port_allocated p q r)
  pub count :
      get_available_count p' protocol
      ≡ (if is_port_allocated p port protocol then 1 else 0) + get_available_count p protocol

index_allocated :
    (p : EphemeralPortPool) (index : ℕ) (protocol : ProtocolType)
    → index < ephemeral_port_count
    → is_port_allocated p (ephemeral_port_min + index) protocol ≡ get_bitset p protocol index
index_allocated p index protocol h = ground (
  arith,
  is_port_allocated_lem p (ephemeral_port_min + index) protocol,
  port_to_index-port index h,
)

release_in_range-Returns :
    (p : EphemeralPortPool) (index : ℕ) (protocol : ProtocolType)
    → index < ephemeral_port_count
    → Returns p protocol
        (ephemeral_port_min + index)
        (release_port p (ephemeral_port_min + index) protocol)
release_in_range-Returns p index protocol h = rw (release_in_range p index protocol h) (record {
  only = λ q r. Writes-allocated p _ protocol index false q r h w;
  count =
      rw
        (
          get_available_count_lem p protocol,
          get_available_count_lem _ protocol,
          w.own,
          index_allocated p index protocol h,
        )
        (count-cleared index (get_bitset p protocol) h);
})
  where
    w :
        Writes p
          (put_bitset p protocol (set_bit (get_bitset p protocol) index false))
          protocol
          index
          false
    w = put_bitset-Writes p protocol index false

-- Releasing an ephemeral port: afterwards exactly that port of that pool is free, and one more port is
-- available if it was taken, none if it was not. Every other answer of the pool is as before.
pub release_port_lem :
    (p : EphemeralPortPool) (port : ℕ) (protocol : ProtocolType)
    → IsEphemeral port
    → Returns p protocol port (release_port p port protocol)
release_port_lem p port protocol h =
    subst (λ (q : ℕ). Returns p protocol q (release_port p q protocol)) port_split
      (release_in_range-Returns p (port - ephemeral_port_min) protocol (omega arith))
  where
    port_split : ephemeral_port_min + (port - ephemeral_port_min) ≡ port
    port_split = omega arith
