-- ===== src/Ports/Bitsets.antt =====
-- What writing one bit of one protocol's bitset does to the queries.
use sys_slp_client.Base.{
  ℕ, ◌+◌, ◌-◌, ◌<◌, ◌≤◌, ◌≡◌, ◌⊎◌, inl, inr, refl, ap, Bool, true, false, not, ◌&&◌, ◌==◌, leb,
  if◌then◌else◌, Bool-cases, arith,
}
use sys_slp_client.Net.BsdTypes.{ProtocolType, tcp, is_tcp}
use sys_slp_client.Ports.{
  EphemeralPortPool, Bitset, ephemeral_port_count, ephemeral_port_min, set_bit, count_bits,
  get_bitset, put_bitset, port_to_index, is_port_allocated, get_available_count,
}

-- Two protocols that share a bitset.
abbrev pub same_pool : ProtocolType → ProtocolType → Bool
same_pool p q = if is_tcp p then is_tcp q else not (is_tcp q)

pub is_port_allocated_lem :
    (p : EphemeralPortPool) (q : ℕ) (r : ProtocolType)
    → is_port_allocated p q r ≡ (
        if leb ephemeral_port_count (port_to_index q)
        then false
        else get_bitset p r (port_to_index q))
unfolding is_port_allocated
is_port_allocated_lem p q r = refl

pub get_available_count_lem :
    (p : EphemeralPortPool) (r : ProtocolType)
    → get_available_count p r
      ≡ ephemeral_port_count - count_bits ephemeral_port_count (get_bitset p r)
unfolding get_available_count
get_available_count_lem p r = refl

pub port_to_index-port :
    (index : ℕ) → index < ephemeral_port_count → port_to_index (ephemeral_port_min + index) ≡ index
unfolding port_to_index
port_to_index-port index h = ground arith

-- Below the range there is no index; from it on, the offset.
pub port_to_index_lem :
    (q : ℕ)
    → ((q < ephemeral_port_min) × (port_to_index q ≡ ephemeral_port_count))
      ⊎ ((ephemeral_port_min ≤ q) × (q ≡ ephemeral_port_min + port_to_index q))
unfolding port_to_index
port_to_index_lem q = ground arith

pub same_pool_refl : (r : ProtocolType) → same_pool r r ≡ true
same_pool_refl r = ground arith

-- One bit of the bitset of `protocol` is written, and no other bitset changes.
pub record Writes (p p' : EphemeralPortPool) (protocol : ProtocolType) (index : ℕ) (v : Bool)
    : Type 0 where
  pub own : get_bitset p' protocol ≡ set_bit (get_bitset p protocol) index v
  pub other : (r : ProtocolType) → same_pool protocol r ≡ false → get_bitset p' r ≡ get_bitset p r

same_pool-get_bitset :
    (p : EphemeralPortPool) (q r : ProtocolType)
    → same_pool q r ≡ true
    → get_bitset p r ≡ get_bitset p q
unfolding get_bitset
same_pool-get_bitset p q r h = ground arith

pub put_bitset-Writes :
    (p : EphemeralPortPool) (protocol : ProtocolType) (index : ℕ) (v : Bool)
    → Writes p (put_bitset p protocol (set_bit (get_bitset p protocol) index v)) protocol index v
unfolding get_bitset
put_bitset-Writes p tcp index v = record { own = refl; other = λ r h. ground arith }
put_bitset-Writes p _ index v = record { own = refl; other = λ r h. ground arith }

pub Writes-allocated :
    (p p' : EphemeralPortPool) (protocol : ProtocolType) (index : ℕ) (v : Bool) (q : ℕ)
    (r : ProtocolType)
    → index < ephemeral_port_count
    → Writes p p' protocol index v
    → is_port_allocated p' q r ≡ (
        if q == ephemeral_port_min + index && same_pool protocol r
        then v
        else is_port_allocated p q r)
Writes-allocated p p' protocol index v q r h w = elim (Bool-cases (same_pool protocol r)) [
  | inl same ↦ rw same (
      ground (
        arith,
        is_port_allocated_lem p q r,
        is_port_allocated_lem p' q r,
        port_to_index_lem q,
        port_to_index-port index h,
        ap (λ (b : Bitset). b (port_to_index q)) w.own,
        ap (λ (b : Bitset). b (port_to_index q)) (same_pool-get_bitset p protocol r same),
        ap (λ (b : Bitset). b (port_to_index q)) (same_pool-get_bitset p' protocol r same),
      ))
  | inr different ↦ rw different (
      ground (
        arith,
        is_port_allocated_lem p q r,
        is_port_allocated_lem p' q r,
        ap (λ (b : Bitset). b (port_to_index q)) (w.other r different),
      ))
]
