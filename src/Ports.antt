-- ===== src/Ports.antt =====
-- sysmodule/source/bsd/ephemeral_port_pool.{hpp,cpp}: which ephemeral ports are taken, for each
-- protocol. Each method holds the pool's mutex from its first access to its last, so a method is
-- one step. A `std::bitset` is a function from the index.
pub mod Search
pub mod Bitsets
pub mod Counting
pub mod Allocation
pub mod Release
pub mod Rotation
pub mod Tests
use sys_slp_client.Base.{
  ℕ, zero, suc, ◌+◌, ◌-◌, ◌%◌, Bool, true, false, Option, none, some, ◌==◌, ltb, leb, if◌then◌else◌,
  u16,
}
use sys_slp_client.Net.BsdTypes.{ProtocolType, tcp, is_tcp}

abbrev pub ephemeral_port_min : ℕ
ephemeral_port_min = 49152

abbrev pub ephemeral_port_max : ℕ
ephemeral_port_max = 65535

-- 16384
abbrev pub ephemeral_port_count : ℕ
ephemeral_port_count = ephemeral_port_max - ephemeral_port_min + 1

abbrev pub Bitset : Type 0
Bitset = ℕ → Bool

pub record EphemeralPortPool : Type 0 where
  pub udp_ports : Bitset
  pub tcp_ports : Bitset
  pub udp_hint : ℕ
  pub tcp_hint : ℕ

abbrev pub no_ports : Bitset
no_ports _ = false

abbrev pub empty_pool : EphemeralPortPool
empty_pool = record { udp_ports = no_ports; tcp_ports = no_ports; udp_hint = 0; tcp_hint = 0 }

-- `bitset.set(index, value)`.
abbrev pub set_bit : Bitset → ℕ → Bool → Bitset
set_bit b index value j = if j == index then value else b j

-- `bitset.count()` over the first `n` bits.
pub count_bits : ℕ → Bitset → ℕ
count_bits zero b = 0
count_bits (suc n) b = (if b n then 1 else 0) + count_bits n b

-- Every protocol but TCP uses the UDP pool.
unfoldable pub get_bitset : EphemeralPortPool → ProtocolType → Bitset
get_bitset p protocol = if is_tcp protocol then p.tcp_ports else p.udp_ports

unfoldable pub get_hint : EphemeralPortPool → ProtocolType → ℕ
get_hint p protocol = if is_tcp protocol then p.tcp_hint else p.udp_hint

-- The reference that `GetBitset` returns, written to.
abbrev pub put_bitset : EphemeralPortPool → ProtocolType → Bitset → EphemeralPortPool
put_bitset p protocol b =
    if is_tcp protocol then record p { tcp_ports = b } else record p { udp_ports = b }

abbrev pub put_hint : EphemeralPortPool → ProtocolType → ℕ → EphemeralPortPool
put_hint p protocol h =
    if is_tcp protocol then record p { tcp_hint = h } else record p { udp_hint = h }

unfoldable pub port_to_index : ℕ → ℕ
port_to_index port =
    if ltb port ephemeral_port_min then ephemeral_port_count else port - ephemeral_port_min

unfoldable pub index_to_port : ℕ → ℕ
index_to_port index = u16 (ephemeral_port_min + index)

-- The loop of `AllocatePort` from round `i` on, with `rounds` of them left: the first free index.
pub search_free : ℕ → ℕ → ℕ → Bitset → Option ℕ
search_free zero i hint b = none
search_free (suc rounds) i hint b =
    let rest = search_free rounds (i + 1) hint b in
    let index : ℕ = (hint + i) % ephemeral_port_count in if b index then rest else some index

-- What `AllocatePort` returns for the outcome of its search.
pub taken : EphemeralPortPool → ProtocolType → Option ℕ → ℕ × EphemeralPortPool
unfolding get_bitset index_to_port
taken p protocol none = (0, p)
taken p protocol (some index) = (
  index_to_port index,
  put_hint (put_bitset p protocol (set_bit (get_bitset p protocol) index true)) protocol
      ((index + 1) % ephemeral_port_count),
)

-- The port, 0 if there is none, and the pool afterwards.
pub allocate_port : EphemeralPortPool → ProtocolType → ℕ × EphemeralPortPool
unfolding get_bitset get_hint taken
allocate_port p protocol =
    taken p protocol
      (search_free ephemeral_port_count 0 (get_hint p protocol) (get_bitset p protocol))

pub allocate_specific_port : EphemeralPortPool → ℕ → ProtocolType → Bool × EphemeralPortPool
unfolding get_bitset port_to_index
allocate_specific_port p port protocol =
    let index = port_to_index port in
    if leb ephemeral_port_count index
    then (true, p)
    else if get_bitset p protocol index
    then (false, p)
    else (true, put_bitset p protocol (set_bit (get_bitset p protocol) index true))

pub release_port : EphemeralPortPool → ℕ → ProtocolType → EphemeralPortPool
unfolding get_bitset port_to_index
release_port p port protocol =
    let index = port_to_index port in
    if leb ephemeral_port_count index
    then p
    else put_bitset p protocol (set_bit (get_bitset p protocol) index false)

pub is_port_allocated : EphemeralPortPool → ℕ → ProtocolType → Bool
unfolding get_bitset port_to_index
is_port_allocated p port protocol =
    let index = port_to_index port in
    if leb ephemeral_port_count index then false else get_bitset p protocol index

pub get_available_count : EphemeralPortPool → ProtocolType → ℕ
unfolding get_bitset
get_available_count p protocol =
    ephemeral_port_count - count_bits ephemeral_port_count (get_bitset p protocol)

pub release_all : EphemeralPortPool → EphemeralPortPool
release_all p = empty_pool
