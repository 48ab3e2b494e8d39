-- ===== src/Ports/Tests.antt =====
-- The port pool at concrete states.
use sys_slp_client.Base.{◌≤◌, ◌≡◌, ◌≢◌, refl, true, false, arith}
use sys_slp_client.Net.BsdTypes.{tcp, udp}
use sys_slp_client.Ports.{
  EphemeralPortPool, empty_pool, no_ports, ephemeral_port_count, allocate_port,
  allocate_specific_port, release_port, get_available_count, search_free, set_bit, get_bitset,
}
use sys_slp_client.Ports.Bitsets.{get_available_count_lem}
use sys_slp_client.Ports.Counting.{count_bits-no_ports}
use sys_slp_client.Ports.Allocation.{IsValid, Outcome, allocate_port_lem}
use sys_slp_client.Ports.Release.{SpecificOutcome, allocate_specific_port_lem}
use sys_slp_client.Ports.Rotation.{allocate-release-allocate}

empty_pool-IsValid : IsValid empty_pool
empty_pool-IsValid = omega arith

-- The last UDP index is taken and the hint stands on it, so the search wraps.
abbrev at_the_end : EphemeralPortPool
at_the_end = record empty_pool { udp_ports = set_bit no_ports 16383 true; udp_hint = 16383 }

first_port : (allocate_port empty_pool tcp).0 ≡ 49152
unfolding allocate_port search_free
first_port = refl

wrapped_port : (allocate_port at_the_end udp).0 ≡ 49152
unfolding allocate_port search_free
wrapped_port = refl

last_port_taken :
    ((allocate_specific_port at_the_end 65535 udp).0 ≡ false)
    × ((allocate_specific_port at_the_end 65535 tcp).0 ≡ true)
    × ((allocate_specific_port at_the_end 12345 udp).0 ≡ true)
unfolding allocate_specific_port
last_port_taken = (refl, refl, refl)

allocate_port_lem_example : Outcome at_the_end udp (allocate_port at_the_end udp)
allocate_port_lem_example = allocate_port_lem at_the_end udp (omega arith)

allocate_specific_port_lem_example :
    SpecificOutcome at_the_end 65535 udp (allocate_specific_port at_the_end 65535 udp)
allocate_specific_port_lem_example = allocate_specific_port_lem at_the_end 65535 udp (omega arith)

two_left : 2 ≤ get_available_count empty_pool tcp
unfolding get_bitset
two_left =
    omega (arith, get_available_count_lem empty_pool tcp, count_bits-no_ports ephemeral_port_count)

allocate-release-allocate_example :
    (allocate_port
      (release_port (allocate_port empty_pool tcp).1 (allocate_port empty_pool tcp).0 tcp)
      tcp).0
    ≢ (allocate_port empty_pool tcp).0
allocate-release-allocate_example =
    allocate-release-allocate empty_pool tcp empty_pool-IsValid two_left
