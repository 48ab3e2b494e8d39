-- ===== src/Net/IpAddr.antt =====
-- sysmodule/source/bsd/ip_addr.hpp: an IPv4 address by its integer value, and the two encodings
-- (NUMERIC, NETWORK) in which it enters and leaves.
use sys_slp_client.Base.{ℕ, ◌-◌, ◌*◌, ◌/◌, ◌%◌, ◌^◌, Bool, ◌==◌, bit_and, bswap32, u8, be32}

-- `m_numeric`; 10.13.37.2 is 0x0A0D2502.
pub record IpV4 : Type 0 where
  pub numeric : ℕ

unfoldable pub from_numeric : ℕ → IpV4
from_numeric v = record { numeric = v }

unfoldable pub from_network : ℕ → IpV4
from_network v = record { numeric = bswap32 v }

unfoldable pub from_octets : ℕ → ℕ → ℕ → ℕ → IpV4
from_octets a b c d = record { numeric = be32 a b c d }

-- The value for `sockaddr_in::sin_addr`.
unfoldable pub network : IpV4 → ℕ
network ip = bswap32 ip.numeric

-- Octet 0 is the first; `i` is below 4.
unfoldable pub octet : IpV4 → ℕ → ℕ
octet ip i = u8 (ip.numeric / 2 ^ (24 - 8 * i))

unfoldable pub is_any : IpV4 → Bool
is_any ip = ip.numeric == 0

unfoldable pub is_broadcast : IpV4 → Bool
is_broadcast ip = ip.numeric % 256 == 255

unfoldable pub in_subnet : IpV4 → IpV4 → IpV4 → Bool
in_subnet ip net mask = bit_and ip.numeric mask.numeric == bit_and net.numeric mask.numeric

-- switch-lan-play's virtual subnet.
abbrev pub virtual_net : IpV4
virtual_net = record { numeric = be32 10 13 0 0 }

abbrev pub virtual_mask : IpV4
virtual_mask = record { numeric = be32 255 255 0 0 }
