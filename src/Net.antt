-- ===== src/Net.antt =====
-- Addresses: sysmodule/source/bsd/ip_addr.hpp, bsd_types.hpp and lan_addr_map.{hpp,cpp}.
pub mod IpAddr
pub mod BsdTypes
pub mod LanAddrMap
pub mod Encodings
pub mod Tests
