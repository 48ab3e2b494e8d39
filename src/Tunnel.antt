-- ===== src/Tunnel.antt =====
-- sysmodule/source/tunnel/slp_tunnel.cpp and the frame codecs of sysmodule/source/slp/slp_client.c: datagrams
-- of the game's sockets as IPv4 packets in the relay's frames, and back.
pub mod Codec
pub mod Packet
pub mod Reassembly
pub mod Exchange
pub mod Checksum
pub mod Parsing
pub mod Guards
pub mod Storage
pub mod Table
pub mod Fragments
pub mod Splitting
pub mod Rejoining
pub mod RoundTrip
pub mod Tests
