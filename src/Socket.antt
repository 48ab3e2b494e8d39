-- ===== src/Socket.antt =====
-- sysmodule/source/bsd/proxy_socket.{hpp,cpp}: the socket that a game sees in place of a real one.
pub mod State
pub mod Packets
pub mod Receive
pub mod Fifo
pub mod Delivery
pub mod Transfer
pub mod Address
pub mod Options
pub mod Listener
pub mod Burst
pub mod Teardown
pub mod Lifecycle
pub mod Handshake
pub mod Tests
