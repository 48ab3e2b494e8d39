-- ===== src/Manager.antt =====
-- sysmodule/source/bsd/proxy_socket_manager.{hpp,cpp}: the sockets by file descriptor, the port pool,
-- the callbacks to the session, and the buffer for datagrams that nobody waits for yet.
pub mod State
pub mod Sockets
pub mod Callbacks
pub mod Routing
pub mod Pending
pub mod Lookup
pub mod Matching
pub mod Agreement
pub mod Compaction
pub mod Backlog
pub mod Tests
