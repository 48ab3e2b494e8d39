-- ===== src/Service.antt =====
-- sysmodule/source/bsd/bsd_mitm_service.cpp: the sessions of the bsd:u service, and its calls that decide between a proxy socket and
-- the real one.
pub mod Poll
pub mod Bind
pub mod Table
pub mod Ready
pub mod Giving
pub mod Binding
pub mod Promotion
pub mod Cleanup
pub mod Sessions
pub mod Bursts
pub mod Tests
