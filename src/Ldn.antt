-- ===== src/Ldn.antt =====
-- sysmodule/source/ldn/ldn_control.cpp: the control frames of the LDN plane.
pub mod Rle
pub mod Frames
pub mod Inflate
pub mod Wire
pub mod Scanners
pub mod Admission
pub mod State
pub mod Sync
pub mod Freshness
pub mod Stations
pub mod Seats
pub mod Joining
pub mod Results
pub mod Network
pub mod Steps
pub mod Inbound
pub mod Polling
pub mod Invariant
pub mod Membership
pub mod Heartbeat
pub mod Scanning
pub mod Control
pub mod Calls
pub mod Events
pub mod Slots
pub mod Liveness
pub mod Tests
