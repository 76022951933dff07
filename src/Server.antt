-- ===== src/Server.antt =====
-- src/core/server, part by part.
pub mod State
pub mod Register
pub mod Data
pub mod Session
pub mod Timeout
pub mod Dispatch
pub mod Invariant
pub mod Pool
pub mod Preserve
pub mod Announce
pub mod Lookup
pub mod Admission
pub mod Authentic
pub mod Exact
pub mod PeerList
pub mod Threads
pub mod Handlers
