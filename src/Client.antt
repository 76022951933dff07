-- ===== src/Client.antt =====
-- src/core/client, part by part.
pub mod State
pub mod Handlers
pub mod Lookup
pub mod Invariant
pub mod Packets
pub mod Traffic
pub mod Untouched
pub mod Register
pub mod Handshake
pub mod Assigned
pub mod Rounds
