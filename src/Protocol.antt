-- ===== src/Protocol.antt =====
-- src/protocol: the wire protocol, part by part.
pub mod Constants
pub mod Bytes
pub mod Header
pub mod Seal
pub mod Ipv4
pub mod Text
pub mod Messages
pub mod Replay
pub mod SipHash
