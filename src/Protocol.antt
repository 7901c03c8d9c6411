-- ===== src/Protocol.antt =====
-- protocol/*.go: readers of byte streams and of MPEG-TS packets.
pub mod Reader
pub mod Packet
pub mod FixedReader
