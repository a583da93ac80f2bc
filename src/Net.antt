-- ===== src/Net.antt =====
-- src/non_master/net: the reliable packet protocol spoken with the "trilogy" clients.
pub mod AckCommon
pub mod Crc
pub mod Packet
pub mod AckMgr
mod Tests
