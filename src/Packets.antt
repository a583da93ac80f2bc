-- ===== src/Packets.antt =====
-- The bodies of the packets that the servers send to "trilogy" clients: what is written, and where.
pub mod Body
pub mod Parts
pub mod Plain
pub mod Profile
pub mod Struct
pub mod Structs
pub mod Zone
mod Tests
