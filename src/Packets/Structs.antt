-- ===== src/Packets/Structs.antt =====
-- The packed structures of the packets.
pub mod Zone
pub mod Item
pub mod CharSelect
pub mod PlayerProfile
