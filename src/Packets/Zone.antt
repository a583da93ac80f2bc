-- ===== src/Packets/Zone.antt =====
-- src/zone_cluster/mob/client_packet_trilogy_output.c: the packets of the zone servers.
-- A `float` is its 32 bits. The conversions that the code asks of the machine are `Floats`.
pub mod Mobs
pub mod Checksum
pub mod Entry
pub mod Info
pub mod Spawn
pub mod Item
pub mod Message
pub mod Laws
pub mod Memory
pub mod Obfuscate
