-- ===== src/Packets/Profile.antt =====
-- `client_trilogy_send_player_profile` of src/zone_cluster/mob/client_packet_trilogy_output.c: what it
-- reads, and the whole of the body; its pieces stand in the child modules.
pub mod Head
pub mod Items
pub mod Middle
pub mod Bank
pub mod Tail
pub mod Laws
