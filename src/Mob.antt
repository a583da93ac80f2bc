-- ===== src/Mob.antt =====
-- src/zone_cluster/mob: what a character knows and carries.
pub mod Skills
