-- ===== src/Packets/Zone/Laws.antt =====
-- The bodies of the zone servers against their structures: src/zone_cluster/mob/client_packet_trilogy_output.c
-- and src/zone_cluster/structs_trilogy.h.
use eqp.Common.{
  arith, ◌<◌, ℕ, ◌≡◌, refl, Bool, true, false, List, length, Bool-cases, Option-cases, inl, inr,
  ◌^◌,
}
use eqp.Aligned.Defs.{Aligned, ok}
use eqp.Aligned.RoundTrip.{written}
use eqp.Packets.Body.{prepare, write_steps_lem}
use eqp.Packets.Plain.{write_plains, overlay}
use eqp.Packets.Struct.{Fields, Steps, sizeof, writes, lands}
use eqp.Packets.Structs.Zone.{zone_entry, weather, zone_info, spawn_appearance, spawn}
use eqp.Packets.Structs.Item.{item}
use eqp.Packets.Zone.Mobs.{Floats, Client, Mob}
use eqp.Packets.Zone.Entry.{zone_entry_steps}
use eqp.Packets.Zone.Info.{Zone, zone_info_steps}
use eqp.Packets.Zone.Spawn.{spawn_steps, is_client}
use eqp.Packets.Zone.Item.{ItemView, item_steps, item_basic_steps}
use eqp.Packets.Zone.Message.{weather_steps, spawn_appearance_steps}

-- What is put into a packet of a zone server.
pub data Body : Type 0 where
  zone_entry_of : Floats → Client → Body
  weather_of : ℕ → ℕ → Body
  zone_info_of : Zone → Body
  spawn_appearance_of : (entity_id appearance value : ℕ) → Body
  spawn_of : Floats → Mob → Body
  item_of : ItemView → ℕ → Body

abbrev pub struct_of : Body → Fields
struct_of (zone_entry_of f c) = zone_entry
struct_of (weather_of t i) = weather
struct_of (zone_info_of z) = zone_info
struct_of (spawn_appearance_of e a v) = spawn_appearance
struct_of (spawn_of f m) = spawn
struct_of (item_of v s) = item

abbrev pub steps_of : Body → Steps
steps_of (zone_entry_of f c) = zone_entry_steps f c
steps_of (weather_of t i) = weather_steps t i
steps_of (zone_info_of z) = zone_info_steps z
steps_of (spawn_appearance_of e a v) = spawn_appearance_steps e a v
steps_of (spawn_of f m) = spawn_steps f m
steps_of (item_of v s) = item_steps v s

pub steps_of-lands : (b : Body) → lands (struct_of b) (steps_of b) ≡ true
unfolding zone_entry_steps weather_steps zone_info_steps spawn_appearance_steps spawn_steps
    item_steps item_basic_steps
steps_of-lands (zone_entry_of f c) = elim (Option-cases c.surname) [
  | inl e ↦ rw e refl
  | inr (t, e) ↦ rw e refl
]
steps_of-lands (weather_of t i) = refl
steps_of-lands (zone_info_of z) = refl
steps_of-lands (spawn_appearance_of e a v) = refl
steps_of-lands (spawn_of f m) = elim (Bool-cases (is_client m.mob_type)) [
  | inl e ↦ rw e refl
  | inr e ↦ rw e refl
]
steps_of-lands (item_of v s) = elim (Bool-cases v.is_lore) [ inl e ↦ rw e refl | inr e ↦ rw e refl ]

-- The bodies that are cleared before they are written.
abbrev is_cleared : Body → Bool
is_cleared (zone_entry_of f c) = true
is_cleared (weather_of t i) = false
is_cleared (zone_info_of z) = true
is_cleared (spawn_appearance_of e a v) = false
is_cleared (spawn_of f m) = true
is_cleared (item_of v s) = false

small : (b : Body) → sizeof (struct_of b) < 2 ^ 31
small (zone_entry_of f c) = omega arith
small (weather_of t i) = omega arith
small (zone_info_of z) = omega arith
small (spawn_appearance_of e a v) = omega arith
small (spawn_of f m) = omega arith
small (item_of v s) = omega arith

-- The writer over the memory `fresh` of the new packet.
abbrev pub prepared : Body → List ℕ → Aligned
prepared b fresh = prepare (is_cleared b) (sizeof (struct_of b)) fresh

-- Over memory of the structure's size no write of a body throws, and the bytes of the writes stand
-- one after the other over what was there, or over zeroes where the packet is cleared.
pub write_body_lem :
    (b : Body) (fresh : List ℕ)
    → length fresh ≡ sizeof (struct_of b)
    → write_plains (writes (steps_of b)) (prepared b fresh)
      ≡ ok tt (written (prepared b fresh) (overlay (writes (steps_of b)) (prepared b fresh).buffer))
write_body_lem b fresh h =
    write_steps_lem (struct_of b) (steps_of b) (is_cleared b) fresh (steps_of-lands b) h (small b)
