-- ===== src/Packets/Zone/Mobs.antt =====
-- What the packets of src/zone_cluster/mob/client_packet_trilogy_output.c read of mobs and clients.
use eqp.Common.{ℕ, Bool, Option, List, if◌then◌else◌}

-- The machine's arithmetic on `float`.
pub record Floats : Type 0 where
  -- conversion to `int16_t`
  pub to_int16 : ℕ → ℕ
  -- product with an `int`
  pub times : ℕ → ℕ → ℕ

abbrev pub of_bool : Bool → ℕ
of_bool b = if b then 1 else 0

-- Of `struct Client`, with the fields of its `Mob`. Texts are their bytes, without the terminator.
pub record Client : Type 0 where
  pub name : List ℕ
  pub surname : Option (List ℕ)
  pub zone_short_name : List ℕ
  pub x : ℕ
  pub y : ℕ
  pub z : ℕ
  pub heading : ℕ
  pub guild_id : ℕ
  pub guild_rank : ℕ
  pub class_ : ℕ
  pub base_race : ℕ
  pub base_gender : ℕ
  pub level : ℕ
  pub is_pvp : Bool
  pub is_gm : Bool
  pub is_afk : Bool
  pub is_linkdead : Bool
  pub face : ℕ
  pub helm_texture : ℕ
  pub texture : ℕ
  pub primary_model_id : ℕ
  pub secondary_model_id : ℕ
  pub base_walking_speed : ℕ
  pub base_running_speed : ℕ
  pub anon_setting : ℕ
  pub deity : ℕ

pub data MobType : Type 0 where
  npc pet client npc_corpse client_corpse : MobType

-- Of `struct Mob`; `as_client` is the client that a mob of type `client` is part of.
pub record Mob : Type 0 where
  pub mob_type : MobType
  pub as_client : Client
  pub surname_text : List ℕ
  pub current_size : ℕ
  pub current_walking_speed : ℕ
  pub current_running_speed : ℕ
  pub tint : ℕ → ℕ
  pub material : ℕ → ℕ
  pub heading_raw : ℕ
  pub x : ℕ
  pub y : ℕ
  pub z : ℕ
  pub entity_id : ℕ
  pub body_type : ℕ
  pub owner_entity_id : ℕ
  pub hp_ratio : ℕ
  pub current_race : ℕ
  pub class_ : ℕ
  pub current_gender : ℕ
  pub level : ℕ
  pub is_invisible : Bool
  pub upright_state : ℕ
  pub light_level : ℕ
  pub texture : ℕ
  pub helm_texture : ℕ
  pub primary_model_id : ℕ
  pub secondary_model_id : ℕ
  pub friendly_name : List ℕ
  pub deity : ℕ
