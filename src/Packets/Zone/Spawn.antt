-- ===== src/Packets/Zone/Spawn.antt =====
-- `client_trilogy_make_op_spawn`.
use Prim.Native.String.{String}
use eqp.Common.{ℕ, zero, suc, ◌+◌, Bool, true, false, List, [], ◌∷◌, ltb, if◌then◌else◌}
use eqp.Aligned.Defs.{Outcome, ok, M, ◌>>=◌}
use eqp.Packets.Plain.{Plain, uint8, uint16, uint32, skip, chars, write_plains}
use eqp.Packets.Struct.{Steps, sizeof, sizeof_field, writes, zero_all}
use eqp.Packets.Structs.Zone.{spawn}
use eqp.Packets.Zone.Obfuscate.{spawn_obfuscate}
use eqp.Packets.Zone.Mobs.{
  Floats, Mob, MobType, npc, pet, client, npc_corpse, client_corpse, of_bool,
}

abbrev pub is_client : MobType → Bool
is_client npc = false
is_client pet = false
is_client client = true
is_client npc_corpse = false
is_client client_corpse = false

-- The `switch` on the type.
abbrev type_code : MobType → ℕ
type_code npc = 1
type_code pet = 1
type_code client = 0
type_code npc_corpse = 3
type_code client_corpse = 2

abbrev gap : String → Plain
gap field = skip (sizeof_field spawn field)

abbrev guild : Mob → ℕ
guild m = elim (is_client m.mob_type) [
  | true ↦ elim m.as_client.guild_id [ zero ↦ 0xffff | suc n ↦ suc n ]
  | false ↦ 0xffff
]

unfoldable pub spawn_steps : Floats → Mob → Steps
spawn_steps f m =
    ("unknownA", gap "unknownA" ∷ [])
    ∷ ("size", uint32 m.current_size ∷ [])
    ∷ ("walkingSpeed", uint32 m.current_walking_speed ∷ [])
    ∷ ("runningSpeed", uint32 m.current_running_speed ∷ [])
    ∷ (
      "tints",
      uint32 (m.tint 0)
          ∷ uint32 (m.tint 1)
          ∷ uint32 (m.tint 2)
          ∷ uint32 (m.tint 3)
          ∷ uint32 (m.tint 4)
          ∷ uint32 (m.tint 5)
          ∷ uint32 (m.tint 6)
          ∷ [],
    )
    ∷ ("unknownB", gap "unknownB" ∷ [])
    ∷ ("heading", uint8 m.heading_raw ∷ [])
    ∷ ("headingDelta", skip 1 ∷ [])
    ∷ ("y", uint16 (f.to_int16 m.y) ∷ [])
    ∷ ("x", uint16 (f.to_int16 m.x) ∷ [])
    ∷ ("z", uint16 (f.to_int16 (f.times m.z 10)) ∷ [])
    ∷ ("yDelta", skip 4 ∷ [])
    ∷ ("unknownC", gap "unknownC" ∷ [])
    ∷ ("entityId", uint16 m.entity_id ∷ [])
    ∷ ("bodyType", uint16 m.body_type ∷ [])
    ∷ ("ownerEntityId", uint16 m.owner_entity_id ∷ [])
    ∷ ("hpPercent", uint16 m.hp_ratio ∷ [])
    ∷ ("guildId", uint16 (guild m) ∷ [])
    ∷ ("race", uint8 (if ltb 0xff m.current_race then 1 else m.current_race) ∷ [])
    ∷ ("mobType", uint8 (type_code m.mob_type) ∷ [])
    ∷ ("class", uint8 m.class_ ∷ [])
    ∷ ("gender", uint8 m.current_gender ∷ [])
    ∷ ("level", uint8 m.level ∷ [])
    ∷ ("isInvisible", uint8 (of_bool m.is_invisible) ∷ [])
    ∷ ("unknownD", gap "unknownD" ∷ [])
    ∷ (
      "isPvP",
      elim (is_client m.mob_type) [
        | true ↦ uint8 (of_bool m.as_client.is_pvp) ∷ []
        | false ↦ skip 1 ∷ []
      ],
    )
    ∷ ("uprightState", uint8 m.upright_state ∷ [])
    ∷ ("light", uint8 m.light_level ∷ [])
    ∷ (
      "anon",
      elim (is_client m.mob_type) [
        | true ↦
            uint8 m.as_client.anon_setting
            ∷ uint8 (of_bool m.as_client.is_afk)
            ∷ gap "unknownE"
            ∷ uint8 (of_bool m.as_client.is_linkdead)
            ∷ uint8 (of_bool m.as_client.is_gm)
            ∷ []
        | false ↦ skip 5 ∷ []
      ],
    )
    ∷ ("unknownF", gap "unknownF" ∷ [])
    ∷ ("texture", uint8 m.texture ∷ [])
    ∷ ("helmTexture", uint8 m.helm_texture ∷ [])
    ∷ ("unknownG", gap "unknownG" ∷ [])
    ∷ (
      "materials",
      uint8 (m.material 0)
          ∷ uint8 (m.material 1)
          ∷ uint8 (m.material 2)
          ∷ uint8 (m.material 3)
          ∷ uint8 (m.material 4)
          ∷ uint8 (m.material 5)
          ∷ uint8 (m.material 6)
          ∷ uint8 m.primary_model_id
          ∷ uint8 m.secondary_model_id
          ∷ [],
    )
    ∷ ("name", chars (sizeof_field spawn "name") m.friendly_name ∷ [])
    ∷ (
      "surname",
      elim (is_client m.mob_type) [
        | true ↦
            chars (sizeof_field spawn "surname") m.surname_text ∷ uint8 m.as_client.guild_rank ∷ []
        | false ↦ skip (sizeof_field spawn "surname" + sizeof_field spawn "guildRank") ∷ []
      ],
    )
    ∷ ("unknownH", gap "unknownH" ∷ [])
    ∷ ("deity", uint16 m.deity ∷ [])
    ∷ []

-- The call that obfuscates the whole of the body.
unfoldable pub obfuscate : M (Unit {0})
obfuscate a = ok tt (record a { buffer = spawn_obfuscate a.buffer })

unfoldable pub make_op_spawn : Floats → Mob → List ℕ → Outcome (Unit {0})
make_op_spawn f m fresh =
    (write_plains (writes (spawn_steps f m)) >>= λ _. obfuscate) (zero_all (sizeof spawn) fresh)
