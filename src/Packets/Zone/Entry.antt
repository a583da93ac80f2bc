-- ===== src/Packets/Zone/Entry.antt =====
-- `client_trilogy_send_zone_entry`.
use Prim.Native.String.{String}
use eqp.Common.{ℕ, none, some, List, [], ◌∷◌, ◌==◌, if◌then◌else◌, take, drop, ◌-◌}
use eqp.Aligned.Defs.{M, Outcome, ◌>>=◌, reset, write_uint32}
use eqp.Net.Crc.{crc_calc32, complement}
use eqp.Packets.Plain.{Plain, uint8, uint16, uint32, skip, chars, write_plains}
use eqp.Packets.Struct.{Steps, sizeof, sizeof_field, writes, zero_all}
use eqp.Packets.Structs.Zone.{zone_entry}
use eqp.Packets.Zone.Mobs.{Floats, Client, of_bool}

abbrev gap : String → Plain
gap field = skip (sizeof_field zone_entry field)

unfoldable pub zone_entry_steps : Floats → Client → Steps
zone_entry_steps f c =
    ("crc", skip 4 ∷ [])
    ∷ ("unknownA", skip 1 ∷ [])
    ∷ ("name", chars (sizeof_field zone_entry "name") c.name ∷ [])
    ∷ ("zoneShortName", chars (sizeof_field zone_entry "zoneShortName") c.zone_short_name ∷ [])
    ∷ ("unknownB", skip 1 ∷ [])
    ∷ ("y", uint32 c.y ∷ [])
    ∷ ("x", uint32 c.x ∷ [])
    ∷ ("z", uint32 c.z ∷ [])
    ∷ ("heading", uint32 (f.times c.heading 2) ∷ [])
    ∷ ("unknownC", gap "unknownC" ∷ [])
    ∷ ("guildId", uint16 (if c.guild_id == 0 then 0xffff else c.guild_id) ∷ [])
    ∷ ("unknownD", gap "unknownD" ∷ [])
    ∷ ("class", uint8 c.class_ ∷ [])
    ∷ ("race", uint16 c.base_race ∷ [])
    ∷ ("gender", uint8 c.base_gender ∷ [])
    ∷ ("level", uint8 c.level ∷ [])
    ∷ ("unknownE", gap "unknownE" ∷ [])
    ∷ ("isPvP", uint8 (of_bool c.is_pvp) ∷ [])
    ∷ ("unknownF", gap "unknownF" ∷ [])
    ∷ ("face", uint8 c.face ∷ [])
    ∷ ("helmMaterial", uint8 c.helm_texture ∷ [])
    ∷ ("unknownG", gap "unknownG" ∷ [])
    ∷ ("secondaryWeaponModelId", uint8 c.secondary_model_id ∷ [])
    ∷ ("primaryWeaponModelId", uint8 c.primary_model_id ∷ [])
    ∷ ("unknownH", gap "unknownH" ∷ [])
    ∷ ("helmColor", uint32 0 ∷ [])
    ∷ ("unknownI", gap "unknownI" ∷ [])
    ∷ ("texture", uint8 c.texture ∷ [])
    ∷ ("unknownJ", gap "unknownJ" ∷ [])
    ∷ ("walkingSpeed", uint32 c.base_walking_speed ∷ [])
    ∷ ("runningSpeed", uint32 c.base_running_speed ∷ [])
    ∷ ("unknownK", gap "unknownK" ∷ [])
    ∷ ("anon", uint8 c.anon_setting ∷ [])
    ∷ ("unknownL", gap "unknownL" ∷ [])
    ∷ (
      "surname",
      elim c.surname [
        | none ↦ gap "surname" ∷ []
        | some text ↦ chars (sizeof_field zone_entry "surname") text ∷ []
      ],
    )
    ∷ ("unknownM", gap "unknownM" ∷ [])
    ∷ ("deity", uint16 c.deity ∷ [])
    ∷ []

-- The checksum of what stands behind it, complemented, goes to the front.
unfoldable pub write_crc : M (Unit {0})
write_crc a =
    (reset >>= λ _. write_uint32 (complement (crc_calc32 (take (a.length_ - 4) (drop 4 a.buffer)))))
      a

-- The body, over the memory `fresh` of the new packet.
unfoldable pub send_zone_entry : Floats → Client → List ℕ → Outcome (Unit {0})
send_zone_entry f c fresh =
    (write_plains (writes (zone_entry_steps f c)) >>= λ _. write_crc)
      (zero_all (sizeof zone_entry) fresh)
