-- ===== src/Packets/Structs/Zone.antt =====
-- src/zone_cluster/structs_trilogy.h: the structures of the zone servers.
use eqp.Common.{[], ◌∷◌}
use eqp.Packets.Struct.{Fields}

-- `Trilogy_ZoneEntry`
abbrev pub zone_entry : Fields
zone_entry =
    ("crc", 4)
    ∷ ("unknownA", 1)
    ∷ ("name", 30)
    ∷ ("zoneShortName", 20)
    ∷ ("unknownB", 1)
    ∷ ("y", 4)
    ∷ ("x", 4)
    ∷ ("z", 4)
    ∷ ("heading", 4)
    ∷ ("unknownC", 76)
    ∷ ("guildId", 2)
    ∷ ("unknownD", 7)
    ∷ ("class", 1)
    ∷ ("race", 2)
    ∷ ("gender", 1)
    ∷ ("level", 1)
    ∷ ("unknownE", 2)
    ∷ ("isPvP", 1)
    ∷ ("unknownF", 2)
    ∷ ("face", 1)
    ∷ ("helmMaterial", 1)
    ∷ ("unknownG", 6)
    ∷ ("secondaryWeaponModelId", 1)
    ∷ ("primaryWeaponModelId", 1)
    ∷ ("unknownH", 3)
    ∷ ("helmColor", 4)
    ∷ ("unknownI", 32)
    ∷ ("texture", 1)
    ∷ ("unknownJ", 19)
    ∷ ("walkingSpeed", 4)
    ∷ ("runningSpeed", 4)
    ∷ ("unknownK", 12)
    ∷ ("anon", 1)
    ∷ ("unknownL", 23)
    ∷ ("surname", 20)
    ∷ ("unknownM", 2)
    ∷ ("deity", 2)
    ∷ ("unknownN", 8)
    ∷ []

-- `Trilogy_Weather`
abbrev pub weather : Fields
weather = ("type", 4) ∷ ("intensity", 4) ∷ []

-- `Trilogy_ZoneInfo`
abbrev pub zone_info : Fields
zone_info =
    ("characterName", 30)
    ∷ ("zoneShortName", 20)
    ∷ ("zoneLongName", 180)
    ∷ ("zoneType", 1)
    ∷ ("fogRed", 4)
    ∷ ("fogGreen", 4)
    ∷ ("fogBlue", 4)
    ∷ ("unknownA", 1)
    ∷ ("fogMinClippingDistance", 16)
    ∷ ("fogMaxClippingDistance", 16)
    ∷ ("gravity", 4)
    ∷ ("unknownB", 50)
    ∷ ("skyType", 2)
    ∷ ("unknownC", 8)
    ∷ ("unknownD", 4)
    ∷ ("safeSpotX", 4)
    ∷ ("safeSpotY", 4)
    ∷ ("safeSpotZ", 4)
    ∷ ("safeSpotHeading", 4)
    ∷ ("minZ", 4)
    ∷ ("minClippingDistance", 4)
    ∷ ("maxClippingDistance", 4)
    ∷ ("unknownE", 32)
    ∷ []

-- `Trilogy_SpawnAppearance`
abbrev pub spawn_appearance : Fields
spawn_appearance =
    ("entityId", 2) ∷ ("unknownA", 2) ∷ ("type", 2) ∷ ("unknownB", 2) ∷ ("value", 4) ∷ []

-- `Trilogy_Spawn`
abbrev pub spawn : Fields
spawn =
    ("unknownA", 4)
    ∷ ("size", 4)
    ∷ ("walkingSpeed", 4)
    ∷ ("runningSpeed", 4)
    ∷ ("tints", 28)
    ∷ ("unknownB", 9)
    ∷ ("heading", 1)
    ∷ ("headingDelta", 1)
    ∷ ("y", 2)
    ∷ ("x", 2)
    ∷ ("z", 2)
    ∷ ("yDelta", 4)
    ∷ ("unknownC", 1)
    ∷ ("entityId", 2)
    ∷ ("bodyType", 2)
    ∷ ("ownerEntityId", 2)
    ∷ ("hpPercent", 2)
    ∷ ("guildId", 2)
    ∷ ("race", 1)
    ∷ ("mobType", 1)
    ∷ ("class", 1)
    ∷ ("gender", 1)
    ∷ ("level", 1)
    ∷ ("isInvisible", 1)
    ∷ ("unknownD", 1)
    ∷ ("isPvP", 1)
    ∷ ("uprightState", 1)
    ∷ ("light", 1)
    ∷ ("anon", 1)
    ∷ ("isAfk", 1)
    ∷ ("unknownE", 1)
    ∷ ("isLinkdead", 1)
    ∷ ("isGM", 1)
    ∷ ("unknownF", 1)
    ∷ ("texture", 1)
    ∷ ("helmTexture", 1)
    ∷ ("unknownG", 1)
    ∷ ("materials", 9)
    ∷ ("name", 30)
    ∷ ("surname", 20)
    ∷ ("guildRank", 1)
    ∷ ("unknownH", 1)
    ∷ ("deity", 2)
    ∷ ("unknownI", 10)
    ∷ []
