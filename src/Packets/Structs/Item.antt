-- ===== src/Packets/Structs/Item.antt =====
-- src/zone_cluster/structs_trilogy.h: an item as it is sent. Of the unions the members for basic items.
use eqp.Common.{[], ◌∷◌}
use eqp.Packets.Struct.{Fields}

-- `Trilogy_ItemBasic`
abbrev pub item_basic : Fields
item_basic =
    ("basic.STR", 1)
    ∷ ("basic.STA", 1)
    ∷ ("basic.CHA", 1)
    ∷ ("basic.DEX", 1)
    ∷ ("basic.INT", 1)
    ∷ ("basic.AGI", 1)
    ∷ ("basic.WIS", 1)
    ∷ ("basic.MR", 1)
    ∷ ("basic.FR", 1)
    ∷ ("basic.CR", 1)
    ∷ ("basic.DR", 1)
    ∷ ("basic.PR", 1)
    ∷ ("basic.hp", 1)
    ∷ ("basic.mana", 1)
    ∷ ("basic.AC", 1)
    ∷ ("basic.isStackable", 1)
    ∷ ("basic.isTestItem", 1)
    ∷ ("basic.light", 1)
    ∷ ("basic.delay", 1)
    ∷ ("basic.damage", 1)
    ∷ ("basic.clickyType", 1)
    ∷ ("basic.range", 1)
    ∷ ("basic.skill", 1)
    ∷ ("basic.isMagic", 1)
    ∷ ("basic.clickableLevel", 1)
    ∷ ("basic.material", 1)
    ∷ ("basic.unknownA", 2)
    ∷ ("basic.tint", 4)
    ∷ ("basic.unknownB", 2)
    ∷ ("basic.spellId", 2)
    ∷ ("basic.classesBitfield", 4)
    ∷ ("basic.racesBitfield", 4)
    ∷ ("basic.consumableType", 1)
    ∷ ("basic.procLevel", 1)
    ∷ ("basic.charges", 1)
    ∷ ("basic.effectType", 1)
    ∷ ("basic.clickySpellId", 2)
    ∷ ("basic.unknownC", 10)
    ∷ ("basic.castingTime", 4)
    ∷ ("basic.unknownD", 28)
    ∷ ("basic.recommendedLevel", 1)
    ∷ ("basic.unknownE", 23)
    ∷ ("basic.deityBitfield", 4)
    ∷ []

-- `Trilogy_Item`
abbrev pub item : Fields
item =
    ("name", 35)
    ∷ ("lore", 60)
    ∷ ("model", 6)
    ∷ ("typeFlag", 2)
    ∷ ("unknownA", 22)
    ∷ ("weight", 1)
    ∷ ("isPermanent", 1)
    ∷ ("isDroppable", 1)
    ∷ ("size", 1)
    ∷ ("itemType", 1)
    ∷ ("itemId", 2)
    ∷ ("icon", 2)
    ∷ ("currentSlot", 2)
    ∷ ("slotsBitfield", 4)
    ∷ ("cost", 4)
    ∷ ("unknownB", 16)
    ∷ ("instanceId", 4)
    ∷ ("isDroppableRoleplayServer", 1)
    ∷ ("unknownC", 7)
    ∷ item_basic
